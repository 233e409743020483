-- ===== src/Wire/MsgAddr.antt =====
-- wire/msgaddr.go: the addresses of known peers, at most 1000 in a message. A `*NetAddress` in the
-- list is its value: the package changes none after it was added.
pub mod Bounds
pub mod RoundTrip
use bmutil.Common.{ℕ, ◌+◌, ◌*◌, List, [], ◌∷◌, ◌++◌, Bytes, codes, length, ltb, if◌then◌else◌, true}
use bmutil.Error.{too_many_addresses}
use bmutil.Stream.{Outcome, ok, err, M, state, ◌>>=◌, ◌>>◌, pure, fail, Reader, Writer}
use bmutil.Types.{read_var_int, write_var_int, var_int_serialize_size}
use bmutil.Wire.Loops.{for_each, read_times}
use bmutil.Wire.NetAddress.{
  NetAddress, read_net_address, write_net_address, max_net_address_payload,
}

abbrev pub max_addr_per_msg : ℕ
max_addr_per_msg = 1000

pub record MsgAddr : Type 0 where
  pub addr_list : List NetAddress

abbrev pub new_msg_addr : MsgAddr
new_msg_addr = record { addr_list = [] }

-- A method that changes the message is an action on it.
pub add_address : NetAddress → M MsgAddr (Unit {0})
add_address na msg =
    if ltb max_addr_per_msg (length msg.addr_list + 1)
    then err too_many_addresses msg
    else ok tt (record { addr_list = msg.addr_list ++ (na ∷ []) })

pub add_addresses : List NetAddress → M MsgAddr (Unit {0})
add_addresses [] = pure tt
add_addresses (na ∷ nas) = do add_address na; add_addresses nas

pub clear_addresses : MsgAddr → MsgAddr
clear_addresses msg = record { addr_list = [] }

-- one round of the loop of `Decode`, where the error of `AddAddress` is dropped
pub added : MsgAddr → NetAddress → MsgAddr
unfolding add_address
added msg na = state (add_address na msg)

pub decode : Reader MsgAddr
unfolding added
decode = do
  count ← read_var_int
  if ltb max_addr_per_msg count
      then fail too_many_addresses
      else read_times (read_net_address true) added count (record { addr_list = [] })

pub encode : MsgAddr → Writer
encode msg =
    let count = length msg.addr_list in
    if ltb max_addr_per_msg count
    then fail too_many_addresses
    else do write_var_int count; for_each (λ na. write_net_address na true) msg.addr_list

abbrev pub command : Bytes
command = codes "addr"

pub max_payload_length : ℕ
max_payload_length =
    var_int_serialize_size max_addr_per_msg + max_addr_per_msg * max_net_address_payload
