-- ===== src/Wire/MsgInv.antt =====
-- wire/msginv.go: the inventory vectors that a peer advertises, at most 50,000 in a message. The
-- size hints of the constructors change no contents, and are left out.
pub mod RoundTrip
use bmutil.Common.{ℕ, ◌+◌, ◌*◌, List, [], ◌∷◌, ◌++◌, Bytes, codes, length, ltb, if◌then◌else◌}
use bmutil.Error.{too_many_invvect}
use bmutil.Stream.{ok, err, M, state, ◌>>=◌, ◌>>◌, fail, Reader, Writer}
use bmutil.Types.{read_var_int, write_var_int, max_var_int_size}
use bmutil.Wire.Loops.{for_each, read_times}
use bmutil.Wire.InvVect.{
  InvVect, max_inv_per_msg, max_inv_vect_payload, read_inv_vect, write_inv_vect,
}

pub record MsgInv : Type 0 where
  pub inv_list : List InvVect

abbrev pub new_msg_inv : MsgInv
new_msg_inv = record { inv_list = [] }

pub add_inv_vect : InvVect → M MsgInv (Unit {0})
add_inv_vect iv msg =
    if ltb max_inv_per_msg (length msg.inv_list + 1)
    then err too_many_invvect msg
    else ok tt (record { inv_list = msg.inv_list ++ (iv ∷ []) })

-- one round of the loop of `Decode`, where the error of `AddInvVect` is dropped
pub added : MsgInv → InvVect → MsgInv
unfolding add_inv_vect
added msg iv = state (add_inv_vect iv msg)

pub decode : Reader MsgInv
unfolding added
decode = do
  count ← read_var_int
  if ltb max_inv_per_msg count
      then fail too_many_invvect
      else read_times read_inv_vect added count (record { inv_list = [] })

pub encode : MsgInv → Writer
encode msg =
    let count = length msg.inv_list in
    if ltb max_inv_per_msg count
    then fail too_many_invvect
    else do write_var_int count; for_each write_inv_vect msg.inv_list

abbrev pub command : Bytes
command = codes "inv"

unfoldable pub max_payload_length : ℕ
max_payload_length = max_var_int_size + max_inv_per_msg * max_inv_vect_payload
