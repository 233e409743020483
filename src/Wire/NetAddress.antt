-- ===== src/Wire/NetAddress.antt =====
-- wire/netaddress.go: the address of a peer. `Timestamp` is the bit pattern of its Unix seconds,
-- an int64. A nil `net.IP` is the empty list, as is an empty one: `To16` is nil for both.
pub mod RoundTrip
use Prim.Native.Nat.{bit_and, bit_or}
use bmutil.Common.{
  ℕ, ◌+◌, ◌-◌, ◌%◌, ◌^◌, Bool, true, false, [], ◌∷◌, ◌++◌, Bytes, length, take, replicate, ◌==◌,
  if◌then◌else◌, copy_zeroed,
}
use bmutil.Error.{invalid_net_addr}
use bmutil.Stream.{M, fail, ◌>>=◌, ◌>>◌, pure, Reader, Writer, write}
use bmutil.Binary.{put_be, read_be}
use bmutil.Wire.Element.{uint32, uint64, service_flag, ip, read_elements, write_elements}

pub record NetAddress : Type 0 where
  pub timestamp : ℕ
  pub stream : ℕ
  pub services : ℕ
  pub addr : Bytes
  pub port : ℕ

abbrev pub max_net_address_payload : ℕ
max_net_address_payload = 8 + 4 + 8 + 16 + 2

pub has_service : NetAddress → ℕ → Bool
has_service na service = bit_and na.services service == service

pub add_service : NetAddress → ℕ → NetAddress
add_service na service = record na { services = bit_or na.services service }

unfoldable pub set_address : NetAddress → Bytes → ℕ → NetAddress
set_address na addr port = record na { addr = addr; port = port }

-- `NewNetAddressIPPort`, with the Unix seconds of `time.Now()` as `now`
pub new_net_address_ip_port : ℕ → Bytes → ℕ → ℕ → ℕ → NetAddress
new_net_address_ip_port now addr port stream services = record {
  timestamp = now;
  stream = stream;
  services = services;
  addr = addr;
  port = port;
}

-- A `net.Addr` is a `*net.TCPAddr` with its IP and port, or it is none.
pub data Addr : Type 0 where
  tcp : Bytes → ℕ → Addr
  other : Addr

-- `NewNetAddress`
pub new_net_address {ℓ} : {S : Type ℓ} → ℕ → Addr → ℕ → ℕ → M S NetAddress
new_net_address now (tcp addr port) stream services =
    pure (new_net_address_ip_port now addr (port % 2 ^ 16) stream services)
new_net_address now other stream services = fail invalid_net_addr

-- The Unix seconds of the zero `time.Time`, which is in the year 1
abbrev pub zero_time : ℕ
zero_time = 2 ^ 64 - 62135596800

-- `if big { … }` of `readNetAddress`: the timestamp and the stream
pub read_stamp : Bool → Reader (ℕ × ℕ)
read_stamp true = do es ← read_elements (uint64 ∷ uint32 ∷ []); pure (es.0, es.1.0)
read_stamp false = pure (zero_time, 0)

pub read_net_address : Bool → Reader NetAddress
unfolding set_address
read_net_address big = do
  stamp ← read_stamp big
  es ← read_elements (service_flag ∷ ip ∷ [])
  port ← read_be 2
  pure (
      set_address
        (record { timestamp = stamp.0; stream = stamp.1; services = es.0; addr = []; port = 0 })
        es.1.0 port)

-- `net.IP.To16`, with nil as the empty list
pub to16 : Bytes → Bytes
to16 addr =
    if length addr == 4
    then 0 ∷ 0 ∷ 0 ∷ 0 ∷ 0 ∷ 0 ∷ 0 ∷ 0 ∷ 0 ∷ 0 ∷ 0xff ∷ 0xff ∷ addr
    else if length addr == 16
    then addr
    else []

-- `var ip [16]byte`, and `copy(ip[:], na.IP.To16())` over it
pub wire_ip : Bytes → Bytes
unfolding to16
wire_ip addr = copy_zeroed 16 (to16 addr)

-- `if big { … }` of `writeNetAddress`
pub write_stamp : Bool → NetAddress → Writer
write_stamp true na = write_elements (uint64 ∷ uint32 ∷ []) (na.timestamp, (na.stream, tt))
write_stamp false na = pure tt

pub write_net_address : NetAddress → Bool → Writer
write_net_address na big = do
  write_stamp big na
  write_elements (service_flag ∷ ip ∷ []) (na.services, (wire_ip na.addr, tt))
  write (put_be 2 na.port)
