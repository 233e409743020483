-- ===== src/Wire/MsgAddr/RoundTrip.antt =====
-- `MsgAddr.Encode` and `MsgAddr.Decode`.
use bmutil.Common.{ℕ, ◌≤◌, ◌<◌, ◌≡◌, true, List, [], ◌∷◌, ◌++◌, Bytes, length, ap, arith}
use bmutil.Error.{too_many_addresses}
use bmutil.Stream.{Sink, err}
use bmutil.Stream.Parses.{Parses}
use bmutil.Stream.Emits.{Emits}
use bmutil.Stream.Yields.{Yields}
use bmutil.Types.{IsU64}
use bmutil.Types.VarInt.{var_int}
use bmutil.Wire.Loops.{view-foldl, length-map}
use bmutil.Wire.Loops.Counted.{
  counted_text, Emits-counted, Parses-counted, Yields-counted, counted_limit, length-counted-le,
}
use bmutil.Wire.NetAddress.{
  NetAddress, read_net_address, write_net_address, max_net_address_payload,
}
use bmutil.Wire.NetAddress.RoundTrip
use bmutil.Wire.NetAddress.RoundTrip.{
  Parses-read_net_address, Emits-write_net_address, Yields-read_net_address,
}
use bmutil.Wire.MsgAddr.{
  MsgAddr, new_msg_addr, added, decode, encode, max_addr_per_msg, max_payload_length,
}
use bmutil.Wire.MsgAddr.Bounds.{IsValid, add_address-IsValid}
use mathlib.Core.List.{foldl, map}

-- What the other side sees: each IP in its 16 byte form
unfoldable pub received : MsgAddr → MsgAddr
received msg = record { addr_list = map (RoundTrip.received true) msg.addr_list }

unfoldable pub text : MsgAddr → Bytes
text msg = counted_text (RoundTrip.text true) msg.addr_list

added_few :
    (msg : MsgAddr) (na : NetAddress)
    → length msg.addr_list < max_addr_per_msg
    → (added msg na).addr_list ≡ msg.addr_list ++ (na ∷ [])
unfolding added
added_few msg na h = ground arith

collected :
    (nas : List NetAddress)
    → length nas ≤ max_addr_per_msg
    → foldl added new_msg_addr nas ≡ record { addr_list = nas }
collected nas h =
    ap {B = MsgAddr} (λ l. record { addr_list = l })
      (view-foldl (λ (msg : MsgAddr). msg.addr_list) added max_addr_per_msg added_few nas
        new_msg_addr (omega arith))

-- Within the limit `Encode` makes the text of the message.
pub Emits-encode :
    (msg : MsgAddr) → length msg.addr_list ≤ max_addr_per_msg → Emits (encode msg) (text msg)
unfolding encode text
Emits-encode msg h =
    Emits-counted max_addr_per_msg too_many_addresses (λ na. write_net_address na true)
      (RoundTrip.text true) (λ na. Emits-write_net_address na true) msg.addr_list h

-- `Decode` reads back a message that `Encode` wrote, as the other side is to see it.
pub Parses-decode : (msg : MsgAddr) → IsValid msg → Parses decode (text msg) (received msg)
unfolding decode text received
Parses-decode msg v =
    Parses-counted max_addr_per_msg too_many_addresses (read_net_address true) added new_msg_addr
      RoundTrip.IsValid (RoundTrip.text true) (RoundTrip.received true)
      (λ na. Parses-read_net_address na true) msg.addr_list v.each v.few (omega arith) _
      (collected (map (RoundTrip.received true) msg.addr_list)
        (omega (arith, length-map (RoundTrip.received true) msg.addr_list, v.few)))

-- On any input of bytes `Decode` takes bytes from its front, and whatever it returns has at most
-- 1000 addresses, each with its fields in range.
pub Yields-addr : Yields decode IsValid
unfolding decode
Yields-addr =
    Yields-counted max_addr_per_msg too_many_addresses (read_net_address true) added new_msg_addr
      RoundTrip.IsValid IsValid (Yields-read_net_address true)
      (λ msg na v a. unfold added in add_address-IsValid na msg v a)
      (record { few = omega arith; each = tt })

-- Of a message with more than 1000 addresses `Encode` writes nothing and says so, and where the
-- count to read is above 1000 and a uint64, `Decode` stops at the count.
addr_limit :
    (msg : MsgAddr) (s : Sink) (n : ℕ) (rest : Bytes)
    → max_addr_per_msg < length msg.addr_list
    → max_addr_per_msg < n
    → IsU64 n
    → (encode msg s ≡ err too_many_addresses s)
      × (decode (var_int n ++ rest) ≡ err too_many_addresses rest)
unfolding encode decode
addr_limit msg =
    counted_limit max_addr_per_msg too_many_addresses (λ na. write_net_address na true)
      msg.addr_list (read_net_address true) added new_msg_addr

-- The text is no longer than `MaxPayloadLength`.
pub length-text-le : (msg : MsgAddr) → IsValid msg → length (text msg) ≤ max_payload_length
unfolding text max_payload_length
length-text-le msg v =
    length-counted-le (RoundTrip.text true) RoundTrip.IsValid max_net_address_payload
      max_addr_per_msg msg.addr_list (λ na h. (RoundTrip.length-text na).0) v.each v.few

-- A valid addr message is written as its text, which is no longer than `MaxPayloadLength`, and read
-- back with each IP in 16 bytes, whatever follows; each proper prefix gives the end of the input.
addr_round_trip :
    (msg : MsgAddr)
    → IsValid msg
    → Emits (encode msg) (text msg)
      × Parses decode (text msg) (received msg)
      × (length (text msg) ≤ max_payload_length)
addr_round_trip msg v = (Emits-encode msg v.few, Parses-decode msg v, length-text-le msg v)
