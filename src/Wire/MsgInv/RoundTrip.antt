-- ===== src/Wire/MsgInv/RoundTrip.antt =====
-- `MsgInv.Encode`, `MsgInv.Decode` and the limit of 50,000 vectors.
use bmutil.Common.{
  ℕ, ◌+◌, ◌≤◌, ◌<◌, ◌≡◌, List, [], ◌∷◌, ◌++◌, Bytes, All, All-append, length, length-append, ap,
  ltb, ltb→ge, Bool-cases, inl, inr, arith,
}
use bmutil.Error.{too_many_invvect}
use bmutil.Stream.{Sink, err, state}
use bmutil.Stream.Parses.{Parses}
use bmutil.Stream.Emits.{Emits}
use bmutil.Stream.Yields.{Yields}
use bmutil.Types.{IsU64}
use bmutil.Types.VarInt.{var_int, var_int_serialize_size_bounds}
use bmutil.Wire.Loops.{view-foldl, map_id}
use bmutil.Wire.Loops.Counted.{
  counted_text, Emits-counted, Parses-counted, Yields-counted, counted_limit, length-counted-le,
}
use bmutil.Wire.InvVect.{
  InvVect, IsSha, max_inv_per_msg, max_inv_vect_payload, read_inv_vect, write_inv_vect,
  Emits-write_inv_vect, Parses-read_inv_vect, Yields-read_inv_vect,
}
use bmutil.Wire.MsgInv.{
  MsgInv, new_msg_inv, add_inv_vect, added, decode, encode, max_payload_length,
}
use mathlib.Core.List.{foldl}

-- At most 50,000 vectors, each of 32 bytes
pub record IsValid (msg : MsgInv) : Type 0 where
  pub few : length msg.inv_list ≤ max_inv_per_msg
  pub each : All IsSha msg.inv_list

unfoldable pub text : MsgInv → Bytes
text msg = counted_text (λ iv. iv) msg.inv_list

-- `AddInvVect` appends below the limit, and reports the limit with the message unchanged. Either
-- way a message stays valid.
pub add_inv_vect-IsValid :
    (iv : InvVect) (msg : MsgInv) → IsValid msg → IsSha iv → IsValid (state (add_inv_vect iv msg))
unfolding add_inv_vect
add_inv_vect-IsValid iv msg v h =
    elim (Bool-cases (ltb max_inv_per_msg (length msg.inv_list + 1))) [
      | inl full ↦ rw full v
      | inr fits ↦ rw fits (record {
        few = omega (arith, length-append msg.inv_list (iv ∷ []), ltb→ge _ _ fits);
        each = All-append IsSha msg.inv_list (iv ∷ []) v.each (h, tt);
      })
    ]

added_few :
    (msg : MsgInv) (iv : InvVect)
    → length msg.inv_list < max_inv_per_msg
    → (added msg iv).inv_list ≡ msg.inv_list ++ (iv ∷ [])
unfolding added
added_few msg iv h = ground arith

collected :
    (ivs : List InvVect)
    → length ivs ≤ max_inv_per_msg
    → foldl added new_msg_inv ivs ≡ record { inv_list = ivs }
collected ivs h =
    ap {B = MsgInv} (λ l. record { inv_list = l })
      (view-foldl (λ (msg : MsgInv). msg.inv_list) added max_inv_per_msg added_few ivs new_msg_inv
        (omega arith))

-- Within the limit `Encode` makes the text of the message.
pub Emits-encode :
    (msg : MsgInv) → length msg.inv_list ≤ max_inv_per_msg → Emits (encode msg) (text msg)
unfolding encode text
Emits-encode msg h =
    Emits-counted max_inv_per_msg too_many_invvect write_inv_vect (λ iv. iv) Emits-write_inv_vect
      msg.inv_list h

-- `Decode` reads back each message that `Encode` wrote.
pub Parses-decode : (msg : MsgInv) → IsValid msg → Parses decode (text msg) msg
unfolding decode text
Parses-decode msg v =
    Parses-counted max_inv_per_msg too_many_invvect read_inv_vect added new_msg_inv IsSha (λ iv. iv)
      (λ iv. iv) Parses-read_inv_vect msg.inv_list v.each v.few (omega arith) msg
      (rw (map_id msg.inv_list) (collected msg.inv_list v.few))

-- On any input of bytes `Decode` takes bytes from its front, and whatever it returns has at most
-- 50,000 vectors, each of 32 bytes.
pub Yields-inv : Yields decode IsValid
unfolding decode
Yields-inv =
    Yields-counted max_inv_per_msg too_many_invvect read_inv_vect added new_msg_inv IsSha IsValid
      Yields-read_inv_vect (λ msg iv v a. unfold added in add_inv_vect-IsValid iv msg v a)
      (record { few = omega arith; each = tt })

-- Above the limit `Encode` writes nothing and says so, and `Decode` stops at the count.
pub inv_limit :
    (msg : MsgInv) (s : Sink) (n : ℕ) (rest : Bytes)
    → max_inv_per_msg < length msg.inv_list
    → max_inv_per_msg < n
    → IsU64 n
    → (encode msg s ≡ err too_many_invvect s)
      × (decode (var_int n ++ rest) ≡ err too_many_invvect rest)
unfolding encode decode
inv_limit msg =
    counted_limit max_inv_per_msg too_many_invvect write_inv_vect msg.inv_list read_inv_vect added
      new_msg_inv

-- The text is no longer than `MaxPayloadLength`.
pub length-text-le : (msg : MsgInv) → IsValid msg → length (text msg) ≤ max_payload_length
unfolding text max_payload_length
length-text-le msg v = omega (
  arith,
  length-counted-le (λ iv. iv) IsSha max_inv_vect_payload max_inv_per_msg msg.inv_list (λ iv h. h.0)
      v.each v.few,
  var_int_serialize_size_bounds max_inv_per_msg,
)

-- A valid inv message is written as its text, which is no longer than `MaxPayloadLength`, and read
-- back unchanged, whatever follows; each proper prefix gives the end of the input.
inv_round_trip :
    (msg : MsgInv)
    → IsValid msg
    → Emits (encode msg) (text msg)
      × Parses decode (text msg) msg
      × (length (text msg) ≤ max_payload_length)
inv_round_trip msg v = (Emits-encode msg v.few, Parses-decode msg v, length-text-le msg v)
