-- ===== src/Wire/Obj/Dispatch/Fallback.antt =====
-- `DecodeObject` where a payload is refused: it goes on to an object of no special type.
use bmutil.Common.{ℕ, ◌≡◌, refl, none, some, Option, [], ◌∷◌, ◌++◌, ◌==◌, Bytes, true, ==_iff}
use bmutil.Error.{Error}
use bmutil.Stream.{Outcome, ok, err, Reader, read_all, and_then, pure}
use bmutil.Stream.Parses.{Parses, Parses-map, IsStarved}
use bmutil.Wire.Obj.GetPubKey
use bmutil.Wire.Obj.GetPubKey.{GetPubKey}
use bmutil.Wire.Obj.Dispatch.Valid.{IsGetPubKey}
use bmutil.Wire.ObjectHeader.{ObjectHeader, decode_object_header}
use bmutil.Wire.ObjectHeader
use bmutil.Wire.MsgObject.{new_msg_object}
use bmutil.Wire.Obj.Payload.{object_text}
use bmutil.Wire.Obj.Dispatch.{
  Object, other, get_pub_key, decodable, decode_payload, decode_object, generic, recover,
}

abbrev pub error_of {ℓ κ} : {S : Type κ} {A : Type ℓ} → Outcome S A → Option Error
error_of (ok v s) = none
error_of (err e s) = some e

error_of-recover : (h : ObjectHeader) (o : Outcome Bytes Object) → error_of (recover h o) ≡ none
unfolding recover generic read_all
error_of-recover h (ok o s) = refl
error_of-recover h (err e s) = refl

error_of-decode_payload :
    (h : ObjectHeader) (p : Option (Reader Object)) (r : Bytes)
    → error_of (decode_payload h p r) ≡ none
unfolding decode_payload generic read_all
error_of-decode_payload h none r = refl
error_of-decode_payload h (some p) r = error_of-recover h (p r)

error_of-and_then {ℓ κ} :
    {A : Type ℓ} {B : Type κ} (o : Outcome Bytes A) (k : A → Reader B)
    → ((v : A) (r : Bytes) → error_of (k v r) ≡ none)
    → error_of (and_then o k) ≡ error_of o
error_of-and_then (ok v r) k h = h v r
error_of-and_then (err e r) k h = refl

-- `DecodeObject` fails just where the header of the object cannot be read, and with the error that
-- reading the header gives: it refuses no payload.
pub error_of-decode_object :
    (r : Bytes) → error_of (decode_object r) ≡ error_of (decode_object_header r)
unfolding decode_object
error_of-decode_object r =
    error_of-and_then (decode_object_header r) (λ h. decode_payload h (decodable h))
      (λ h. error_of-decode_payload h (decodable h))

recover-IsStarved :
    (h : ObjectHeader) (o : Outcome Bytes Object)
    → IsStarved o
    → recover h o ≡ ok (other (record { header = h; payload = [] })) []
unfolding recover generic new_msg_object read_all
recover-IsStarved h (ok o r) s = absurd s
recover-IsStarved h (err e r) s = rw s.1

-- A request for a public key whose payload is cut short is no error to `DecodeObject`: the object
-- has the header of the request, and the bytes that were read of the payload are lost.
pub cut_request_drops :
    (o : GetPubKey) (front : Bytes) (x : ℕ) (back : Bytes)
    → IsGetPubKey o
    → GetPubKey.Payload.text o ≡ front ++ (x ∷ back)
    → decode_object (object_text o.header front)
      ≡ ok (other (record { header = o.header; payload = [] })) []
unfolding decode_object decode_payload decodable
cut_request_drops o front x back v e =
    let request : (o.header.object_type == 0) ≡ true =
      (==_iff o.header.object_type 0).1 v.is_get_pub_key in
    rw (Parses.whole (ObjectHeader.Parses-decode o.header v.header_valid) front, request)
      (recover-IsStarved o.header _ (
        Parses.cut
          (Parses-map (λ q. pure (get_pub_key q)) (GetPubKey.Payload.Parses-payload o v.is_request)
            (λ r. refl))
          front x back e))
