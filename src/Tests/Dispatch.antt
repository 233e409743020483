-- ===== src/Tests/Dispatch.antt =====
-- wire/obj: the objects that `DecodeObject` tells apart.
use bmutil.Common.{◌≡◌, refl, [], ◌∷◌, ◌++◌, arith, replicate, inl, some, ℕ, drop, ◌≤◌}
use bmutil.Stream.{ok}
use bmutil.Stream.Emits.{Emits}
use bmutil.Binary.{put_be}
use bmutil.Wire.ObjectHeader.{ObjectHeader, decode_object_header}
use bmutil.Wire.ObjectHeader as Header
use bmutil.Wire.MsgObject as Object
use bmutil.Wire.Obj.Payload.{object_text}
use bmutil.Wire.Obj.PubKeyData as KeyData
use bmutil.Wire.Obj.GetPubKey as Request
use bmutil.Wire.Obj.ExtendedPubKey as Extended
use bmutil.Wire.Obj.ExtendedPubKey.{ExtendedPubKey, cut_key_accepted}
use bmutil.Wire.Obj.Broadcast.{TaglessBroadcast, TaggedBroadcast}
use bmutil.Wire.Obj.Broadcast.Codec.{IsTagless, IsTagged}
use bmutil.Wire.Obj.Dispatch.{extended, other, encode, decode_object, msg_object}
use bmutil.Wire.Obj.Dispatch.RoundTrip.{object_refines}
use bmutil.Wire.Obj.Dispatch.Valid.{body, received}
use bmutil.Wire.Obj.Dispatch.Fallback.{error_of, error_of-decode_object, cut_request_drops}
use bmutil.Tests.Inputs.{sha, sha-IsSha}
use bmutil.Tests.Objects.{
  key_data, key_data-IsValid, by_tag, request_header, request_header-IsValid,
}

abbrev header : ℕ → ℕ → ObjectHeader
header kind version = record {
  nonce = 9;
  expiration = 1400000000;
  object_type = kind;
  version = version;
  stream_number = 1;
}

header-IsValid : (kind version : ℕ) → kind ≤ 3 → version ≤ 5 → Header.IsValid (header kind version)
header-IsValid kind version h k = record {
  nonce_fits = omega arith;
  expiration_fits = omega arith;
  object_type_fits = omega arith;
  version_fits = omega arith;
  stream_fits = omega arith;
}

abbrev key : ExtendedPubKey
key = record { header = header 1 3; key_data = key_data; signature = 8 ∷ 9 ∷ [] }

key-IsValid : Extended.IsValid key
key-IsValid = record {
  header_valid = header-IsValid 1 3 (omega arith) (omega arith);
  is_pub_key = refl;
  is_extended = refl;
  data_valid = key_data-IsValid;
  signature_short = omega arith;
}

object_refines_example :
    Emits (encode (extended key)) (object_text key.header (body (extended key)))
    × (decode_object (object_text key.header (body (extended key)))
        ≡ ok (received (extended key)) [])
    × Emits
        (Object.encode (msg_object (extended key)))
        (object_text key.header (body (extended key)))
    × (Object.decode (object_text key.header (body (extended key)))
        ≡ ok (msg_object (extended key)) [])
object_refines_example = object_refines (extended key) key-IsValid

key_text : KeyData.text key_data ≡ (0 ∷ 0 ∷ 0 ∷ 1 ∷ []) ++ (5 ∷ drop 5 (KeyData.text key_data))
unfolding KeyData.text KeyData.simple_text put_be
key_text = refl

cut_key_accepted_example :
    Extended.decode (object_text (header 1 3) (0 ∷ 0 ∷ 0 ∷ 1 ∷ []))
    ≡ ok
        (record {
          header = header 1 3;
          key_data = Extended.data_left (0 ∷ 0 ∷ 0 ∷ 1 ∷ []);
          signature = [];
        })
        []
cut_key_accepted_example =
    cut_key_accepted key (0 ∷ 0 ∷ 0 ∷ 1 ∷ []) 5 (drop 5 (KeyData.text key_data)) key-IsValid
      key_text

abbrev plain : ℕ → TaglessBroadcast
plain kind = record { header = header kind 4; encrypted = 7 ∷ [] }

abbrev with_tag : ℕ → TaggedBroadcast
with_tag kind = record { header = header kind 5; tag = some sha; encrypted = 7 ∷ [] }

plain-IsTagless : IsTagless (plain 3)
plain-IsTagless = record {
  header_valid = header-IsValid 3 4 (omega arith) (omega arith);
  is_broadcast = refl;
  is_tagless = refl;
}

with_tag-IsTagged : IsTagged (with_tag 3)
with_tag-IsTagged = record {
  header_valid = header-IsValid 3 5 (omega arith) (omega arith);
  is_broadcast = refl;
  is_tagged = refl;
  tag_bytes = sha;
  has_tag = refl;
  tag_sized = sha-IsSha;
}

error_of-decode_object_example :
    error_of (decode_object (1 ∷ 2 ∷ [])) ≡ error_of (decode_object_header (1 ∷ 2 ∷ []))
error_of-decode_object_example = error_of-decode_object (1 ∷ 2 ∷ [])

cut_request_drops_example :
    decode_object (object_text (request_header 4) (7 ∷ []))
    ≡ ok (other (record { header = request_header 4; payload = [] })) []
unfolding Request.Payload.text Request.tag_text
cut_request_drops_example =
    cut_request_drops by_tag (7 ∷ []) 7 (replicate 30 7)
      (record {
        header_valid = request_header-IsValid 4 (omega arith);
        is_get_pub_key = refl;
        is_request = inl (refl, sha, refl, sha-IsSha);
      })
      refl
