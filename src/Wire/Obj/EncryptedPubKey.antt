-- ===== src/Wire/Obj/EncryptedPubKey.antt =====
-- wire/obj/pubkey.go: `EncryptedPubKey`, a public key that only those can read who know its address.
-- A nil tag is `none`.
use bmutil.Common.{ℕ, ◌≡◌, refl, [], ◌++◌, some, Bytes, Option}
use bmutil.Stream.{ok, ◌>>=◌, ◌>>◌, pure, Reader, Writer, read_all, write}
use bmutil.Wire.Element.{sha, read_element}
use bmutil.Wire.ObjectHeader.{ObjectHeader, new_object_header, object_type_pub_key}
use bmutil.Wire.ObjectHeader
use bmutil.Wire.MsgObject.{MsgObject}
use bmutil.Wire.Obj.GetPubKey.{write_pointer, tag_text, Emits-pointer}
use bmutil.Wire.Obj.Versions.{encrypted_pub_key_version}
use bmutil.Wire.Obj.Payload.{decode_as, payload_of, object_text, Emits-object, decode_as-text}
use bmutil.Wire.Element.RoundTrip.{InRange, Parses-element}
use bmutil.Stream.Emits.{Emits, Emits-bind, Emits-write}
use bmutil.Stream.Parses.{Parses}

pub record EncryptedPubKey : Type 0 where
  pub header : ObjectHeader
  pub tag : Option Bytes
  pub encrypted : Bytes

unfoldable pub new_encrypted_pub_key : ℕ → ℕ → ℕ → Option Bytes → Bytes → EncryptedPubKey
new_encrypted_pub_key nonce expiration stream_number tag encrypted = record {
  header =
      new_object_header nonce expiration object_type_pub_key encrypted_pub_key_version
        stream_number;
  tag = tag;
  encrypted = encrypted;
}

pub decode_payload : ObjectHeader → Reader EncryptedPubKey
decode_payload header = do
  tag ← read_element sha
  encrypted ← read_all
  pure (record { header = header; tag = some tag; encrypted = encrypted })

unfoldable pub decode : Reader EncryptedPubKey
decode = decode_as object_type_pub_key encrypted_pub_key_version decode_payload

unfoldable pub encode_payload : EncryptedPubKey → Writer
encode_payload p = do write_pointer sha p.tag; write p.encrypted

unfoldable pub encode : EncryptedPubKey → Writer
encode p = do ObjectHeader.encode p.header; encode_payload p

unfoldable pub payload : EncryptedPubKey → Bytes
unfolding encode_payload
payload p = payload_of (encode_payload p)

unfoldable pub msg_object : EncryptedPubKey → MsgObject
unfolding payload
msg_object p = record { header = p.header; payload = payload p }

-- The header is that of such a key, and it has a tag of 32 bytes.
pub record IsValid (p : EncryptedPubKey) : Type 0 where
  pub header_valid : ObjectHeader.IsValid p.header
  pub is_pub_key : p.header.object_type ≡ object_type_pub_key
  pub is_encrypted : p.header.version ≡ encrypted_pub_key_version
  pub tag_bytes : Bytes
  pub has_tag : p.tag ≡ some tag_bytes
  pub tag_sized : InRange sha tag_bytes

unfoldable pub text : EncryptedPubKey → Bytes
text p = tag_text p.tag ++ p.encrypted

pub Emits-payload : (p : EncryptedPubKey) → IsValid p → Emits (encode_payload p) (text p)
unfolding encode_payload text
Emits-payload p v =
    Emits-bind _ (Emits-pointer p.tag v.tag_bytes v.has_tag) (Emits-write p.encrypted)

pub decode_payload-text :
    (p : EncryptedPubKey) → IsValid p → decode_payload p.header (text p) ≡ ok p []
unfolding decode_payload text read_all tag_text
decode_payload-text p v =
    rw (v.has_tag, tag_text, Parses.whole (Parses-element sha v.tag_bytes v.tag_sized) p.encrypted)
      refl

pub encrypted_lem :
    (p : EncryptedPubKey)
    → IsValid p
    → Emits (encode p) (object_text p.header (text p))
      × (decode (object_text p.header (text p)) ≡ ok p [])
unfolding encode decode
encrypted_lem p v = (
  Emits-object p.header _ (Emits-payload p v),
  decode_as-text object_type_pub_key encrypted_pub_key_version p.header v.header_valid v.is_pub_key
      v.is_encrypted decode_payload (decode_payload-text p v),
)
