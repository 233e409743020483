-- ===== src/Wire/Obj/SimplePubKey.antt =====
-- wire/obj/pubkey.go: `SimplePubKey`, a public key with no difficulty and no signature.
use bmutil.Common.{ℕ, ◌≡◌, refl, none, Bytes}
use bmutil.Stream.{◌>>=◌, ◌>>◌, pure, Reader, Writer}
use bmutil.Wire.ObjectHeader.{ObjectHeader, new_object_header, object_type_pub_key}
use bmutil.Wire.ObjectHeader
use bmutil.Wire.MsgObject.{MsgObject}
use bmutil.Wire.Obj.Versions.{simple_pub_key_version}
use bmutil.Wire.Obj.PubKeyData.{PubKeyData, simple_text, no_data}
use bmutil.Wire.Obj.PubKeyData
use bmutil.Wire.Obj.Payload.{decode_as, payload_of, object_text, Emits-object, Parses-decode_as}
use bmutil.Stream.Emits.{Emits}
use bmutil.Stream.Parses.{Parses, Parses-map}

pub record SimplePubKey : Type 0 where
  pub header : ObjectHeader
  pub key_data : PubKeyData

unfoldable pub new_simple_pub_key : ℕ → ℕ → ℕ → ℕ → Bytes → Bytes → SimplePubKey
new_simple_pub_key nonce expiration stream_number behavior vk ek = record {
  header =
      new_object_header nonce expiration object_type_pub_key simple_pub_key_version stream_number;
  key_data = record { behavior = behavior; verification = vk; encryption = ek; pow = none };
}

unfoldable pub decode_payload : ObjectHeader → Reader SimplePubKey
decode_payload header = do
  pk ← PubKeyData.decode_simple no_data
  pure (record { header = header; key_data = pk })

-- `Decode` sets both fields of its receiver.
unfoldable pub decode : Reader SimplePubKey
decode = decode_as object_type_pub_key simple_pub_key_version decode_payload

unfoldable pub encode_payload : SimplePubKey → Writer
encode_payload p = PubKeyData.encode_simple p.key_data

unfoldable pub encode : SimplePubKey → Writer
encode p = do ObjectHeader.encode p.header; encode_payload p

unfoldable pub payload : SimplePubKey → Bytes
unfolding encode_payload
payload p = payload_of (encode_payload p)

unfoldable pub msg_object : SimplePubKey → MsgObject
unfolding payload
msg_object p = record { header = p.header; payload = payload p }

-- The header is that of such a key, and its data has its fields in range.
pub record IsValid (p : SimplePubKey) : Type 0 where
  pub header_valid : ObjectHeader.IsValid p.header
  pub is_pub_key : p.header.object_type ≡ object_type_pub_key
  pub is_simple : p.header.version ≡ simple_pub_key_version
  pub data_valid : PubKeyData.IsValid p.key_data

-- What the other side sees: a key with no difficulty
unfoldable pub received : SimplePubKey → SimplePubKey
received p = record p { key_data = record p.key_data { pow = none } }

pub Emits-payload : (p : SimplePubKey) → Emits (encode_payload p) (simple_text p.key_data)
unfolding encode_payload
Emits-payload p = PubKeyData.Emits-simple p.key_data

pub Parses-payload :
    (p : SimplePubKey)
    → IsValid p
    → Parses (decode_payload p.header) (simple_text p.key_data) (received p)
unfolding decode_payload received
Parses-payload p v =
    Parses-map _ (PubKeyData.Parses-simple p.key_data no_data v.data_valid) (λ r. refl)

-- A key that is valid is written as its header and its data, and `Decode` reads it back from that
-- whatever follows.
simple_lem :
    (p : SimplePubKey)
    → IsValid p
    → Emits (encode p) (object_text p.header (simple_text p.key_data))
      × Parses decode (object_text p.header (simple_text p.key_data)) (received p)
unfolding encode decode
simple_lem p v = (
  Emits-object p.header _ (Emits-payload p),
  Parses-decode_as object_type_pub_key simple_pub_key_version p.header v.header_valid v.is_pub_key
      v.is_simple decode_payload (Parses-payload p v),
)
