-- ===== src/Wire/Obj/Broadcast.antt =====
-- wire/obj/broadcast.go: the two kinds of broadcast. A nil tag is `none`.
pub mod Codec
use bmutil.Common.{ℕ, ◌≡◌, refl, [], ◌++◌, none, some, Bytes, Option, if◌then◌else◌, ◌∷◌, ◌==◌}
use bmutil.Error.{invalid_version}
use bmutil.Stream.{ok, err, ◌>>=◌, ◌>>◌, pure, fail, Reader, Writer, read_all, write}
use bmutil.Wire.Element.{sha, read_element, read_elements}
use bmutil.Wire.ObjectHeader.{
  ObjectHeader, new_object_header, object_type_broadcast, decode_object_header,
}
use bmutil.Wire.ObjectHeader
use bmutil.Wire.MsgObject.{MsgObject}
use bmutil.Wire.Obj.GetPubKey.{write_pointer}
use bmutil.Wire.Obj.Versions.{tagless_broadcast_version, tagged_broadcast_version}
use bmutil.Wire.Obj.Payload.{decode_as, payload_of, object_text}

pub record TaglessBroadcast : Type 0 where
  pub header : ObjectHeader
  pub encrypted : Bytes

pub record TaggedBroadcast : Type 0 where
  pub header : ObjectHeader
  pub tag : Option Bytes
  pub encrypted : Bytes

unfoldable pub new_tagless_broadcast : ℕ → ℕ → ℕ → Bytes → TaglessBroadcast
new_tagless_broadcast nonce expiration stream_number encrypted = record {
  header =
      new_object_header nonce expiration object_type_broadcast tagless_broadcast_version
        stream_number;
  encrypted = encrypted;
}

unfoldable pub new_tagged_broadcast : ℕ → ℕ → ℕ → Option Bytes → Bytes → TaggedBroadcast
new_tagged_broadcast nonce expiration stream_number tag encrypted = record {
  header =
      new_object_header nonce expiration object_type_broadcast tagged_broadcast_version
        stream_number;
  tag = tag;
  encrypted = encrypted;
}

pub tagless_decode_payload : ObjectHeader → Reader TaglessBroadcast
tagless_decode_payload header = do
  encrypted ← read_all
  pure (record { header = header; encrypted = encrypted })

pub tagged_decode_payload : ObjectHeader → Reader TaggedBroadcast
tagged_decode_payload header = do
  es ← read_elements (sha ∷ [])
  encrypted ← read_all
  pure (record { header = header; tag = some es.0; encrypted = encrypted })

pub tagless_decode : Reader TaglessBroadcast
tagless_decode = decode_as object_type_broadcast tagless_broadcast_version tagless_decode_payload

pub tagged_decode : Reader TaggedBroadcast
tagged_decode = decode_as object_type_broadcast tagged_broadcast_version tagged_decode_payload

unfoldable pub tagless_encode_payload : TaglessBroadcast → Writer
tagless_encode_payload msg = write msg.encrypted

unfoldable pub tagged_encode_payload : TaggedBroadcast → Writer
tagged_encode_payload msg = do write_pointer sha msg.tag; write msg.encrypted

unfoldable pub tagless_encode : TaglessBroadcast → Writer
tagless_encode msg = do ObjectHeader.encode msg.header; tagless_encode_payload msg

unfoldable pub tagged_encode : TaggedBroadcast → Writer
tagged_encode msg = do ObjectHeader.encode msg.header; tagged_encode_payload msg

unfoldable pub tagless_encode_for_signing : TaglessBroadcast → Writer
tagless_encode_for_signing msg = ObjectHeader.encode_for_signing msg.header

unfoldable pub tagged_encode_for_signing : TaggedBroadcast → Writer
tagged_encode_for_signing msg = do
  ObjectHeader.encode_for_signing msg.header
  write_pointer sha msg.tag

unfoldable pub tagless_payload : TaglessBroadcast → Bytes
unfolding tagless_encode_payload
tagless_payload msg = payload_of (tagless_encode_payload msg)

unfoldable pub tagged_payload : TaggedBroadcast → Bytes
unfolding tagged_encode_payload
tagged_payload msg = payload_of (tagged_encode_payload msg)

unfoldable pub tagless_msg_object : TaglessBroadcast → MsgObject
unfolding tagless_payload
tagless_msg_object msg = record { header = msg.header; payload = tagless_payload msg }

unfoldable pub tagged_msg_object : TaggedBroadcast → MsgObject
unfolding tagged_payload
tagged_msg_object msg = record { header = msg.header; payload = tagged_payload msg }

-- The interface `Broadcast`
pub data Broadcast : Type 0 where
  tagless : TaglessBroadcast → Broadcast
  tagged : TaggedBroadcast → Broadcast

-- `DecodeBroadcast`, which reads the version and not the type of the object
pub decode_broadcast : Reader Broadcast
decode_broadcast = do
  header ← decode_object_header
  if header.version == tagged_broadcast_version
      then (do b ← tagged_decode_payload header; pure (tagged b))
      else if header.version == tagless_broadcast_version
      then (do b ← tagless_decode_payload header; pure (tagless b))
      else fail invalid_version
