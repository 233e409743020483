-- ===== src/Wire/Obj/GetPubKey.antt =====
-- wire/obj/getpubkey.go: the request for a public key, by the tag of its address from version 4 on,
-- and by the ripe before. A nil pointer is `none`.
pub mod Payload
pub mod New
use bmutil.Common.{
  ◌≡◌, [], ◌++◌, Bytes, Option, none, some, ◌||◌, ◌==◌, if◌then◌else◌, refl, inl, inr, ◌⊎◌,
}
use bmutil.Error.{wrong_object_type, unsupported_version, nil_pointer}
use bmutil.Stream.{◌>>=◌, ◌>>◌, pure, fail, Reader, Writer, buffer, state, written}
use bmutil.Wire.Element.{Kind, Value, sha, ripe, read_element, write_element}
use bmutil.Wire.ObjectHeader.{ObjectHeader, decode_object_header, object_type_get_pub_key}
use bmutil.Wire.MsgObject.{MsgObject}
use bmutil.Wire.Obj.Versions.{
  tag_get_pub_key_version, simple_pub_key_version, extended_pub_key_version,
}
use bmutil.Wire.MsgObject
use bmutil.Wire.ObjectHeader
use bmutil.Wire.Element.RoundTrip.{InRange, Emits-element, Parses-element}
use bmutil.Stream.Emits.{Emits, Emits-bind, Emits-buffer}
use bmutil.Stream.Parses.{Parses, Parses-bind, Parses-map}

pub record GetPubKey : Type 0 where
  pub header : ObjectHeader
  pub ripe_hash : Option Bytes
  pub tag : Option Bytes

pub decode_payload : GetPubKey → Reader GetPubKey
decode_payload msg =
    if msg.header.version == tag_get_pub_key_version
    then (do t ← read_element sha; pure (record msg { tag = some t }))
    else if msg.header.version == simple_pub_key_version
        || msg.header.version == extended_pub_key_version
    then (do h ← read_element ripe; pure (record msg { ripe_hash = some h }))
    else fail unsupported_version

pub decode : GetPubKey → Reader GetPubKey
decode msg = do
  header ← decode_object_header
  if header.object_type == object_type_get_pub_key
      then decode_payload (record msg { header = header })
      else fail wrong_object_type

-- `WriteElement` on a pointer
unfoldable pub write_pointer : (k : Kind) → Option (Value k) → Writer
write_pointer k (some e) = write_element k e
write_pointer k none = fail nil_pointer

unfoldable pub encode_payload : GetPubKey → Writer
encode_payload msg =
    if msg.header.version == tag_get_pub_key_version
    then write_pointer sha msg.tag
    else if msg.header.version == simple_pub_key_version
        || msg.header.version == extended_pub_key_version
    then write_pointer ripe msg.ripe_hash
    else fail unsupported_version

unfoldable pub encode : GetPubKey → Writer
encode msg = do ObjectHeader.encode msg.header; encode_payload msg

-- `Payload`, where the error of `encodePayload` is dropped
unfoldable pub payload : GetPubKey → Bytes
payload msg = written (state (encode_payload msg (buffer [])))

unfoldable pub msg_object : GetPubKey → MsgObject
msg_object msg = record { header = msg.header; payload = payload msg }

-- The text of an array behind a pointer
unfoldable pub tag_text : Option Bytes → Bytes
tag_text (some t) = t
tag_text none = []

pub Emits-pointer :
    (tag : Option Bytes) (t : Bytes) → tag ≡ some t → Emits (write_pointer sha tag) (tag_text tag)
unfolding write_pointer tag_text
Emits-pointer tag t e = rw e (Emits-element sha t)

-- A request by tag, with a valid header of its type and version 4 and a tag of 32 bytes, is
-- written as its header and its tag, and read back with the ripe that the receiver had, whatever
-- follows; each proper prefix gives the end of the input. As an object of no special type it has
-- the same text.
get_pub_key_by_tag :
    (h : ObjectHeader) (t : Bytes) (hash : Option Bytes) (start : GetPubKey)
    → ObjectHeader.IsValid h
    → h.object_type ≡ object_type_get_pub_key
    → h.version ≡ tag_get_pub_key_version
    → InRange sha t
    → Emits
        (encode (record { header = h; ripe_hash = hash; tag = some t }))
        (ObjectHeader.text h ++ t)
      × Parses
          (decode start)
          (ObjectHeader.text h ++ t)
          (record { header = h; ripe_hash = start.ripe_hash; tag = some t })
      × (MsgObject.text (msg_object (record { header = h; ripe_hash = hash; tag = some t }))
          ≡ ObjectHeader.text h ++ t)
unfolding encode decode encode_payload decode_payload write_pointer msg_object payload
    MsgObject.text written
get_pub_key_by_tag h t hash start v k n r = (
  Emits-bind _ (ObjectHeader.Emits-encode h) (rw n (Emits-element sha t)),
  Parses-bind _ (ObjectHeader.Parses-decode h v)
      (rw (k, n) (Parses-map _ (Parses-element sha t r) (λ r. refl))),
  rw (n, Emits-buffer _ t [] (Emits-element sha t)) refl,
)

-- A request by ripe, with a valid header of its type and version 2 or 3 and a ripe of 20 bytes, is
-- written as its header and its ripe, and read back with the tag that the receiver had, whatever
-- follows; each proper prefix gives the end of the input. As an object of no special type it has
-- the same text.
get_pub_key_by_ripe :
    (h : ObjectHeader) (t : Bytes) (old : Option Bytes) (start : GetPubKey)
    → ObjectHeader.IsValid h
    → h.object_type ≡ object_type_get_pub_key
    → (h.version ≡ simple_pub_key_version) ⊎ (h.version ≡ extended_pub_key_version)
    → InRange ripe t
    → Emits
        (encode (record { header = h; ripe_hash = some t; tag = old }))
        (ObjectHeader.text h ++ t)
      × Parses
          (decode start)
          (ObjectHeader.text h ++ t)
          (record { header = h; ripe_hash = some t; tag = start.tag })
      × (MsgObject.text (msg_object (record { header = h; ripe_hash = some t; tag = old }))
          ≡ ObjectHeader.text h ++ t)
unfolding encode decode encode_payload decode_payload write_pointer msg_object payload
    MsgObject.text written
get_pub_key_by_ripe h t old start v k (inl n) r = (
  Emits-bind _ (ObjectHeader.Emits-encode h) (rw n (Emits-element ripe t)),
  Parses-bind _ (ObjectHeader.Parses-decode h v)
      (rw (k, n) (Parses-map _ (Parses-element ripe t r) (λ r. refl))),
  rw (n, Emits-buffer _ t [] (Emits-element ripe t)) refl,
)
get_pub_key_by_ripe h t old start v k (inr n) r = (
  Emits-bind _ (ObjectHeader.Emits-encode h) (rw n (Emits-element ripe t)),
  Parses-bind _ (ObjectHeader.Parses-decode h v)
      (rw (k, n) (Parses-map _ (Parses-element ripe t r) (λ r. refl))),
  rw (n, Emits-buffer _ t [] (Emits-element ripe t)) refl,
)
