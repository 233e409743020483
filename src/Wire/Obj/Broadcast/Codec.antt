-- ===== src/Wire/Obj/Broadcast/Codec.antt =====
-- The two kinds of broadcast on each other's output.
use bmutil.Wire.Obj.Broadcast.{
  TaglessBroadcast, TaggedBroadcast, tagless, decode_broadcast, tagless_encode,
  tagless_encode_payload, tagless_broadcast_version, tagged_encode_payload, tagged_decode_payload,
  tagless_decode_payload, tagged_broadcast_version, tagless_decode, tagless_encode_for_signing,
  object_text, tagged_encode, tagged_decode, tagged_encode_for_signing, tagged,
}
use bmutil.Common.{◌≡◌, refl, [], ◌++◌, some, Bytes, ◌∷◌, append-nil, ◌==◌, true, false}
use bmutil.Stream.{ok, read_all}
use bmutil.Wire.Element.{sha}
use bmutil.Wire.ObjectHeader
use bmutil.Wire.ObjectHeader.{object_type_broadcast}
use bmutil.Wire.Element.RoundTrip.{InRange, Parses-elements}
use bmutil.Stream.Parses.{Parses}
use bmutil.Wire.Obj.GetPubKey.{tag_text, Emits-pointer}
use bmutil.Stream.Emits.{Emits, Emits-write, Emits-bind}
use bmutil.Wire.Obj.Payload.{Emits-object, decode_as-text}

-- The header is that of such a broadcast.
pub record IsTagless (msg : TaglessBroadcast) : Type 0 where
  pub header_valid : ObjectHeader.IsValid msg.header
  pub is_broadcast : msg.header.object_type ≡ object_type_broadcast
  pub is_tagless : msg.header.version ≡ tagless_broadcast_version

-- The header is that of such a broadcast, and it has a tag of 32 bytes.
pub record IsTagged (msg : TaggedBroadcast) : Type 0 where
  pub header_valid : ObjectHeader.IsValid msg.header
  pub is_broadcast : msg.header.object_type ≡ object_type_broadcast
  pub is_tagged : msg.header.version ≡ tagged_broadcast_version
  pub tag_bytes : Bytes
  pub has_tag : msg.tag ≡ some tag_bytes
  pub tag_sized : InRange sha tag_bytes

unfoldable pub tagged_text : TaggedBroadcast → Bytes
tagged_text msg = tag_text msg.tag ++ msg.encrypted

pub Emits-tagless : (msg : TaglessBroadcast) → Emits (tagless_encode_payload msg) msg.encrypted
unfolding tagless_encode_payload
Emits-tagless msg = Emits-write msg.encrypted

pub Emits-tagged :
    (msg : TaggedBroadcast) → IsTagged msg → Emits (tagged_encode_payload msg) (tagged_text msg)
unfolding tagged_encode_payload tagged_text
Emits-tagged msg v =
    Emits-bind _ (Emits-pointer msg.tag v.tag_bytes v.has_tag) (Emits-write msg.encrypted)

pub tagless_decode_payload-text :
    (msg : TaglessBroadcast) → tagless_decode_payload msg.header msg.encrypted ≡ ok msg []
unfolding tagless_decode_payload read_all
tagless_decode_payload-text msg = refl

pub tagged_decode_payload-text :
    (msg : TaggedBroadcast) (t : Bytes)
    → msg.tag ≡ some t
    → InRange sha t
    → tagged_decode_payload msg.header (tagged_text msg) ≡ ok msg []
unfolding tagged_decode_payload tagged_text read_all tag_text
tagged_decode_payload-text msg t e r =
    let read =
      rw (append-nil t) at
        (Parses.whole (Parses-elements (sha ∷ []) (t, tt) (r, tt)) msg.encrypted) in
    rw (e, read) refl

-- `DecodeBroadcast` reads back either kind, from the text that `Encode` makes; and it takes an
-- object of any type for a broadcast, if it has one of the two versions.
decode_broadcast_any_type :
    (plain : TaglessBroadcast) (msg : TaggedBroadcast)
    → ObjectHeader.IsValid plain.header
    → plain.header.version ≡ tagless_broadcast_version
    → ObjectHeader.IsValid msg.header
    → msg.header.version ≡ tagged_broadcast_version
    → (t : Bytes) → msg.tag ≡ some t
    → InRange sha t
    → (decode_broadcast (object_text plain.header plain.encrypted) ≡ ok (tagless plain) [])
      × (decode_broadcast (object_text msg.header (tagged_text msg)) ≡ ok (tagged msg) [])
unfolding decode_broadcast
decode_broadcast_any_type plain msg u n v m t e r =
    let not_tagged : (plain.header.version == tagged_broadcast_version) ≡ false = rw n refl in
    let is_tagless : (plain.header.version == tagless_broadcast_version) ≡ true = rw n refl in
    let is_tagged : (msg.header.version == tagged_broadcast_version) ≡ true = rw m refl in
    (
      rw
          (
            Parses.whole (ObjectHeader.Parses-decode plain.header u) plain.encrypted,
            not_tagged,
            is_tagless,
            tagless_decode_payload-text plain,
          )
          refl,
      rw
          (
            Parses.whole (ObjectHeader.Parses-decode msg.header v) (tagged_text msg),
            is_tagged,
            tagged_decode_payload-text msg t e r,
          )
          refl,
    )

-- Valid broadcasts of the two kinds are written as their header and payload, their signed parts are
-- the header without its nonce and the tag, and `Decode` reads them back.
broadcast_lem :
    (plain : TaglessBroadcast) (msg : TaggedBroadcast)
    → IsTagless plain
    → IsTagged msg
    → Emits (tagless_encode plain) (object_text plain.header plain.encrypted)
      × (tagless_decode (object_text plain.header plain.encrypted) ≡ ok plain [])
      × Emits (tagless_encode_for_signing plain) (ObjectHeader.signing_text plain.header)
      × Emits (tagged_encode msg) (object_text msg.header (tagged_text msg))
      × (tagged_decode (object_text msg.header (tagged_text msg)) ≡ ok msg [])
      × Emits
          (tagged_encode_for_signing msg)
          (ObjectHeader.signing_text msg.header ++ tag_text msg.tag)
unfolding tagless_encode tagless_decode tagless_encode_for_signing tagged_encode tagged_decode
    tagged_encode_for_signing
broadcast_lem plain msg u v = (
  Emits-object plain.header _ (Emits-tagless plain),
  decode_as-text object_type_broadcast tagless_broadcast_version plain.header u.header_valid
      u.is_broadcast u.is_tagless tagless_decode_payload (tagless_decode_payload-text plain),
  ObjectHeader.Emits-signing plain.header,
  Emits-object msg.header _ (Emits-tagged msg v),
  decode_as-text object_type_broadcast tagged_broadcast_version msg.header v.header_valid
      v.is_broadcast v.is_tagged tagged_decode_payload
      (tagged_decode_payload-text msg v.tag_bytes v.has_tag v.tag_sized),
  Emits-bind _ (ObjectHeader.Emits-signing msg.header)
      (Emits-pointer msg.tag v.tag_bytes v.has_tag),
)
