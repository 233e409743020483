-- ===== src/Wire/Obj/GetPubKey/Payload.antt =====
-- The payload of a request: the tag or the ripe, by the version.
use bmutil.Common.{
  ℕ, ◌≡◌, refl, none, some, Bytes, true, false, ◌==◌, if◌then◌else◌, ◌⊎◌, inl, inr, ◌||◌, ==_iff,
}
use bmutil.Wire.Element.{sha, ripe}
use bmutil.Wire.Element.RoundTrip.{InRange, Emits-element, Parses-element}
use bmutil.Wire.Obj.Versions.{
  tag_get_pub_key_version, simple_pub_key_version, extended_pub_key_version,
}
use bmutil.Wire.Obj.GetPubKey.{
  GetPubKey, decode_payload, encode_payload, tag_text, Parses, write_pointer, Emits, Parses-map,
}

-- A tag of 32 bytes in version 4, and a ripe of 20 bytes in versions 2 and 3
abbrev pub IsRequest : GetPubKey → Type 0
IsRequest msg =
    ((msg.header.version ≡ tag_get_pub_key_version)
      × (t : Bytes) × (msg.tag ≡ some t)
      × InRange sha t)
    ⊎ (((msg.header.version ≡ simple_pub_key_version)
          ⊎ (msg.header.version ≡ extended_pub_key_version))
        × (t : Bytes) × (msg.ripe_hash ≡ some t)
        × InRange ripe t)

unfoldable pub text : GetPubKey → Bytes
text msg =
    if msg.header.version == tag_get_pub_key_version
    then tag_text msg.tag
    else tag_text msg.ripe_hash

-- What the other side sees: the one hash that was sent
unfoldable pub received : GetPubKey → GetPubKey
received msg =
    if msg.header.version == tag_get_pub_key_version
    then record msg { ripe_hash = none }
    else record msg { tag = none }

-- In versions 2 and 3 the ripe is sent.
by_ripe :
    (v : ℕ)
    → (v ≡ simple_pub_key_version) ⊎ (v ≡ extended_pub_key_version)
    → ((v == tag_get_pub_key_version) ≡ false)
      × ((v == simple_pub_key_version || v == extended_pub_key_version) ≡ true)
by_ripe v (inl e) = rw e (refl, refl)
by_ripe v (inr e) = rw e (refl, refl)

pub Emits-payload : (msg : GetPubKey) → IsRequest msg → Emits (encode_payload msg) (text msg)
unfolding encode_payload text write_pointer tag_text
Emits-payload msg (inl (n, t, e, r)) =
    let tagged = (==_iff msg.header.version tag_get_pub_key_version).1 n in
    rw (tagged, e) (Emits-element sha t)
Emits-payload msg (inr (n, t, e, r)) =
    let (untagged, known) = by_ripe msg.header.version n in
    rw (untagged, known, e) (Emits-element ripe t)

pub Parses-payload :
    (msg : GetPubKey)
    → IsRequest msg
    → Parses
        (decode_payload (record { header = msg.header; ripe_hash = none; tag = none }))
        (text msg)
        (received msg)
unfolding decode_payload text received tag_text
Parses-payload msg (inl (n, t, e, r)) =
    let tagged = (==_iff msg.header.version tag_get_pub_key_version).1 n in
    rw (tagged, e) (Parses-map _ (Parses-element sha t r) (λ r. refl))
Parses-payload msg (inr (n, t, e, r)) =
    let (untagged, known) = by_ripe msg.header.version n in
    rw (untagged, known, e) (Parses-map _ (Parses-element ripe t r) (λ r. refl))
