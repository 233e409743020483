-- ===== src/Wire/Obj/GetPubKey/New.antt =====
-- `NewGetPubKey` of wire/obj/getpubkey.go: a request for the key of an address.
use bmutil.Common.{
  ℕ, refl, none, some, Bytes, All, IsByte, inl, inr, All-drop, length-copy_zeroed,
  copy_zeroed-IsByte,
}
use bmutil.Stream.Emits.{Emits}
use bmutil.Stream.Parses.{Parses}
use bmutil.Address.{Address, address_v4, depricated_address, version, stream, ripe_hash, tag}
use bmutil.Address.Decoded.{IsValid}
use bmutil.Wire.Element.{sha}
use bmutil.Wire.Element.RoundTrip.{InRange}
use bmutil.Wire.ObjectHeader.{new_object_header, object_type_get_pub_key}
use bmutil.Wire.Obj.GetPubKey.{GetPubKey, encode_payload, decode_payload}
use bmutil.Wire.Obj.GetPubKey.Payload.{IsRequest, text, received, Emits-payload, Parses-payload}

module _ (sha512 : Bytes → Bytes) where
  unfoldable pub new_get_pub_key : ℕ → ℕ → Address → GetPubKey
  new_get_pub_key nonce expiration address = record {
    header =
        new_object_header nonce expiration object_type_get_pub_key (version address)
          (stream address);
    ripe_hash = some (ripe_hash address);
    tag = some (tag sha512 address);
  }

  tag-InRange :
      ((b : Bytes) → All IsByte (sha512 b)) → (address : Address) → InRange sha (tag sha512 address)
  unfolding tag
  tag-InRange bytes address =
      (length-copy_zeroed 32 _, copy_zeroed-IsByte 32 _ (All-drop IsByte 32 _ (bytes _)))

  new_get_pub_key-IsRequest :
      ((b : Bytes) → All IsByte (sha512 b))
      → (nonce expiration : ℕ) (address : Address) → IsValid address
      → IsRequest (new_get_pub_key nonce expiration address)
  unfolding new_get_pub_key new_object_header
  new_get_pub_key-IsRequest bytes nonce expiration (address_v4 s r) v =
      inl (refl, tag sha512 (address_v4 s r), refl, tag-InRange bytes (address_v4 s r))
  new_get_pub_key-IsRequest bytes nonce expiration (depricated_address n s r) v =
      inr (v.version_known, r, refl, (v.ripe_valid.sized, v.ripe_valid.bytes))

  -- A request that `NewGetPubKey` makes for a valid address has a payload that is written and read
  -- back as the one hash that its version sends, whatever follows, where SHA-512 gives bytes.
  requested :
      ((b : Bytes) → All IsByte (sha512 b))
      → (nonce expiration : ℕ) (address : Address) → IsValid address
      → Emits
          (encode_payload (new_get_pub_key nonce expiration address))
          (text (new_get_pub_key nonce expiration address))
        × Parses
            (decode_payload (record {
              header = (new_get_pub_key nonce expiration address).header;
              ripe_hash = none;
              tag = none;
            }))
            (text (new_get_pub_key nonce expiration address))
            (received (new_get_pub_key nonce expiration address))
  requested bytes nonce expiration address v =
      let request = new_get_pub_key-IsRequest bytes nonce expiration address v in
      (Emits-payload _ request, Parses-payload _ request)
