-- ===== src/Identity/PrivateAddress/Import.antt =====
-- What `ExportWIF` makes, `ImportWIF` takes.
use bmutil.Common.{◌≡◌, refl, Bytes, some, equal_iff}
use bmutil.Error.{returned}
use bmutil.Types.{IsU64}
use bmutil.Crypto.{Library, IsLawful}
use bmutil.Address.{Address, ripe_hash, to_string, decode_address}
use bmutil.Wif.{encode_wif, decode_wif}
use bmutil.Wif.RoundTrip.{decode_wif-encode_wif}
use bmutil.Identity.{hash-IsByte}
use bmutil.Identity.PrivateKey.{public, export_wif}
use bmutil.Identity.PublicAddress.{address-Fields}
use bmutil.Identity.PrivateAddress.{
  PrivateAddress, public_address, address, export, consistent, import_wif,
}
use bmutil.Identity.PrivateAddress.Readable.{IsReadable, decode_address-to_string}

module _ (L : Library) (lawful : IsLawful L) where
  key_again :
      (k : L.PrivKey)
      → decode_wif L.sha256 L.base58_decode L.priv_key_from_bytes
          (encode_wif L.sha256 L.base58_encode L.d_bytes k)
        ≡ returned k
  key_again k =
      decode_wif-encode_wif L.sha256 lawful.sha256_sized L.priv_key_from_bytes lawful.sha256_bytes
        L.base58_encode L.base58_decode lawful.base58_decode_encode L.d_bytes k (lawful.d_short k)
        (lawful.d_IsByte k) (lawful.from_d_bytes k _)

  consistent_lem :
      (id : PrivateAddress L) (a : Address)
      → address L id ≡ some a
      → consistent L a id ≡ returned id
  unfolding consistent
  consistent_lem id a e = rw (e, (equal_iff (ripe_hash a) (ripe_hash a)).1 refl) refl

  -- The texts that `ExportWIF` makes of a private address are imported as that address, if it has an
  -- address whose stream is a uint64 and whose ripe has null bytes that the text leaves out: from
  -- 1 to 13 for version 4, and one at least for the versions 2 and 3. The library is lawful.
  pub import_wif-export :
      (id : PrivateAddress L) (a : Address)
      → address L id ≡ some a
      → IsU64 id.stream
      → IsReadable a
      → (texts : Bytes × (Bytes × Bytes)) × (export L id ≡ returned texts)
        × (import_wif L texts.0 texts.1.0 texts.1.1 ≡ returned id)
  unfolding export import_wif address export_wif
  import_wif-export id a e fits readable =
      let f = address-Fields L (public_address L id) a e in
      let sized = hash-IsByte L lawful (public L id.private_key) in
      let read : decode_address L.sha512 L.base58_decode (to_string L.sha512 L.base58_encode a)
          ≡ returned a =
        decode_address-to_string L lawful a f.version_known (rw f.stream_is fits)
          (rw f.ripe_is sized.0) (rw f.ripe_is sized.1) readable in
      (
        (to_string L.sha512 L.base58_encode a, export_wif L id.private_key),
        rw e refl,
        rw
            (
              read,
              key_again id.private_key.signing,
              key_again id.private_key.decryption,
              f.version_is,
              f.stream_is,
            )
            (consistent_lem id a e),
      )
