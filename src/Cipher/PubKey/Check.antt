-- ===== src/Cipher/PubKey/Check.antt =====
-- The functions of cipher/pubkey.go that sign, encrypt, decrypt and verify, and the two for public keys
-- of cipher/objects.go. A time that is computed from the clock is an argument, and the keys that
-- are given are not nil.
use bmutil.Common.{ℕ, Bytes, some, not, equal, if◌then◌else◌, [], ◌==◌, copy_zeroed}
use bmutil.Error.{Result, returned, failed, invalid_identity, addresses_differ, unsupported_op}
use bmutil.Error.Results.{◌>>=◌, ◌>>◌}
use bmutil.Crypto.{Library}
use bmutil.Stream.Run.{text_by, read_from}
use bmutil.Address.{Address}
use bmutil.Address
use bmutil.Wire.PubKey.{to_btcec}
use bmutil.Wire.Obj.SimplePubKey.{SimplePubKey, new_simple_pub_key}
use bmutil.Wire.Obj.ExtendedPubKey.{ExtendedPubKey, new_extended_pub_key}
use bmutil.Wire.Obj.ExtendedPubKey as ExtendedPubKey
use bmutil.Wire.Obj.EncryptedPubKey.{EncryptedPubKey, new_encrypted_pub_key}
use bmutil.Identity.{new_public_key}
use bmutil.Identity.PublicId.{PublicId, new_public}
use bmutil.Identity.PublicId
use bmutil.Identity.PrivateKey.{PrivateKey}
use bmutil.Identity.PrivateAddress.{non_nil}
use bmutil.Identity.PrivateId.{PrivateId}
use bmutil.Identity.PrivateId
use bmutil.Cipher.Signing.{sign_text, verify_text, encrypt_text, decrypt_text}
use bmutil.Cipher.Broadcast.{v5_key}
use bmutil.Cipher.Broadcast.Check.{text_of}
use bmutil.Cipher.Message.Check.{bytes_of}
use bmutil.Cipher.PubKey.{
  DecryptedPubKey, encode_for_encryption, decode_from_decrypted, encode_for_signing, PubKeyObject,
  simple, extended, decrypted, header, data_of, behavior, pow_of,
}

module _ (L : Library) where
  unfoldable pub to_identity : ℕ → PubKeyObject → Result (PublicId L)
  unfolding header data_of behavior pow_of
  to_identity out_of_range pubkey = do
    k ← new_public_key L (data_of pubkey).verification (data_of pubkey).encryption
    new_public L out_of_range k (header pubkey).version (header pubkey).stream_number
        (behavior pubkey) (pow_of pubkey)

  unfoldable pub create_simple_pub_key : ℕ → PrivateId L → Result SimplePubKey
  create_simple_pub_key expires priv_id = do
    a ← non_nil L (PrivateId.address L priv_id)
    returned (
        new_simple_pub_key 0 expires (Address.stream a) (PrivateId.pub_key_data L priv_id).behavior
          (PrivateId.pub_key_data L priv_id).verification
          (PrivateId.pub_key_data L priv_id).encryption)

  -- `signExtendedPubKey`, with the key that it leaves
  unfoldable pub sign_extended_pub_key : ExtendedPubKey → PrivateKey L → Result ExtendedPubKey
  sign_extended_pub_key ep private = do
    text ← text_by (ExtendedPubKey.encode_for_signing ep)
    signature ← sign_text L private.signing text
    returned (record ep { signature = signature })

  unfoldable pub verify_extended_pub_key : ExtendedPubKey → Result (Unit {0})
  verify_extended_pub_key ep = do
    sign_key ← to_btcec L.parse_pub_key ep.key_data.verification
    text ← text_by (ExtendedPubKey.encode_for_signing ep)
    verify_text L ep.signature text sign_key

  unfoldable pub create_extended_pub_key : ℕ → PrivateId L → Result ExtendedPubKey
  unfolding sign_extended_pub_key
  create_extended_pub_key expires priv_id = do
    a ← non_nil L (PrivateId.address L priv_id)
    sign_extended_pub_key
        (new_extended_pub_key 0 expires (Address.stream a) (PrivateId.pub_key_data L priv_id) [])
        priv_id.private_address.private_key

  -- `newExtendedPubKey`, where the key that comes with an error is left out
  unfoldable pub checked_extended_pub_key : ExtendedPubKey → Result ExtendedPubKey
  unfolding verify_extended_pub_key
  checked_extended_pub_key pk = do verify_extended_pub_key pk; returned pk

  -- `signAndEncrypt`, with the key that it leaves; `random` is what `Encrypt` reads
  unfoldable pub sign_and_encrypt : Bytes → DecryptedPubKey → PrivateId L → Result DecryptedPubKey
  sign_and_encrypt random dp private = do
    text ← text_by (encode_for_signing dp)
    signature ← sign_text L private.private_address.private_key.signing text
    plain ← text_by (encode_for_encryption (record dp { signature = signature }))
    a ← non_nil L (PrivateId.address L private)
    encrypted ← encrypt_text L random (L.pub_key (v5_key L a)) plain
    returned
        (record dp { object = record dp.object { encrypted = encrypted }; signature = signature })

  -- the part of `decryptAndVerify` after the decryption
  unfoldable pub verify_decrypted : ℕ → Address → DecryptedPubKey → Result (Unit {0})
  verify_decrypted out_of_range address dp = do
    public ← new_public_key L dp.key_data.verification dp.key_data.encryption
    id ←
        new_public L out_of_range public dp.object.header.version dp.object.header.stream_number
          dp.key_data.behavior dp.key_data.pow
    a ← non_nil L (PublicId.address L id)
    if not (equal (text_of L address) (text_of L a)) then failed addresses_differ else (do
      text ← text_by (encode_for_signing dp)
      verify_text L dp.signature text public.verification)

  -- `newDecryptedPubKey`, which is `decryptAndVerify` on a key that has its object; the key that comes
  -- with an error is left out
  unfoldable pub decrypt_and_verify : ℕ → EncryptedPubKey → Address → Result DecryptedPubKey
  unfolding verify_decrypted
  decrypt_and_verify out_of_range msg address = do
    tag ← bytes_of msg.tag
    if not (equal tag (Address.tag L.sha512 address)) then failed invalid_identity else (do
      dec ← decrypt_text L (v5_key L address) msg.encrypted
      dp ← read_from (decode_from_decrypted msg) dec
      verify_decrypted out_of_range address dp
      returned dp)

  unfoldable pub create_decrypted_pub_key : Bytes → ℕ → PrivateId L → Result DecryptedPubKey
  unfolding sign_and_encrypt
  create_decrypted_pub_key random expires priv_id = do
    addr ← non_nil L (PrivateId.address L priv_id)
    sign_and_encrypt random
        (record {
          object =
              new_encrypted_pub_key 0 expires (Address.stream addr)
                (some (copy_zeroed 32 (Address.tag L.sha512 addr))) [];
          key_data = PrivateId.pub_key_data L priv_id;
          signature = [];
        })
        priv_id

  abbrev as_object : {A : Type 0} → (A → PubKeyObject) → Result A → Result PubKeyObject
  as_object f (returned p) = returned (f p)
  as_object f (failed e) = failed e

  -- the `switch` of `GeneratePubKey`
  unfoldable pub by_address_version : Bytes → ℕ → PrivateId L → ℕ → Result PubKeyObject
  unfolding create_simple_pub_key create_extended_pub_key create_decrypted_pub_key
  by_address_version random expires priv_id version =
      if version == 2
      then as_object simple (create_simple_pub_key expires priv_id)
      else if version == 3
      then as_object extended (create_extended_pub_key expires priv_id)
      else if version == 4
      then as_object decrypted (create_decrypted_pub_key random expires priv_id)
      else failed unsupported_op

  unfoldable pub generate_pub_key : Bytes → ℕ → PrivateId L → Result PubKeyObject
  unfolding by_address_version
  generate_pub_key random expires priv_id = do
    a ← non_nil L (PrivateId.address L priv_id)
    by_address_version random expires priv_id (Address.version a)
