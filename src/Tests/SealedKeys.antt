-- ===== src/Tests/SealedKeys.antt =====
-- cipher/pubkey.go, over a library of two keys.
use bmutil.Common.{◌≡◌, refl, [], ◌∷◌, ◌++◌, Bytes, some, arith, take}
use bmutil.Error.{returned}
use bmutil.Address.{address_v4}
use bmutil.Wire.ObjectHeader.{ObjectHeader}
use bmutil.Wire.ObjectHeader
use bmutil.Wire.MsgObject.{MsgObject}
use bmutil.Wire.Obj.SimplePubKey.{SimplePubKey}
use bmutil.Wire.Obj.ExtendedPubKey.{ExtendedPubKey, new_extended_pub_key}
use bmutil.Wire.Obj.ExtendedPubKey as ExtendedPubKey
use bmutil.Wire.Obj.Dispatch.{other}
use bmutil.Identity.PrivateId.{PrivateId, public_id}
use bmutil.Identity.PrivateId as PrivateId
use bmutil.Cipher.Broadcast.{v5_key}
use bmutil.Wire.Obj.PubKeyData as PubKeyData
use bmutil.Cipher.PubKey.{DecryptedPubKey, simple}
use bmutil.Cipher.PubKey.Check.{
  create_extended_pub_key, checked_extended_pub_key, create_decrypted_pub_key, decrypt_and_verify,
  sign_extended_pub_key,
}
use bmutil.Cipher.PubKey as PubKey
use bmutil.Cipher.PubKey.Check as KeyCheck
use bmutil.Types.VarBytes.{var_bytes}
use bmutil.Wire.Obj.EncryptedPubKey.{new_encrypted_pub_key}
use bmutil.Cipher.PubKey.Codec.{Emits-key_signing, Emits-plain, spelt_out}
use bmutil.Cipher.PubKey.Signed.{extended_accepted, ComesBack}
use bmutil.Cipher.PubKey.Accepted.{decrypted_accepted, copied}
use bmutil.Cipher.PubKey.Received.{try_decrypt_and_verify_pub_key, simple_accepted}
use bmutil.Tests.Library.{two_keys, two_keys-IsLawful, mark}
use bmutil.Tests.Keys.{its_ripe}
use bmutil.Wire.Obj.PubKeyData.{pow_or_default}
use bmutil.Cipher.Signing.{sign_text, encrypt_text}
use bmutil.Stream.Run.{text_by-Emits}
use bmutil.Tests.Someone.{someone, someones_own, someone-IsValid, where_from, tag}

abbrev unsigned_key : ExtendedPubKey
unsigned_key = new_extended_pub_key 0 1500000000 1 (PrivateId.pub_key_data two_keys someone) []

abbrev key_signature : Bytes
key_signature =
    1
    ∷ take 32 (
        two_keys.sha256
          (ObjectHeader.signing_text unsigned_key.header ++ PubKeyData.text unsigned_key.key_data))

abbrev signed_key : ExtendedPubKey
signed_key = record unsigned_key { signature = key_signature }

signed_key_made : create_extended_pub_key two_keys 1500000000 someone ≡ returned signed_key
unfolding create_extended_pub_key sign_extended_pub_key sign_text
signed_key_made =
    let signing =
      text_by-Emits (ExtendedPubKey.encode_for_signing unsigned_key)
        (ExtendedPubKey.Emits-key_signing unsigned_key) in
    rw (someones_own, signing) refl

extended_accepted_example : ComesBack two_keys 0 where_from signed_key
extended_accepted_example =
    extended_accepted two_keys two_keys-IsLawful someone 1500000000 0 where_from signed_key
      (omega arith) someone-IsValid signed_key_made

abbrev plain_key : DecryptedPubKey
plain_key = record {
  object = new_encrypted_pub_key 0 1500000000 1 (some tag) [];
  key_data = PrivateId.pub_key_data two_keys someone;
  signature = [];
}

abbrev plain_signature : Bytes
plain_signature =
    1
    ∷ take 32 (
        two_keys.sha256 (
          ObjectHeader.signing_text plain_key.object.header
          ++ (tag ++ PubKeyData.text plain_key.key_data)))

abbrev sealed_key : DecryptedPubKey
sealed_key = record {
  object = new_encrypted_pub_key 0 1500000000 1 (some tag) (
      mark (v5_key two_keys where_from)
      ∷ (PubKeyData.text plain_key.key_data ++ var_bytes plain_signature));
  key_data = plain_key.key_data;
  signature = plain_signature;
}

sealed_key_made : create_decrypted_pub_key two_keys [] 1500000000 someone ≡ returned sealed_key
unfolding create_decrypted_pub_key KeyCheck.sign_and_encrypt sign_text encrypt_text
    new_encrypted_pub_key
sealed_key_made =
    let signing =
      text_by-Emits (PubKey.encode_for_signing plain_key) (Emits-key_signing plain_key tag refl) in
    let plain = text_by-Emits _ (Emits-plain (record plain_key { signature = plain_signature })) in
    rw
      (
        someones_own,
        copied two_keys two_keys-IsLawful 0 someone where_from someones_own refl,
        signing,
        plain,
      )
      refl

decrypted_accepted_example :
    decrypt_and_verify two_keys 0 sealed_key.object where_from ≡ returned (spelt_out sealed_key)
decrypted_accepted_example =
    decrypted_accepted two_keys two_keys-IsLawful 0 someone where_from someones_own refl []
      1500000000 sealed_key someone-IsValid sealed_key_made

abbrev cut_key : MsgObject
cut_key = record {
  header = record {
    nonce = 0;
    expiration = 1500000000;
    object_type = 1;
    version = 2;
    stream_number = 1;
  };
  payload = 0 ∷ 0 ∷ [];
}

simple_accepted_example :
    (p : SimplePubKey) × (try_decrypt_and_verify_pub_key two_keys 0
        (address_v4 1 its_ripe)
        (other cut_key)
      ≡ returned (simple p))
    × (p.header ≡ cut_key.header)
simple_accepted_example =
    simple_accepted two_keys 0 (address_v4 1 its_ripe) cut_key
      (record {
        nonce_fits = omega arith;
        expiration_fits = omega arith;
        object_type_fits = omega arith;
        version_fits = omega arith;
        stream_fits = omega arith;
      })
      refl refl
