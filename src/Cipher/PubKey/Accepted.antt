-- ===== src/Cipher/PubKey/Accepted.antt =====
-- A public key that was signed and encrypted is decrypted and verified by those who have its address.
use bmutil.Common.{
  ℕ, ◌≡◌, ◌≤◌, refl, sym, ◌∙◌, Bytes, [], some, length, arith, true, equal, equal_iff, copy_zeroed,
  copy_zeroed_all, length-copy_zeroed, ap₂,
}
use bmutil.Error.{returned}
use bmutil.Error.Results.{and_then-returned, returned_inj}
use bmutil.Crypto.{Library, IsLawful}
use bmutil.Stream.Run.{text_by, text_by-Emits}
use bmutil.Stream.Parses.{Parses-end}
use bmutil.Address.{Address}
use bmutil.Address
use bmutil.Wire.Obj.PubKeyData.{PubKeyData, pow_or_default, no_data}
use bmutil.Wire.Obj.PubKeyData
use bmutil.Wire.Obj.EncryptedPubKey.{new_encrypted_pub_key}
use bmutil.Wire.ObjectHeader.{new_object_header}
use bmutil.Identity.{new_public_key-wire}
use bmutil.Identity.PublicId.{PublicId, new_public, new_public_id}
use bmutil.Identity.PublicId
use bmutil.Identity.PublicId.RoundTrip as PublicText
use bmutil.Identity.PublicAddress.{address-Fields, new_public_address-again, new_public_address}
use bmutil.Identity.PrivateKey.{public}
use bmutil.Identity.PrivateAddress.{non_nil, public_address}
use bmutil.Identity.PrivateAddress as PrivateAddress
use bmutil.Identity.PrivateId.{PrivateId, public_id}
use bmutil.Identity.PrivateId
use bmutil.Cipher.Signing.{
  sign_text, verify_text, encrypt_text, decrypt_text, verify_text-sign_text,
  decrypt_text-encrypt_text,
}
use bmutil.Cipher.Broadcast.{v5_key}
use bmutil.Cipher.Broadcast.Check.{text_of}
use bmutil.Cipher.PubKey.{DecryptedPubKey, encode_for_encryption, encode_for_signing}
use bmutil.Cipher.PubKey.Check.{
  sign_and_encrypt, verify_decrypted, decrypt_and_verify, create_decrypted_pub_key,
}
use bmutil.Cipher.PubKey.Codec.{plain_text, Emits-plain, spelt_out, Parses-plain}

module _ (L : Library) (lawful : IsLawful L) where
  module _ (o : ℕ) (priv_id : PrivateId L) (a : Address)
      (has_address : PrivateId.address L priv_id ≡ some a)
      (is_v4 : priv_id.private_address.version ≡ 4) where
    abbrev keys : ℕ → Bytes → Bytes → DecryptedPubKey
    keys expires signature encrypted = record {
      object =
          new_encrypted_pub_key 0 expires (Address.stream a) (some (Address.tag L.sha512 a))
            encrypted;
      key_data = PrivateId.pub_key_data L priv_id;
      signature = signature;
    }

    verified :
        (expires : ℕ) (signature encrypted text : Bytes)
        → text_by (encode_for_signing (keys expires [] [])) ≡ returned text
        → verify_text L signature text (L.pub_key priv_id.private_address.private_key.signing)
          ≡ returned tt
        → verify_decrypted L o a (spelt_out (keys expires signature encrypted)) ≡ returned tt
    unfolding verify_decrypted new_public encode_for_signing spelt_out PubKeyData.encode
        PubKeyData.encode_simple pow_or_default new_encrypted_pub_key PrivateId.pub_key_data
        PublicId.pub_key_data PublicId.key public_id public_address public PrivateId.address
        PrivateAddress.address PublicId.address new_public_id new_object_header
    verified expires signature encrypted text t v =
        let pa = public_address L priv_id.private_address in
        let f = address-Fields L pa a has_address in
        let k = new_public_key-wire L lawful (public L priv_id.private_address.private_key) in
        let n = new_public_address-again L pa a has_address in
        let s : Address.stream a ≡ priv_id.private_address.stream = f.stream_is in
        let n' : new_public_address L (public L priv_id.private_address.private_key) 4
              (Address.stream a)
            ≡ returned pa =
          ap₂ (λ w z. new_public_address L (public L priv_id.private_address.private_key) w z)
            (sym is_v4) s
          ∙ n in
        let equal_text : equal (text_of L a) (text_of L a) ≡ true = (equal_iff _ _).1 refl in
        rw (k, n', has_address, equal_text, t) v

    opened :
        (expires : ℕ) (signature encrypted text : Bytes)
        → PublicText.IsValid L (public_id L priv_id)
        → length signature ≤ 72
        → text_by (encode_for_signing (keys expires [] [])) ≡ returned text
        → verify_text L signature text (L.pub_key priv_id.private_address.private_key.signing)
          ≡ returned tt
        → decrypt_text L (v5_key L a) encrypted
          ≡ returned (plain_text (keys expires signature encrypted))
        → decrypt_and_verify L o (keys expires signature encrypted).object a
          ≡ returned (spelt_out (keys expires signature encrypted))
    unfolding decrypt_and_verify new_encrypted_pub_key PrivateId.pub_key_data
    opened expires signature encrypted text valid short t v d =
        let tag = Address.tag L.sha512 a in
        let matches : equal tag tag ≡ true = (equal_iff _ _).1 refl in
        let data_valid = PublicText.data-IsValid L lawful o (public_id L priv_id) valid in
        let P = Parses-plain (keys expires signature encrypted) data_valid (omega (arith, short)) in
        rw (matches, d, Parses-end P, verified expires signature encrypted text t v) refl

    moved_key :
        (q p : DecryptedPubKey)
        → q ≡ p
        → decrypt_and_verify L o q.object a ≡ returned (spelt_out q)
        → decrypt_and_verify L o p.object a ≡ returned (spelt_out p)
    moved_key q p e h = rw e at h

    -- The tag is 32 bytes, so that its copy is the tag.
    pub copied : copy_zeroed 32 (Address.tag L.sha512 a) ≡ Address.tag L.sha512 a
    unfolding Address.tag
    copied = copy_zeroed_all 32 _ (length-copy_zeroed 32 _)

    -- An encrypted key that `createDecryptedPubKey` makes for an address of version 4 is decrypted and
    -- verified by those who have the address, with its difficulty spelt out: if the fields of the
    -- identity are in range. The library is lawful.
    pub decrypted_accepted :
        (random : Bytes) (expires : ℕ) (dp : DecryptedPubKey)
        → PublicText.IsValid L (public_id L priv_id)
        → create_decrypted_pub_key L random expires priv_id ≡ returned dp
        → decrypt_and_verify L o dp.object a ≡ returned (spelt_out dp)
    unfolding create_decrypted_pub_key sign_and_encrypt new_encrypted_pub_key
    decrypted_accepted random expires dp valid e =
        let signing = priv_id.private_address.private_key.signing in
        let e' = rw (has_address, copied) at e in
        let start = keys expires [] [] in
        let T = and_then-returned (text_by (encode_for_signing start)) _ dp e' in
        let S = and_then-returned (sign_text L signing T.0) _ dp T.2 in
        let P =
          and_then-returned (text_by (encode_for_encryption (keys expires S.0 []))) _ dp S.2 in
        let C = and_then-returned (encrypt_text L random (L.pub_key (v5_key L a)) P.0) _ dp P.2 in
        let V = verify_text-sign_text L lawful signing T.0 S.0 S.1 in
        let D = decrypt_text-encrypt_text L lawful random (v5_key L a) P.0 C.0 C.1 in
        let plain : P.0 ≡ plain_text (keys expires S.0 []) =
          returned_inj (sym P.1 ∙ text_by-Emits _ (Emits-plain (keys expires S.0 []))) in
        moved_key (keys expires S.0 C.0) dp (returned_inj C.2)
          (opened expires S.0 C.0 T.0 valid V.1 T.1 V.0 (rw plain at D))
