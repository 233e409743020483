-- ===== src/Cipher/Message/Accepted.antt =====
-- A message that was signed and encrypted is decrypted and verified by its recipient.
use bmutil.Common.{
  ℕ, ◌≡◌, ◌≤◌, refl, sym, ◌∙◌, Bytes, [], some, length, arith, true, equal, equal_iff,
}
use bmutil.Error.{returned}
use bmutil.Error.Results.{and_then-returned, returned_inj}
use bmutil.Crypto.{Library, IsLawful}
use bmutil.Stream.Run.{text_by, text_by-Emits}
use bmutil.Stream.Parses.{Parses-end}
use bmutil.Types.{IsU64}
use bmutil.Address.{Address, ripe_hash}
use bmutil.Identity.{PublicKey, hash-IsByte}
use bmutil.Identity.PublicId.RoundTrip as PublicText
use bmutil.Identity.PublicId.{key}
use bmutil.Identity.PrivateKey.{PrivateKey, public}
use bmutil.Identity.PublicAddress.{address-Fields}
use bmutil.Identity.PrivateAddress.{public_address}
use bmutil.Identity.PrivateAddress as PrivateAddress
use bmutil.Identity.PrivateId.{PrivateId}
use bmutil.Identity.PrivateId
use bmutil.Wire.Element.{ripe}
use bmutil.Wire.Element.RoundTrip.{InRange}
use bmutil.Wire.MsgObject.{max_payload_of_msg_object}
use bmutil.Wire.Obj.Encrypted.{EncryptedMessage, new_message, encrypted_round_trip}
use bmutil.Wire.Obj.Payload.{payload_of-Emits}
use bmutil.Wire.ObjectHeader.{new_object_header}
use bmutil.Cipher.Bitmessage.{Bitmessage, received}
use bmutil.Cipher.Bitmessage
use bmutil.Cipher.Signing.{
  sign_text, verify_text, encrypt_text, decrypt_text, verify_text-sign_text,
  decrypt_text-encrypt_text,
}
use bmutil.Cipher.Message.{Message, encode_for_signing, encode_for_encryption}
use bmutil.Cipher.Message.Codec.{
  IsValid, signing_text, encryption_text, Emits-signing, Emits-encryption, Parses-decrypted,
  signing_again,
}
use bmutil.Cipher.Message.Check.{
  verify, new_message_of, sign_and_encrypt, sign_and_encrypt_message,
  try_decrypt_and_verify_message, bytes_of, given_destination,
}

module _ (L : Library) (lawful : IsLawful L) (o : ℕ) where
  -- The ripe of an address that an identity has is 20 bytes.
  ripe_sized :
      (private : PrivateId L) (a : Address)
      → PrivateId.address L private ≡ some a
      → InRange ripe (ripe_hash a)
  unfolding PrivateId.address PrivateAddress.address
  ripe_sized private a e =
      let f = address-Fields L (public_address L private.private_address) a e in
      rw f.ripe_is (hash-IsByte L lawful (public L private.private_address.private_key))

  module _ (private : PrivateId L) (a : Address)
      (has_address : PrivateId.address L private ≡ some a) where
    verify_accepts :
        (m : Message L) (v : IsValid L m)
        → v.destination ≡ ripe_hash a
        → verify_text L m.sig (signing_text L m v.destination) (key L m.bm.public).verification
          ≡ returned tt
        → verify L private (record m { bm = received L o m.bm }) ≡ returned tt
    unfolding verify received key PublicText.received
    verify_accepts m v e h =
        let same : equal (ripe_hash a) v.destination ≡ true = (equal_iff _ _).1 (sym e) in
        let text = text_by-Emits _ (signing_again L o m v) in
        let d : bytes_of m.bm.destination ≡ returned v.destination = rw v.has_destination refl in
        rw (has_address, d, same, text) h

    opened :
        (m : Message L) (v : IsValid L m)
        → v.destination ≡ ripe_hash a
        → decrypt_text L private.private_address.private_key.decryption m.msg.encrypted
          ≡ returned (encryption_text L m v.destination)
        → verify_text L m.sig (signing_text L m v.destination) (key L m.bm.public).verification
          ≡ returned tt
        → new_message_of L o m.msg private ≡ returned (record m { bm = received L o m.bm })
    unfolding new_message_of
    opened m v e d h =
        rw (d, Parses-end (Parses-decrypted L lawful o m v), verify_accepts m v e h) refl

  module _ (random : Bytes) (expiration stream : ℕ) (bm : Bitmessage L) (ack : Bytes) where
    abbrev signed_with : Bytes → Bytes → Message L
    signed_with sig encrypted = record {
      msg = new_message 0 expiration stream encrypted;
      bm = bm;
      ack = ack;
      sig = sig;
    }

    made :
        (priv : PrivateKey L) (pub_id : PublicKey L) (m : Message L) (destination : Bytes)
        → Bitmessage.IsValid L bm
        → bm.destination ≡ some destination
        → sign_and_encrypt_message L random expiration stream bm ack priv pub_id ≡ returned m
        → (sig : Bytes) × (encrypted : Bytes) × (signed_with sig encrypted ≡ m)
          × (sign_text L priv.signing (signing_text L (signed_with [] []) destination)
              ≡ returned sig)
          × (encrypt_text L random pub_id.encryption
                (encryption_text L (signed_with sig []) destination)
              ≡ returned encrypted)
    unfolding sign_and_encrypt_message sign_and_encrypt
    made priv pub_id m destination valid has_destination e =
        let d : given_destination bm.destination ≡ returned destination = rw has_destination refl in
        let A = and_then-returned (given_destination bm.destination) _ m e in
        let T = and_then-returned (text_by (encode_for_signing L (signed_with [] []))) _ m A.2 in
        let S = and_then-returned (sign_text L priv.signing T.0) _ m T.2 in
        let P =
          and_then-returned (text_by (encode_for_encryption L (signed_with S.0 []))) _ m S.2 in
        let C = and_then-returned (encrypt_text L random pub_id.encryption P.0) _ m P.2 in
        let text : signing_text L (signed_with [] []) destination ≡ T.0 = returned_inj (
          sym (
            text_by-Emits _ (Emits-signing L (signed_with [] []) destination valid has_destination))
          ∙ T.1) in
        let plain : encryption_text L (signed_with S.0 []) destination ≡ P.0 = returned_inj (
          sym (
            text_by-Emits _
              (Emits-encryption L (signed_with S.0 []) destination valid has_destination))
          ∙ P.1) in
        (S.0, C.0, returned_inj C.2, rw text S.1, rw plain C.1)

    -- What `SignAndEncryptMessage` makes, `TryDecryptAndVerifyMessage` accepts, and returns with the
    -- difficulty of the sender spelt out: if the sender's public identity has the key that signs, and is
    -- valid, with a difficulty from the default on and below 2 ^ 53; the content can be read back, and
    -- the acknowledgement is within its limit; the message is encrypted to the recipient's key, and
    -- its destination is the ripe of the recipient's address; and the expiration and the stream are
    -- uint64. The library is lawful.
    pub message_accepted :
        (start : EncryptedMessage) (priv : PrivateKey L) (recipient : PrivateId L) (a : Address)
        (m : Message L)
        → IsU64 expiration
        → IsU64 stream
        → Bitmessage.IsValid L bm
        → (key L bm.public).verification ≡ L.pub_key priv.signing
        → PrivateId.address L recipient ≡ some a
        → bm.destination ≡ some (ripe_hash a)
        → length ack ≤ max_payload_of_msg_object
        → sign_and_encrypt_message L random expiration stream bm ack priv
            (public L recipient.private_address.private_key)
          ≡ returned m
        → try_decrypt_and_verify_message L o start m.msg recipient
          ≡ returned (record m { bm = received L o m.bm })
    unfolding try_decrypt_and_verify_message public new_message new_object_header
    message_accepted start priv recipient a m exp_fits stream_fits valid signer has_address
          destination ack_short e =
        let M =
          made priv (public L recipient.private_address.private_key) m (ripe_hash a) valid
            destination e in
        let sent = signed_with M.0 M.1 in
        let S =
          verify_text-sign_text L lawful priv.signing
            (signing_text L (signed_with [] []) (ripe_hash a)) M.0 M.3 in
        let D =
          decrypt_text-encrypt_text L lawful random recipient.private_address.private_key.decryption
            (encryption_text L (signed_with M.0 []) (ripe_hash a)) M.1 M.4 in
        let v : IsValid L sent = record {
          bm_valid = valid;
          destination = ripe_hash a;
          has_destination = destination;
          destination_sized = ripe_sized recipient a has_address;
          ack_short = ack_short;
          sig_short = omega (arith, S.1);
        } in
        let R =
          encrypted_round_trip 0 expiration stream M.1 start (omega arith) exp_fits stream_fits in
        let verified : verify_text L M.0 (signing_text L sent (ripe_hash a))
              (key L bm.public).verification
            ≡ returned tt =
          rw signer S.0 in
        let O = opened recipient a has_address sent v refl D verified in
        let T : try_decrypt_and_verify_message L o start sent.msg recipient
            ≡ returned (record sent { bm = received L o bm }) =
          rw (payload_of-Emits _ R.0, R.1) O in
        rw (← M.2) T
