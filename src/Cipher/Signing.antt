-- ===== src/Cipher/Signing.antt =====
-- What the objects of cipher share: a text is signed by its SHA-256 hash, and verified by that or by its
-- SHA-1 hash; and the errors of the decryption.
use bmutil.Common.{◌≡◌, refl, Bytes, Bool, true, false, if◌then◌else◌, ◌⊎◌, inl, inr, length, ◌≤◌}
use bmutil.Error.{
  Error, Result, returned, failed, invalid_signature, invalid_identity, invalid_mac, signing_failed,
  encryption_failed,
}
use bmutil.Crypto.{Library, IsLawful}

-- `ErrInvalidMAC` is the wrong key.
unfoldable pub as_identity : Error → Error
as_identity invalid_mac = invalid_identity
as_identity e = e

module _ (L : Library) where
  abbrev serialized : Result L.Signature → Result Bytes
  serialized (returned s) = returned (L.serialize s)
  serialized (failed e) = failed signing_failed

  unfoldable pub sign_text : L.PrivKey → Bytes → Result Bytes
  sign_text key text = serialized (L.sign key (L.sha256 text))

  unfoldable pub verify_parsed : Bytes → L.PubKey → Result L.Signature → Result (Unit {0})
  verify_parsed text key (failed e) = failed invalid_signature
  verify_parsed text key (returned sig) =
      if L.verify sig (L.sha256 text) key
      then returned tt
      else if L.verify sig (L.sha1 text) key
      then returned tt
      else failed invalid_signature

  unfoldable pub verify_text : Bytes → Bytes → L.PubKey → Result (Unit {0})
  unfolding verify_parsed
  verify_text signature text key = verify_parsed text key (L.parse_signature signature)

  abbrev encrypted_or : Result Bytes → Result Bytes
  encrypted_or (returned c) = returned c
  encrypted_or (failed e) = failed encryption_failed

  -- `btcec.Encrypt`, with the error that is made of its error
  unfoldable pub encrypt_text : Bytes → L.PubKey → Bytes → Result Bytes
  encrypt_text random key plain = encrypted_or (L.encrypt random key plain)

  abbrev decrypted_or : Result Bytes → Result Bytes
  decrypted_or (returned plain) = returned plain
  decrypted_or (failed e) = failed (as_identity e)

  unfoldable pub decrypt_text : L.PrivKey → Bytes → Result Bytes
  unfolding as_identity
  decrypt_text key encrypted = decrypted_or (L.decrypt key encrypted)

  -- A signature that is accepted is one that btcec verifies for one of the two hashes.
  abbrev pub IsSigned : Bytes → Bytes → L.PubKey → Type 0
  IsSigned signature text key =
      (s : L.Signature) × (L.parse_signature signature ≡ returned s)
      × ((L.verify s (L.sha256 text) key ≡ true) ⊎ (L.verify s (L.sha1 text) key ≡ true))

  abbrev accepted : Bool → Bool → Result (Unit {0})
  accepted c d = if c then returned tt else if d then returned tt else failed invalid_signature

  verified : (c d : Bool) → accepted c d ≡ returned tt → (c ≡ true) ⊎ (d ≡ true)
  verified true d e = inl refl
  verified false true e = inr refl
  verified false false e = absurd (cc)

  parsed-IsSigned :
      (signature text : Bytes) (key : L.PubKey) (r : Result L.Signature)
      → L.parse_signature signature ≡ r
      → verify_parsed text key r ≡ returned tt
      → IsSigned signature text key
  unfolding verify_parsed
  parsed-IsSigned signature text key (failed e') p e = absurd (cc)
  parsed-IsSigned signature text key (returned s) p e =
      (s, p, verified (L.verify s (L.sha256 text) key) (L.verify s (L.sha1 text) key) e)

  pub verify_text-IsSigned :
      (signature text : Bytes) (key : L.PubKey)
      → verify_text signature text key ≡ returned tt
      → IsSigned signature text key
  unfolding verify_text
  verify_text-IsSigned signature text key e =
      parsed-IsSigned signature text key (L.parse_signature signature) refl e

  module _ (lawful : IsLawful L) where
    verify_signed :
        (key : L.PrivKey) (text signature : Bytes) (r : Result L.Signature)
        → L.sign key (L.sha256 text) ≡ r
        → serialized r ≡ returned signature
        → (verify_text signature text (L.pub_key key) ≡ returned tt) × (length signature ≤ 72)
    unfolding verify_text verify_parsed
    verify_signed key text signature (failed e') p e = absurd (cc)
    verify_signed key text signature (returned s) p e =
        let same : L.serialize s ≡ signature = cc in
        rw (← same) (
          rw
              (
                lawful.parse_signed key (L.sha256 text) s p,
                lawful.verify_sign key (L.sha256 text) s p,
              )
              refl,
          lawful.serialize_short key (L.sha256 text) s p,
        )

    -- What was signed is verified, and the signature is short.
    pub verify_text-sign_text :
        (key : L.PrivKey) (text signature : Bytes)
        → sign_text key text ≡ returned signature
        → (verify_text signature text (L.pub_key key) ≡ returned tt) × (length signature ≤ 72)
    unfolding sign_text
    verify_text-sign_text key text signature e =
        verify_signed key text signature (L.sign key (L.sha256 text)) refl e

    encrypted_with :
        (r : Result Bytes) (encrypted : Bytes)
        → encrypted_or r ≡ returned encrypted
        → r ≡ returned encrypted
    encrypted_with (returned c) encrypted e = e
    encrypted_with (failed e') encrypted e = absurd (cc)

    pub decrypt_text-encrypt_text :
        (random : Bytes) (key : L.PrivKey) (plain encrypted : Bytes)
        → encrypt_text random (L.pub_key key) plain ≡ returned encrypted
        → decrypt_text key encrypted ≡ returned plain
    unfolding encrypt_text decrypt_text
    decrypt_text-encrypt_text random key plain encrypted e =
        rw
          (lawful.decrypt_encrypt random key plain encrypted
            (encrypted_with (L.encrypt random (L.pub_key key) plain) encrypted e))
          refl
