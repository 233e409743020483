-- ===== src/Cipher/Message/Checked.antt =====
-- What is known of a message that was accepted.
use bmutil.Common.{
  ℕ, ◌≡◌, refl, Bytes, Bool, true, false, Option, none, some, not, ◌==◌, ==_iff, equal, equal_iff,
  if◌then◌else◌, sym, ap, ◌∙◌,
}
use bmutil.Error.{Error, Result, returned, failed, ack_too_long, signature_too_long}
use bmutil.Error.Results.{and_then-returned, returned_inj}
use bmutil.Crypto.{Library}
use bmutil.Stream.Run.{text_by, read_from, read_from-ok, and_then-ok, ok_inj}
use bmutil.Address.{Address, ripe_hash}
use bmutil.Identity.PublicId.{key}
use bmutil.Identity.PrivateAddress.{non_nil}
use bmutil.Identity.PrivateId.{PrivateId}
use bmutil.Identity.PrivateId
use bmutil.Wire.Obj.Encrypted
use bmutil.Wire.Obj.Encrypted.{EncryptedMessage, message_version, decode-object_text}
use bmutil.Cipher.Signing.{decrypt_text, IsSigned, verify_text-IsSigned}
use bmutil.Cipher.Message.{Message, encode_for_signing, decode_from_decrypted}
use bmutil.Cipher.Message.Check.{verify, new_message_of, try_decrypt_and_verify_message, bytes_of}
use bmutil.Cipher.Bitmessage.{decode_message}
use bmutil.Types.{read_var_int, limited}
use bmutil.Wire.MsgObject.{max_payload_of_msg_object}
use bmutil.Wire.ObjectHeader
use bmutil.Wire.ObjectHeader.{object_type_msg}
use bmutil.Wire.Obj.Payload.{object_text, payload_of-Emits}
use bmutil.Wire.Obj.Versions.{signature_max_length}
use bmutil.Stream.{ok}

-- Of two ways, the one that does not fail was taken.
pub passed {ℓ} :
    {A : Type ℓ} (c : Bool) (e : Error) (r : Result A) (a : A)
    → (if not c then failed e else r) ≡ returned a
    → (c ≡ true) × (r ≡ returned a)
passed true e r a h = (refl, h)
passed false e r a h = absurd (cc)

module _ (L : Library) where
  -- The message is for the recipient, and it was signed by its sender.
  abbrev pub IsAuthentic : PrivateId L → Message L → Type 0
  IsAuthentic recipient m =
      (a : Address) × (PrivateId.address L recipient ≡ some a)
      × (m.bm.destination ≡ some (ripe_hash a))
      × (text : Bytes) × (text_by (encode_for_signing L m) ≡ returned text)
      × IsSigned L m.sig text (key L m.bm.public).verification

  pub an_address : (r : Option Address) (a : Address) → non_nil L r ≡ returned a → r ≡ some a
  an_address none a e = absurd (cc)
  an_address (some b) a e = cc

  some_bytes : (r : Option Bytes) (b : Bytes) → bytes_of r ≡ returned b → r ≡ some b
  some_bytes none b e = absurd (cc)
  some_bytes (some c) b e = cc

  verify-IsAuthentic :
      (recipient : PrivateId L) (m : Message L)
      → verify L recipient m ≡ returned tt
      → IsAuthentic recipient m
  unfolding verify
  verify-IsAuthentic recipient m e =
      let A = and_then-returned (non_nil L (PrivateId.address L recipient)) _ tt e in
      let B = and_then-returned (bytes_of m.bm.destination) _ tt A.2 in
      let C = passed (equal (ripe_hash A.0) B.0) _ _ tt B.2 in
      let T = and_then-returned (text_by (encode_for_signing L m)) _ tt C.1 in
      let same : ripe_hash A.0 ≡ B.0 = (equal_iff (ripe_hash A.0) B.0).0 C.0 in
      (
        A.0,
        an_address (PrivateId.address L recipient) A.0 A.1,
        rw same (some_bytes m.bm.destination B.0 B.1),
        T.0,
        T.1,
        verify_text-IsSigned L m.sig T.0 (key L m.bm.public).verification T.2,
      )

  -- What is decrypted keeps the object that it was in.
  decrypted_object :
      (o : ℕ) (msg : EncryptedMessage) (m : Message L) (dec rest : Bytes)
      → decode_from_decrypted L o msg dec ≡ ok m rest
      → m.msg ≡ msg
  unfolding decode_from_decrypted
  decrypted_object o msg m dec rest e =
      let B = and_then-ok (decode_message L o dec) _ m rest e in
      let N = and_then-ok (read_var_int B.1) _ m rest B.3 in
      let A = and_then-ok (limited ack_too_long max_payload_of_msg_object N.0 N.1) _ m rest N.3 in
      let K = and_then-ok (read_var_int A.1) _ m rest A.3 in
      let S = and_then-ok (limited signature_too_long signature_max_length K.0 K.1) _ m rest K.3 in
      ap (λ x. x.msg) (sym (ok_inj S.3))

  moved :
      (x m : Message L) (recipient : PrivateId L)
      → x ≡ m
      → IsAuthentic recipient x
      → IsAuthentic recipient m
  moved x m recipient e h = rw e at h

  opened-IsAuthentic :
      (o : ℕ) (msg : EncryptedMessage) (recipient : PrivateId L) (m : Message L)
      → new_message_of L o msg recipient ≡ returned m
      → (m.msg ≡ msg) × IsAuthentic recipient m
  unfolding new_message_of
  opened-IsAuthentic o msg recipient m e =
      let key = recipient.private_address.private_key.decryption in
      let D = and_then-returned (decrypt_text L key msg.encrypted) _ m e in
      let P = and_then-returned (read_from (decode_from_decrypted L o msg) D.0) _ m D.2 in
      let C = and_then-returned (verify L recipient P.0) _ m P.2 in
      let R = read_from-ok (decode_from_decrypted L o msg) D.0 P.0 P.1 in
      let same : P.0 ≡ m = returned_inj C.2 in
      (
        ap (λ x. x.msg) (sym same) ∙ decrypted_object o msg P.0 D.0 R.0 R.1,
        moved P.0 m recipient same (verify-IsAuthentic recipient P.0 C.1),
      )

  -- What `TryDecryptAndVerifyMessage` returns for a message with a valid header has that message as its
  -- object, of the type of messages and the version 1, and the ripe of the recipient's address as its
  -- destination; and the key of its sender verifies its signature on the text that
  -- `encodeForSigning` makes of it, by its SHA-256 or its SHA-1 hash.
  pub message_checked :
      (o : ℕ) (start msg : EncryptedMessage) (recipient : PrivateId L) (m : Message L)
      → ObjectHeader.IsValid msg.header
      → try_decrypt_and_verify_message L o start msg recipient ≡ returned m
      → (m.msg ≡ msg)
        × (m.msg.header.object_type ≡ object_type_msg)
        × (m.msg.header.version ≡ message_version)
        × IsAuthentic recipient m
  unfolding try_decrypt_and_verify_message new_message_of
  message_checked o start msg recipient m valid e =
      let V = passed (msg.header.version == message_version) _ _ m e in
      let sent = rw (payload_of-Emits _ (Encrypted.Emits-encode msg)) at V.1 in
      let text = object_text msg.header msg.encrypted in
      let P = and_then-returned (read_from (Encrypted.decode start) text) _ m sent in
      let R = read_from-ok (Encrypted.decode start) text P.0 P.1 in
      let same = decode-object_text start msg P.0 R.0 valid R.1 in
      let O = opened-IsAuthentic o P.0 recipient m P.2 in
      let its_object : m.msg ≡ msg = O.0 ∙ same.1 in
      (
        its_object,
        ap (λ x. x.header.object_type) its_object ∙ same.0,
        ap (λ x. x.header.version) its_object ∙ (==_iff msg.header.version message_version).0 V.0,
        O.1,
      )
