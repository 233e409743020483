-- ===== src/Cipher/Message/Check.antt =====
-- `verify` and `NewMessage` of cipher/message.go, and the two functions for messages of
-- cipher/objects.go.
use bmutil.Common.{ℕ, [], Bytes, Option, none, some, not, ◌==◌, if◌then◌else◌, equal}
use bmutil.Error.{
  Result, returned, failed, nil_pointer, ripes_differ, no_destination, unsupported_op,
}
use bmutil.Error.Results.{◌>>=◌, ◌>>◌}
use bmutil.Crypto.{Library}
use bmutil.Stream.Run.{text_by, read_from}
use bmutil.Stream.{state, written, buffer}
use bmutil.Address.{ripe_hash}
use bmutil.Identity.{PublicKey}
use bmutil.Identity.PublicId.{key}
use bmutil.Identity.PrivateKey.{PrivateKey}
use bmutil.Identity.PrivateAddress.{non_nil}
use bmutil.Identity.PrivateId.{PrivateId}
use bmutil.Identity.PrivateId
use bmutil.Wire.Obj.Encrypted.{EncryptedMessage, new_message, message_version}
use bmutil.Wire.Obj.Encrypted
use bmutil.Cipher.Bitmessage.{Bitmessage}
use bmutil.Cipher.Signing.{sign_text, verify_text, encrypt_text, decrypt_text}
use bmutil.Cipher.Message.{
  Message, encode_for_signing, encode_for_encryption, decode_from_decrypted,
}

-- The bytes behind a pointer that may be nil
abbrev pub bytes_of : Option Bytes → Result Bytes
bytes_of none = failed nil_pointer
bytes_of (some b) = returned b

-- `if bm.Destination == nil`
abbrev pub given_destination : Option Bytes → Result Bytes
given_destination none = failed no_destination
given_destination (some d) = returned d

module _ (L : Library) where
  unfoldable pub verify : PrivateId L → Message L → Result (Unit {0})
  verify private m = do
    a ← non_nil L (PrivateId.address L private)
    destination ← bytes_of m.bm.destination
    if not (equal (ripe_hash a) destination) then failed ripes_differ else (do
      text ← text_by (encode_for_signing L m)
      verify_text L m.sig text (key L m.bm.public).verification)

  -- `NewMessage`
  unfoldable pub new_message_of : ℕ → EncryptedMessage → PrivateId L → Result (Message L)
  unfolding verify
  new_message_of out_of_range msg private = do
    dec ← decrypt_text L private.private_address.private_key.decryption msg.encrypted
    m ← read_from (decode_from_decrypted L out_of_range msg) dec
    verify private m
    returned m

  -- the rest of `SignAndEncryptMessage`, with a destination; `random` is what `Encrypt` reads
  unfoldable pub sign_and_encrypt :
      Bytes → ℕ → ℕ → Bitmessage L → Bytes → PrivateKey L → PublicKey L → Result (Message L)
  sign_and_encrypt random expiration stream bm ack priv pub_id =
      let tmp : Message L = record {
        msg = new_message 0 expiration stream [];
        bm = bm;
        ack = ack;
        sig = [];
      } in
      do
        text ← text_by (encode_for_signing L tmp)
        sig ← sign_text L priv.signing text
        plain ← text_by (encode_for_encryption L (record tmp { sig = sig }))
        encrypted ← encrypt_text L random pub_id.encryption plain
        returned (record {
          msg = new_message 0 expiration stream encrypted;
          bm = bm;
          ack = ack;
          sig = sig;
        })

  unfoldable pub sign_and_encrypt_message :
      Bytes → ℕ → ℕ → Bitmessage L → Bytes → PrivateKey L → PublicKey L → Result (Message L)
  unfolding sign_and_encrypt
  sign_and_encrypt_message random expiration stream bm ack priv pub_id = do
    destination ← given_destination bm.destination
    sign_and_encrypt random expiration stream bm ack priv pub_id

  -- `TryDecryptAndVerifyMessage`, where `start` is the new message that is decoded into
  unfoldable pub try_decrypt_and_verify_message :
      ℕ → EncryptedMessage → EncryptedMessage → PrivateId L → Result (Message L)
  unfolding new_message_of
  try_decrypt_and_verify_message out_of_range start msg priv_id =
      if not (msg.header.version == message_version) then failed unsupported_op else (do
        message ←
            read_from (Encrypted.decode start) (written (state (Encrypted.encode msg (buffer []))))
        new_message_of out_of_range message priv_id)
