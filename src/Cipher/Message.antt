-- ===== src/Cipher/Message.antt =====
-- cipher/message.go: a message object with what is encrypted in it.
pub mod Check
pub mod Codec
pub mod Checked
pub mod Accepted
use bmutil.Common.{ℕ, ◌≡◌, refl, Bytes, Option, length}
use bmutil.Error.{ack_too_long, signature_too_long}
use bmutil.Crypto.{Library}
use bmutil.Stream.{◌>>=◌, ◌>>◌, pure, Reader, Writer, write}
use bmutil.Types.{read_var_int, write_var_int, limited}
use bmutil.Wire.MsgObject.{max_payload_of_msg_object}
use bmutil.Wire.ObjectHeader
use bmutil.Wire.Obj.Encrypted.{EncryptedMessage}
use bmutil.Wire.Obj.Versions.{signature_max_length}
use bmutil.Cipher.Bitmessage.{Bitmessage, encode_message, decode_message}

module _ (L : Library) where
  pub record Message : Type 0 where
    pub msg : EncryptedMessage
    pub bm : Bitmessage L
    pub ack : Bytes
    pub sig : Bytes

  unfoldable pub encode_for_signing : Message → Writer
  encode_for_signing m = do
    ObjectHeader.encode_for_signing m.msg.header
    encode_message L m.bm
    write_var_int (length m.ack)
    write m.ack

  unfoldable pub encode_for_encryption : Message → Writer
  encode_for_encryption m = do
    encode_message L m.bm
    write_var_int (length m.ack)
    write m.ack
    write_var_int (length m.sig)
    write m.sig

  -- `decodeFromDecrypted`, into a message that has its object
  unfoldable pub decode_from_decrypted : ℕ → EncryptedMessage → Reader Message
  decode_from_decrypted out_of_range msg = do
    bm ← decode_message L out_of_range
    ack_length ← read_var_int
    ack ← limited ack_too_long max_payload_of_msg_object ack_length
    sig_length ← read_var_int
    sig ← limited signature_too_long signature_max_length sig_length
    pure (record { msg = msg; bm = bm; ack = ack; sig = sig })
