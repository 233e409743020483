-- ===== src/Cipher/Message/Codec.antt =====
-- The texts of a message that are signed and encrypted.
use bmutil.Common.{ℕ, ◌≡◌, ◌≤◌, refl, ◌++◌, Bytes, some, length, arith}
use bmutil.Error.{ack_too_long, signature_too_long}
use bmutil.Crypto.{Library, IsLawful}
use bmutil.Stream.Emits.{Emits, Emits-bind, Emits-write}
use bmutil.Stream.Parses.{Parses, Parses-bind, Parses-map}
use bmutil.Types.VarInt.{var_int, Emits-var_int, Parses-var_int}
use bmutil.Types.VarBytes.{Parses-limited}
use bmutil.Wire.Element.{ripe}
use bmutil.Wire.Element.RoundTrip.{InRange}
use bmutil.Wire.MsgObject.{max_payload_of_msg_object}
use bmutil.Wire.ObjectHeader
use bmutil.Wire.Obj.Versions.{signature_max_length}
use bmutil.Cipher.Bitmessage.{
  Bitmessage, message_text, received, Emits-message, Parses-message, text_again, received-again,
}
use bmutil.Cipher.Bitmessage
use bmutil.Cipher.Message.{
  Message, encode_for_signing, encode_for_encryption, decode_from_decrypted,
}
use bmutil.Stream.{Writer, write, ◌>>◌}
use bmutil.Types.{write_var_int}

-- What is written of some bytes, behind what else is written
Emits-bytes :
    (b : Bytes) {rest : Bytes} {w : Writer}
    → Emits w rest
    → Emits (do write_var_int (length b); write b; w) (var_int (length b) ++ (b ++ rest))
Emits-bytes b {w = w} e = Emits-bind _ (Emits-var_int (length b)) (Emits-bind w (Emits-write b) e)

module _ (L : Library) where
  -- Everything that is written can be read back.
  pub record IsValid (m : Message L) : Type 0 where
    pub bm_valid : Bitmessage.IsValid L m.bm
    pub destination : Bytes
    pub has_destination : m.bm.destination ≡ some destination
    pub destination_sized : InRange ripe destination
    pub ack_short : length m.ack ≤ max_payload_of_msg_object
    pub sig_short : length m.sig ≤ signature_max_length

  abbrev pub signing_text : Message L → Bytes → Bytes
  signing_text m destination =
      ObjectHeader.signing_text m.msg.header
      ++ (message_text L m.bm destination ++ (var_int (length m.ack) ++ m.ack))

  abbrev pub encryption_text : Message L → Bytes → Bytes
  encryption_text m destination =
      message_text L m.bm destination
      ++ (var_int (length m.ack) ++ (m.ack ++ (var_int (length m.sig) ++ m.sig)))

  module _ (m : Message L) (destination : Bytes) (valid : Bitmessage.IsValid L m.bm)
      (e : m.bm.destination ≡ some destination) where
    pub Emits-signing : Emits (encode_for_signing L m) (signing_text m destination)
    unfolding encode_for_signing
    Emits-signing = Emits-bind _ (ObjectHeader.Emits-signing m.msg.header) (
        Emits-bind _ (Emits-message L m.bm destination valid e)
          (Emits-bind _ (Emits-var_int (length m.ack)) (Emits-write m.ack)))

    pub Emits-encryption : Emits (encode_for_encryption L m) (encryption_text m destination)
    unfolding encode_for_encryption
    Emits-encryption =
        Emits-bind _ (Emits-message L m.bm destination valid e)
          (Emits-bytes m.ack (Emits-bind _ (Emits-var_int (length m.sig)) (Emits-write m.sig)))

  module _ (lawful : IsLawful L) (o : ℕ) (m : Message L) (v : IsValid m) where
    pub Parses-decrypted :
        Parses
          (decode_from_decrypted L o m.msg)
          (encryption_text m v.destination)
          (record m { bm = received L o m.bm })
    unfolding decode_from_decrypted
    Parses-decrypted =
        Parses-bind _
          (Parses-message L lawful o m.bm v.bm_valid v.destination v.has_destination
            v.destination_sized)
          (Parses-bind _ (Parses-var_int (length m.ack) (omega (arith, v.ack_short))) (
            Parses-bind _ (Parses-limited ack_too_long _ m.ack v.ack_short) (
              Parses-bind _ (Parses-var_int (length m.sig) (omega (arith, v.sig_short))) (
                Parses-map _ (Parses-limited signature_too_long _ m.sig v.sig_short) (λ r. refl)))))

  -- The message that comes back is signed by the same text.
  pub signing_again :
      (o : ℕ) (m : Message L) (v : IsValid m)
      → Emits
          (encode_for_signing L (record m { bm = received L o m.bm }))
          (signing_text m v.destination)
  unfolding received
  signing_again o m v = rw (text_again L o m.bm v.bm_valid) at (
      Emits-signing (record m { bm = received L o m.bm }) v.destination
        (received-again L o m.bm v.bm_valid) v.has_destination)
