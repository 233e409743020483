-- ===== src/Cipher/Broadcast/Codec.antt =====
-- The texts of a broadcast that are signed and encrypted.
use bmutil.Common.{ℕ, ◌≡◌, ◌≤◌, refl, ◌++◌, Bytes, none, some, length, arith}
use bmutil.Error.{signature_too_long}
use bmutil.Crypto.{Library, IsLawful}
use bmutil.Stream.Emits.{Emits, Emits-bind, Emits-write}
use bmutil.Stream.Parses.{Parses, Parses-bind, Parses-map}
use bmutil.Types.VarInt.{var_int, Emits-var_int, Parses-var_int}
use bmutil.Types.VarBytes.{Parses-limited}
use bmutil.Wire.Element.{sha}
use bmutil.Wire.Element.RoundTrip.{Emits-element}
use bmutil.Wire.ObjectHeader.{new_object_header, object_type_broadcast}
use bmutil.Wire.ObjectHeader
use bmutil.Wire.Obj.GetPubKey.{write_pointer}
use bmutil.Wire.Obj.Versions.{
  signature_max_length, tagless_broadcast_version, tagged_broadcast_version,
}
use bmutil.Wire.Obj.Broadcast as Obj
use bmutil.Wire.Obj.Broadcast.{tagless, tagged}
use bmutil.Cipher.Bitmessage.{
  Bitmessage, broadcast_text, received, Emits-broadcast, Parses-broadcast, text_again,
  received-again,
}
use bmutil.Cipher.Bitmessage
use bmutil.Cipher.Broadcast.{
  Incomplete, incomplete_tagless, incomplete_tagged, encode_incomplete, complete,
  encode_object_for_signing, broadcast_encode_for_signing, Broadcast, encode_for_signing,
  encode_for_encryption, decode_from_decrypted,
}

-- The tag of a tagged broadcast is not nil.
abbrev pub HasTag : Incomplete → Type 0
HasTag (incomplete_tagless expiration stream_number) = Unit
HasTag (incomplete_tagged expiration stream_number none) = ⊥
HasTag (incomplete_tagged expiration stream_number (some tag)) = Unit

-- What of the object is signed
abbrev pub object_text : Incomplete → Bytes
object_text (incomplete_tagless expiration stream_number) =
    ObjectHeader.signing_text
      (new_object_header 0 expiration object_type_broadcast tagless_broadcast_version stream_number)
object_text (incomplete_tagged expiration stream_number none) =
    ObjectHeader.signing_text
      (new_object_header 0 expiration object_type_broadcast tagged_broadcast_version stream_number)
object_text (incomplete_tagged expiration stream_number (some tag)) =
    ObjectHeader.signing_text
      (new_object_header 0 expiration object_type_broadcast tagged_broadcast_version stream_number)
    ++ tag

Emits-incomplete : (i : Incomplete) → HasTag i → Emits (encode_incomplete i) (object_text i)
unfolding encode_incomplete write_pointer
Emits-incomplete (incomplete_tagless e s) h = ObjectHeader.Emits-signing _
Emits-incomplete (incomplete_tagged e s none) h = absurd h
Emits-incomplete (incomplete_tagged e s (some tag)) h =
    Emits-bind _ (ObjectHeader.Emits-signing _) (Emits-element sha tag)

-- The object that is made is signed by the same text.
Emits-complete :
    (i : Incomplete) (encrypted : Bytes)
    → HasTag i
    → Emits (encode_object_for_signing (complete i encrypted)) (object_text i)
unfolding encode_object_for_signing complete Obj.tagless_encode_for_signing
    Obj.tagged_encode_for_signing Obj.new_tagless_broadcast Obj.new_tagged_broadcast write_pointer
Emits-complete (incomplete_tagless e s) c h = ObjectHeader.Emits-signing _
Emits-complete (incomplete_tagged e s none) c h = absurd h
Emits-complete (incomplete_tagged e s (some tag)) c h =
    Emits-bind _ (ObjectHeader.Emits-signing _) (Emits-element sha tag)

module _ (L : Library) (bm : Bitmessage L) (valid : Bitmessage.IsValid L bm) where
  abbrev pub signing_text : Incomplete → Bytes
  signing_text i = object_text i ++ broadcast_text L bm

  abbrev pub encryption_text : Bytes → Bytes
  encryption_text sig = broadcast_text L bm ++ (var_int (length sig) ++ sig)

  pub Emits-signing :
      (i : Incomplete) → HasTag i → Emits (broadcast_encode_for_signing L i bm) (signing_text i)
  unfolding broadcast_encode_for_signing
  Emits-signing i h = Emits-bind _ (Emits-incomplete i h) (Emits-broadcast L bm valid)

  pub Emits-encryption :
      (b : Broadcast L) → b.bm ≡ bm → Emits (encode_for_encryption L b) (encryption_text b.sig)
  unfolding encode_for_encryption
  Emits-encryption b e = rw e (
      Emits-bind _ (Emits-broadcast L bm valid)
        (Emits-bind _ (Emits-var_int (length b.sig)) (Emits-write b.sig)))

  pub Parses-decrypted :
      IsLawful L
      → (o : ℕ) (sig : Bytes) → bm.destination ≡ none
      → length sig ≤ signature_max_length
      → Parses
          (decode_from_decrypted L o)
          (encryption_text sig)
          (record { msg = none; bm = received L o bm; sig = sig })
  unfolding decode_from_decrypted
  Parses-decrypted lawful o sig none_given short =
      Parses-bind _ (Parses-broadcast L lawful o bm valid none_given) (
        Parses-bind _ (Parses-var_int (length sig) (omega (arith, short)))
          (Parses-map _ (Parses-limited signature_too_long _ sig short) (λ r. refl)))

  -- The broadcast that comes back is signed by the same text.
  pub signing_again :
      (o : ℕ) (i : Incomplete) (encrypted sig : Bytes)
      → HasTag i
      → Emits
          (encode_for_signing L
            (record { msg = some (complete i encrypted); bm = received L o bm; sig = sig }))
          (signing_text i)
  unfolding encode_for_signing received
  signing_again o i encrypted sig h = Emits-bind _ (Emits-complete i encrypted h) (
      rw (text_again L o bm valid) at
        (Emits-broadcast L (received L o bm) (received-again L o bm valid)))
