-- ===== src/Cipher/Broadcast.antt =====
-- cipher/broadcast.go: a broadcast object with what is encrypted in it.
pub mod Check
pub mod Codec
pub mod Accepted
pub mod Checked
use bmutil.Common.{ℕ, Bytes, Option, none, some, length}
use bmutil.Error.{Result, returned, failed, nil_pointer, signature_too_long}
use bmutil.Crypto.{Library}
use bmutil.Stream.{◌>>=◌, ◌>>◌, pure, fail, Reader, Writer, write}
use bmutil.Types.{read_var_int, write_var_int, limited}
use bmutil.Wire.Element.{sha}
use bmutil.Wire.ObjectHeader.{new_object_header, object_type_broadcast}
use bmutil.Wire.ObjectHeader
use bmutil.Wire.Obj.GetPubKey.{write_pointer}
use bmutil.Wire.Obj.Versions.{
  signature_max_length, tagless_broadcast_version, tagged_broadcast_version,
}
use bmutil.Wire.Obj.Broadcast as Obj
use bmutil.Wire.Obj.Broadcast.{tagless, tagged}
use bmutil.Address.{Address, v4_broadcast_decryption_key, v5_broadcast_decryption_key}
use bmutil.Cipher.Bitmessage.{Bitmessage, encode_broadcast, decode_broadcast}
use bmutil.Cipher.Signing.{encrypt_text}

-- The two implementations of `incompleteBroadcast`
pub data Incomplete : Type 0 where
  incomplete_tagless : (expiration stream_number : ℕ) → Incomplete
  incomplete_tagged : (expiration stream_number : ℕ) (tag : Option Bytes) → Incomplete

-- their methods `Encode`
unfoldable pub encode_incomplete : Incomplete → Writer
encode_incomplete (incomplete_tagless expiration stream_number) =
    ObjectHeader.encode_for_signing
      (new_object_header 0 expiration object_type_broadcast tagless_broadcast_version stream_number)
encode_incomplete (incomplete_tagged expiration stream_number tag) = do
  ObjectHeader.encode_for_signing
      (new_object_header 0 expiration object_type_broadcast tagged_broadcast_version stream_number)
  write_pointer sha tag

-- what they return of the encrypted text
unfoldable pub complete : Incomplete → Bytes → Obj.Broadcast
complete (incomplete_tagless expiration stream_number) encrypted =
    tagless (Obj.new_tagless_broadcast 0 expiration stream_number encrypted)
complete (incomplete_tagged expiration stream_number tag) encrypted =
    tagged (Obj.new_tagged_broadcast 0 expiration stream_number tag encrypted)

-- the methods `EncodeForSigning` of the objects
unfoldable pub encode_object_for_signing : Obj.Broadcast → Writer
encode_object_for_signing (tagless b) = Obj.tagless_encode_for_signing b
encode_object_for_signing (tagged b) = Obj.tagged_encode_for_signing b

-- the methods `Encrypted` of the objects
abbrev pub encrypted_of : Obj.Broadcast → Bytes
encrypted_of (tagless b) = b.encrypted
encrypted_of (tagged b) = b.encrypted

module _ (L : Library) where
  abbrev pub v4_key : Address → L.PrivKey
  v4_key a = v4_broadcast_decryption_key L.sha512 L.priv_key_from_bytes a

  abbrev pub v5_key : Address → L.PrivKey
  v5_key a = v5_broadcast_decryption_key L.sha512 L.priv_key_from_bytes a

  -- the key that `Encrypt` encrypts to
  unfoldable pub broadcast_key : Incomplete → Address → L.PrivKey
  broadcast_key (incomplete_tagless expiration stream_number) a = v4_key a
  broadcast_key (incomplete_tagged expiration stream_number tag) a = v5_key a

  abbrev completed : Incomplete → Result Bytes → Result Obj.Broadcast
  completed i (returned encrypted) = returned (complete i encrypted)
  completed i (failed e) = failed e

  -- `Encrypt`, with the error that its caller makes of its error
  unfoldable pub encrypt_incomplete : Bytes → Incomplete → Address → Bytes → Result Obj.Broadcast
  unfolding complete broadcast_key
  encrypt_incomplete random i address plain =
      completed i (encrypt_text L random (L.pub_key (broadcast_key i address)) plain)

  unfoldable pub broadcast_encode_for_signing : Incomplete → Bitmessage L → Writer
  unfolding encode_incomplete
  broadcast_encode_for_signing i bm = do encode_incomplete i; encode_broadcast L bm

  -- A broadcast whose object is not made yet has `none` for it.
  pub record Broadcast : Type 0 where
    pub msg : Option Obj.Broadcast
    pub bm : Bitmessage L
    pub sig : Bytes

  -- the method `EncodeForSigning` of an object that may be nil, where the program panics
  abbrev pub object_for_signing : Option Obj.Broadcast → Writer
  object_for_signing none = fail nil_pointer
  object_for_signing (some msg) = encode_object_for_signing msg

  unfoldable pub encode_for_signing : Broadcast → Writer
  encode_for_signing b = do object_for_signing b.msg; encode_broadcast L b.bm

  unfoldable pub encode_for_encryption : Broadcast → Writer
  encode_for_encryption b = do encode_broadcast L b.bm; write_var_int (length b.sig); write b.sig

  -- `decodeFromDecrypted`, into a new broadcast
  unfoldable pub decode_from_decrypted : ℕ → Reader Broadcast
  decode_from_decrypted out_of_range = do
    bm ← decode_broadcast L out_of_range none
    sig_length ← read_var_int
    sig ← limited signature_too_long signature_max_length sig_length
    pure (record { msg = none; bm = bm; sig = sig })
