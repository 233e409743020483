-- ===== src/Cipher/PubKey/Received.antt =====
-- `TryDecryptAndVerifyPubKey` of cipher/objects.go. For an object of the type `MsgObject` it drops the
-- errors of the three `Decode` methods, and goes on with what they have set.
use bmutil.Common.{
  ℕ, ◌≡◌, refl, Bytes, some, not, if◌then◌else◌, [], ◌==◌, ==_iff, ltb, copy_zeroed, true, ◌++◌,
}
use bmutil.Error.{Result, returned, failed, nil_pointer, invalid_object_type, invalid_version}
use bmutil.Error.Results.{◌>>=◌}
use bmutil.Crypto.{Library}
use bmutil.Stream
use bmutil.Stream.{Outcome, ok, err, state, written, buffer, Reader, pure}
use bmutil.Types.{read_var_int}
use bmutil.Address.{Address}
use bmutil.Wire.ObjectHeader
use bmutil.Wire.ObjectHeader.{ObjectHeader, decode_object_header, object_type_pub_key}
use bmutil.Wire.MsgObject.{MsgObject}
use bmutil.Wire.MsgObject
use bmutil.Wire.Obj.Versions.{signature_max_length}
use bmutil.Wire.Obj.PubKeyData.{PubKeyData, no_data}
use bmutil.Wire.Obj.PubKeyData
use bmutil.Wire.Obj.SimplePubKey.{SimplePubKey}
use bmutil.Wire.Obj.SimplePubKey
use bmutil.Wire.Obj.ExtendedPubKey.{ExtendedPubKey, data_left}
use bmutil.Wire.Obj.ExtendedPubKey
use bmutil.Wire.Obj.EncryptedPubKey.{EncryptedPubKey}
use bmutil.Wire.Obj.EncryptedPubKey
use bmutil.Wire.Obj.Dispatch.{Object}
use bmutil.Wire.Obj.Dispatch as Dispatch
use bmutil.Cipher.PubKey.{PubKeyObject, simple, extended, decrypted}
use bmutil.Cipher.PubKey.Check.{checked_extended_pub_key, decrypt_and_verify}
use bmutil.Wire.Obj.Payload.{payload_of-Emits}
use bmutil.Stream.Parses.{Parses}

-- What a method `Decode` leaves behind: its key, or what it has set of the key by the place of its
-- error. Without a header it has set nothing, which does not happen to an object that was encoded.
abbrev pub kept {ℓ} :
    {A : Type ℓ}
    → (ObjectHeader → Bytes → A)
    → Outcome Bytes ObjectHeader
    → Outcome Bytes A
    → Result A
kept left h (ok p rest) = returned p
kept left (ok h payload) (err e rest) = returned (left h payload)
kept left (err e' rest') (err e rest) = failed nil_pointer

-- the key data that was there for a simple key
unfoldable pub simple_left : ObjectHeader → Bytes → SimplePubKey
simple_left h payload = record { header = h; key_data = data_left payload }

-- the bytes that were there for a signature
abbrev pub sig_bytes : Outcome Bytes ℕ → Bytes
sig_bytes (err e rest) = []
sig_bytes (ok sig_length rest) =
    if ltb signature_max_length sig_length then [] else copy_zeroed sig_length rest

abbrev pub signed_left : ObjectHeader → Bytes → Outcome Bytes PubKeyData → ExtendedPubKey
signed_left h payload (ok pk rest) = record {
  header = h;
  key_data = pk;
  signature = sig_bytes (read_var_int rest);
}
signed_left h payload (err e rest) = record {
  header = h;
  key_data = data_left payload;
  signature = [];
}

unfoldable pub extended_left : ObjectHeader → Bytes → ExtendedPubKey
extended_left h payload = signed_left h payload (PubKeyData.decode no_data payload)

-- the bytes that were there for a tag
unfoldable pub encrypted_left : ObjectHeader → Bytes → EncryptedPubKey
encrypted_left h payload = record {
  header = h;
  tag = some (copy_zeroed 32 payload);
  encrypted = [];
}

-- the methods `Header`
unfoldable pub header_of : Object → ObjectHeader
header_of (Dispatch.get_pub_key o) = o.header
header_of (Dispatch.simple o) = o.header
header_of (Dispatch.extended o) = o.header
header_of (Dispatch.encrypted_key o) = o.header
header_of (Dispatch.message o) = o.header
header_of (Dispatch.tagged o) = o.header
header_of (Dispatch.tagless o) = o.header
header_of (Dispatch.other o) = o.header

module _ (L : Library) (out_of_range : ℕ) (address : Address) where
  abbrev as_extended : Result ExtendedPubKey → Result PubKeyObject
  as_extended r = r >>= λ p. returned (extended p)

  -- `newDecryptedPubKey`
  abbrev as_decrypted : EncryptedPubKey → Result PubKeyObject
  as_decrypted p = decrypt_and_verify L out_of_range p address >>= λ dp. returned (decrypted dp)

  -- the cases of the `switch` on the version
  unfoldable pub from_bytes : ℕ → Bytes → Result PubKeyObject
  unfolding simple_left extended_left encrypted_left
  from_bytes version buf =
      let h = decode_object_header buf in
      if version == 2
      then (do spk ← kept simple_left h (SimplePubKey.decode buf); returned (simple spk))
      else if version == 3
      then (do
        epk ← kept extended_left h (ExtendedPubKey.decode buf)
        as_extended (checked_extended_pub_key L epk))
      else if version == 4
      then (do dpk ← kept encrypted_left h (EncryptedPubKey.decode buf); as_decrypted dpk)
      else failed invalid_version

  -- the `switch` on the type
  unfoldable pub by_type : Object → Result PubKeyObject
  unfolding from_bytes
  by_type (Dispatch.other pk) =
      from_bytes pk.header.version (written (state (MsgObject.encode pk (buffer []))))
  by_type (Dispatch.simple pk) = returned (simple pk)
  by_type (Dispatch.extended pk) = as_extended (checked_extended_pub_key L pk)
  by_type (Dispatch.encrypted_key pk) = as_decrypted pk
  by_type _ = failed invalid_version

  unfoldable pub try_decrypt_and_verify_pub_key : Object → Result PubKeyObject
  unfolding by_type header_of
  try_decrypt_and_verify_pub_key msg =
      if not ((header_of msg).object_type == object_type_pub_key)
      then failed invalid_object_type
      else by_type msg

  simple_kept :
      (h : ObjectHeader) (payload : Bytes) (o : Outcome Bytes PubKeyData)
      → (p : SimplePubKey) × (kept simple_left
            (ok h payload)
            (Stream.and_then o (λ pk. pure (record { header = h; key_data = pk })))
          ≡ returned p)
        × (p.header ≡ h)
  unfolding simple_left
  simple_kept h payload (ok pk rest) = (record { header = h; key_data = pk }, refl, refl)
  simple_kept h payload (err e rest) =
      (record { header = h; key_data = data_left payload }, refl, refl)

  -- Of an object with the type of a public key and the version 2 `TryDecryptAndVerifyPubKey` returns a
  -- simple key with its header, and no error, whatever its payload is.
  pub simple_accepted :
      (m : MsgObject)
      → ObjectHeader.IsValid m.header
      → m.header.object_type ≡ object_type_pub_key
      → m.header.version ≡ 2
      → (p : SimplePubKey) × (try_decrypt_and_verify_pub_key (Dispatch.other m)
          ≡ returned (simple p))
        × (p.header ≡ m.header)
  unfolding try_decrypt_and_verify_pub_key by_type from_bytes header_of SimplePubKey.decode
      SimplePubKey.decode_payload MsgObject.text
  simple_accepted m valid is_key is_simple =
      let K = simple_kept m.header m.payload (PubKeyData.decode_simple no_data m.payload) in
      let text = payload_of-Emits (MsgObject.encode m) (MsgObject.Emits-encode m) in
      let header_read : decode_object_header (ObjectHeader.text m.header ++ m.payload)
          ≡ ok m.header m.payload =
        Parses.whole (ObjectHeader.Parses-decode m.header valid) m.payload in
      let is_type : (m.header.object_type == object_type_pub_key) ≡ true = (==_iff _ _).1 is_key in
      let is_version : (m.header.version == 2) ≡ true = (==_iff _ _).1 is_simple in
      (K.0, rw (is_type, is_version, text, header_read, is_type, is_version) (rw K.1 refl), K.2)
