-- ===== src/Cipher/PubKey/Codec.antt =====
-- The texts of an encrypted public key.
use bmutil.Common.{◌≡◌, ◌≤◌, refl, Bytes, some, length, ◌++◌}
use bmutil.Stream.Emits.{Emits, Emits-bind}
use bmutil.Stream.Parses.{Parses, Parses-bind, Parses-map}
use bmutil.Types.VarBytes.{var_bytes}
use bmutil.Wire.Obj.PubKeyData.{PubKeyData, pow_or_default, no_data}
use bmutil.Wire.Obj.PubKeyData
use bmutil.Wire.Obj.ExtendedPubKey.{Parses-signature, Emits-signature}
use bmutil.Stream.{◌>>◌}
use bmutil.Wire.Element.{sha}
use bmutil.Wire.Element.RoundTrip.{Emits-element}
use bmutil.Wire.Obj.GetPubKey.{write_pointer}
use bmutil.Wire.ObjectHeader
use bmutil.Wire.ObjectHeader.{new_object_header}
use bmutil.Cipher.PubKey.{
  DecryptedPubKey, encode_for_encryption, decode_from_decrypted, encode_for_signing,
}

-- What of an encrypted key is signed
pub Emits-key_signing :
    (dp : DecryptedPubKey) (tag : Bytes)
    → dp.object.tag ≡ some tag
    → Emits
        (encode_for_signing dp)
        (ObjectHeader.signing_text dp.object.header ++ (tag ++ PubKeyData.text dp.key_data))
unfolding encode_for_signing write_pointer
Emits-key_signing dp tag e =
    let rest : Emits (write_pointer sha dp.object.tag >> PubKeyData.encode dp.key_data)
        (tag ++ PubKeyData.text dp.key_data) =
      rw e (Emits-bind _ (Emits-element sha tag) (PubKeyData.Emits-encode dp.key_data)) in
    Emits-bind _ (ObjectHeader.Emits-signing dp.object.header) rest

-- the text of a key that is encrypted
abbrev pub plain_text : DecryptedPubKey → Bytes
plain_text dp = PubKeyData.text dp.key_data ++ var_bytes dp.signature

pub Emits-plain : (dp : DecryptedPubKey) → Emits (encode_for_encryption dp) (plain_text dp)
unfolding encode_for_encryption
Emits-plain dp = Emits-bind _ (PubKeyData.Emits-encode dp.key_data) (Emits-signature dp.signature)

-- What comes back: the difficulty is spelt out.
unfoldable pub spelt_out : DecryptedPubKey → DecryptedPubKey
spelt_out dp = record dp {
  key_data = record dp.key_data { pow = some (pow_or_default dp.key_data.pow) };
}

pub Parses-plain :
    (dp : DecryptedPubKey)
    → PubKeyData.IsValid dp.key_data
    → length dp.signature ≤ 80
    → Parses (decode_from_decrypted dp.object) (plain_text dp) (spelt_out dp)
unfolding decode_from_decrypted spelt_out
Parses-plain dp v short =
    Parses-bind _ (PubKeyData.Parses-decode dp.key_data no_data v)
      (Parses-map _ (Parses-signature dp.signature short) (λ r. refl))
