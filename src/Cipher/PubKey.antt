-- ===== src/Cipher/PubKey.antt =====
-- cipher/pubkey.go: public keys that are signed, and those that are encrypted too.
pub mod Check
pub mod Codec
pub mod Signed
pub mod Accepted
pub mod Received
use bmutil.Common.{ℕ, Bytes, Option, none, some, not, equal, if◌then◌else◌, []}
use bmutil.Error.{Result, returned, failed, nil_pointer, invalid_identity, addresses_differ}
use bmutil.Error.Results
use bmutil.Crypto.{Library}
use bmutil.Stream.{◌>>=◌, ◌>>◌, pure, fail, Reader, Writer}
use bmutil.Pow.Data as PowData
use bmutil.Wire.Element.{sha}
use bmutil.Wire.ObjectHeader.{ObjectHeader}
use bmutil.Wire.ObjectHeader
use bmutil.Wire.Obj.GetPubKey.{write_pointer}
use bmutil.Wire.Obj.PubKeyData.{PubKeyData, no_data}
use bmutil.Wire.Obj.PubKeyData
use bmutil.Wire.Obj.SimplePubKey.{SimplePubKey}
use bmutil.Wire.Obj.ExtendedPubKey.{
  ExtendedPubKey, encode_pub_key_signature, decode_pub_key_signature,
}
use bmutil.Wire.Obj.EncryptedPubKey.{EncryptedPubKey}

-- The struct `decryptedPubKey`
pub record DecryptedPubKey : Type 0 where
  pub object : EncryptedPubKey
  pub key_data : PubKeyData
  pub signature : Bytes

unfoldable pub encode_for_encryption : DecryptedPubKey → Writer
encode_for_encryption dp = do PubKeyData.encode dp.key_data; encode_pub_key_signature dp.signature

-- `decodeFromDecrypted`, into a key that has its object
unfoldable pub decode_from_decrypted : EncryptedPubKey → Reader DecryptedPubKey
decode_from_decrypted object = do
  key_data ← PubKeyData.decode no_data
  signature ← decode_pub_key_signature
  pure (record { object = object; key_data = key_data; signature = signature })

unfoldable pub encode_for_signing : DecryptedPubKey → Writer
encode_for_signing dp = do
  ObjectHeader.encode_for_signing dp.object.header
  write_pointer sha dp.object.tag
  PubKeyData.encode dp.key_data

-- The implementations of `PubKeyObject`
pub data PubKeyObject : Type 0 where
  simple : SimplePubKey → PubKeyObject
  extended : ExtendedPubKey → PubKeyObject
  decrypted : DecryptedPubKey → PubKeyObject

-- the methods `Object`, of which the header is taken
unfoldable pub header : PubKeyObject → ObjectHeader
header (simple p) = p.header
header (extended p) = p.header
header (decrypted p) = p.object.header

-- the methods `Data`
unfoldable pub data_of : PubKeyObject → PubKeyData
data_of (simple p) = p.key_data
data_of (extended p) = p.key_data
data_of (decrypted p) = p.key_data

-- the methods `Behavior`
unfoldable pub behavior : PubKeyObject → ℕ
unfolding data_of
behavior p = (data_of p).behavior

-- the methods `Pow`
unfoldable pub pow_of : PubKeyObject → Option PowData.Data
pow_of (simple p) = none
pow_of (extended p) = p.key_data.pow
pow_of (decrypted p) = p.key_data.pow

-- the methods `Tag`
unfoldable pub tag_of : PubKeyObject → Option Bytes
tag_of (simple p) = none
tag_of (extended p) = none
tag_of (decrypted p) = p.object.tag
