-- ===== src/Cipher/Broadcast/Check.antt =====
-- The functions of cipher/broadcast.go that sign, encrypt, decrypt and verify, and the two for
-- broadcasts of cipher/objects.go.
use bmutil.Common.{ℕ, [], Bytes, Option, none, some, not, ◌==◌, if◌then◌else◌, equal, ◌&&◌}
use bmutil.Error.{
  Result, returned, failed, nil_pointer, addresses_differ, has_destination, unsupported_op,
  invalid_identity,
}
use bmutil.Error.Results.{◌>>=◌, ◌>>◌}
use bmutil.Crypto.{Library}
use bmutil.Stream.Run.{text_by, read_from}
use bmutil.Address.{Address, to_string}
use bmutil.Address
use bmutil.Wire.Obj.Broadcast as Obj
use bmutil.Wire.Obj.Broadcast.{tagless, tagged}
use bmutil.Identity.PublicId.{key}
use bmutil.Identity.PublicId
use bmutil.Identity.PrivateKey.{PrivateKey}
use bmutil.Identity.PrivateAddress.{non_nil}
use bmutil.Identity.PrivateId.{PrivateId}
use bmutil.Identity.PrivateId
use bmutil.Cipher.Bitmessage.{Bitmessage}
use bmutil.Cipher.Signing.{sign_text, verify_text, decrypt_text}
use bmutil.Cipher.Broadcast.{
  Incomplete, incomplete_tagless, incomplete_tagged, encrypt_incomplete,
  broadcast_encode_for_signing, Broadcast, encode_for_signing, encode_for_encryption,
  decode_from_decrypted, encrypted_of, v4_key, v5_key,
}
use bmutil.Cipher.Message.Check.{bytes_of}

-- `if bm.Destination != nil`
abbrev pub no_destination_in : Option Bytes → Result (Unit {0})
no_destination_in none = returned tt
no_destination_in (some d) = failed has_destination

module _ (L : Library) where
  -- `String` of an address
  abbrev pub text_of : Address → Bytes
  text_of a = to_string L.sha512 L.base58_encode a

  -- `signAndEncrypt`; `random` is what `Encrypt` reads
  unfoldable pub sign_and_encrypt :
      Bytes → Bitmessage L → Incomplete → Address → PrivateKey L → Result (Broadcast L)
  sign_and_encrypt random bm i address private =
      let start : Broadcast L = record { msg = none; bm = bm; sig = [] } in
      do
        text ← text_by (broadcast_encode_for_signing L i bm)
        sig ← sign_text L private.signing text
        plain ← text_by (encode_for_encryption L (record start { sig = sig }))
        msg ← encrypt_incomplete L random i address plain
        returned (record { msg = some msg; bm = bm; sig = sig })

  -- the object of a broadcast, where `verify` panics without one
  abbrev pub object_of : Option Obj.Broadcast → Result Obj.Broadcast
  object_of none = failed nil_pointer
  object_of (some msg) = returned msg

  unfoldable pub verify : Address → Broadcast L → Result (Unit {0})
  verify address b = do
    msg ← object_of b.msg
    addr ← non_nil L (PublicId.address L b.bm.public)
    if not (equal (text_of address) (text_of addr)) then failed addresses_differ else (do
      text ← text_by (encode_for_signing L b)
      verify_text L b.sig text (key L b.bm.public).verification)

  unfoldable pub create_tagless_broadcast :
      Bytes → ℕ → Bitmessage L → PrivateId L → Result (Broadcast L)
  unfolding sign_and_encrypt
  create_tagless_broadcast random expiration bm private = do
    no_destination_in bm.destination
    address ← non_nil L (PrivateId.address L private)
    sign_and_encrypt random bm (incomplete_tagless expiration (Address.stream address)) address
        private.private_address.private_key

  unfoldable pub create_tagged_broadcast :
      Bytes → ℕ → Bitmessage L → Option Bytes → PrivateId L → Result (Broadcast L)
  unfolding sign_and_encrypt
  create_tagged_broadcast random expires bm tag private = do
    no_destination_in bm.destination
    address ← non_nil L (PrivateId.address L private)
    sign_and_encrypt random bm (incomplete_tagged expires (Address.stream address) tag) address
        private.private_address.private_key

  -- `newBroadcast`
  unfoldable pub new_broadcast : ℕ → Obj.Broadcast → L.PrivKey → Address → Result (Broadcast L)
  unfolding verify
  new_broadcast out_of_range msg key address = do
    dec ← decrypt_text L key (encrypted_of msg)
    b ← read_from (decode_from_decrypted L out_of_range) dec
    verify address (record b { msg = some msg })
    returned (record b { msg = some msg })

  unfoldable pub new_tagless_broadcast : ℕ → Obj.TaglessBroadcast → Address → Result (Broadcast L)
  unfolding new_broadcast
  new_tagless_broadcast out_of_range msg address =
      new_broadcast out_of_range (tagless msg) (v4_key L address) address

  unfoldable pub new_tagged_broadcast : ℕ → Obj.TaggedBroadcast → Address → Result (Broadcast L)
  unfolding new_broadcast
  new_tagged_broadcast out_of_range msg address = do
    tag ← bytes_of msg.tag
    if not (equal tag (Address.tag L.sha512 address))
        then failed invalid_identity
        else new_broadcast out_of_range (tagged msg) (v5_key L address) address

  -- the rest of `SignAndEncryptBroadcast`, with the version of the sender's address
  unfoldable pub create_by_version :
      Bytes → ℕ → Bitmessage L → Option Bytes → PrivateId L → ℕ → Result (Broadcast L)
  unfolding create_tagless_broadcast create_tagged_broadcast
  create_by_version random expiration msg none priv_id version =
      if not (version == 2) && not (version == 3)
      then failed unsupported_op
      else create_tagless_broadcast random expiration msg priv_id
  create_by_version random expiration msg (some tag) priv_id version =
      if not (version == 4)
      then failed unsupported_op
      else create_tagged_broadcast random expiration msg (some tag) priv_id

  unfoldable pub sign_and_encrypt_broadcast :
      Bytes → ℕ → Bitmessage L → Option Bytes → PrivateId L → Result (Broadcast L)
  unfolding create_by_version
  sign_and_encrypt_broadcast random expiration msg tag priv_id = do
    a ← non_nil L (PublicId.address L msg.public)
    create_by_version random expiration msg tag priv_id (Address.version a)

  -- `TryDecryptAndVerifyBroadcast`, on an object that is not nil
  unfoldable pub try_decrypt_and_verify_broadcast :
      ℕ → Obj.Broadcast → Address → Result (Broadcast L)
  unfolding new_tagless_broadcast new_tagged_broadcast
  try_decrypt_and_verify_broadcast out_of_range (tagless b) address =
      new_tagless_broadcast out_of_range b address
  try_decrypt_and_verify_broadcast out_of_range (tagged b) address =
      new_tagged_broadcast out_of_range b address
