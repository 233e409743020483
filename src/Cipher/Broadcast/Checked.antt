-- ===== src/Cipher/Broadcast/Checked.antt =====
-- What is known of a broadcast that was accepted.
use bmutil.Common.{ℕ, ◌≡◌, sym, ap, Bytes, Option, none, some, equal, equal_iff}
use bmutil.Error.{returned}
use bmutil.Error.Results.{and_then-returned}
use bmutil.Crypto.{Library}
use bmutil.Stream.Run.{text_by, read_from}
use bmutil.Address.{Address, to_string}
use bmutil.Address
use bmutil.Identity.PublicId.{key}
use bmutil.Identity.PublicId
use bmutil.Identity.PrivateAddress.{non_nil}
use bmutil.Wire.Obj.Broadcast as Obj
use bmutil.Wire.Obj.Broadcast.{tagless, tagged}
use bmutil.Cipher.Signing.{decrypt_text, IsSigned, verify_text-IsSigned}
use bmutil.Cipher.Message.Check.{bytes_of}
use bmutil.Cipher.Message.Checked.{passed, an_address}
use bmutil.Cipher.Broadcast.{
  Broadcast, encode_for_signing, decode_from_decrypted, encrypted_of, v4_key, v5_key,
}
use bmutil.Cipher.Broadcast.Check.{
  object_of, verify, new_broadcast, new_tagless_broadcast, new_tagged_broadcast,
  try_decrypt_and_verify_broadcast,
}

module _ (L : Library) (address : Address) where
  -- The sender's address has the text of the address that was given, and the sender has signed.
  abbrev pub IsAuthentic : Broadcast L → Type 0
  IsAuthentic b =
      (addr : Address) × (PublicId.address L b.bm.public ≡ some addr)
      × (to_string L.sha512 L.base58_encode address ≡ to_string L.sha512 L.base58_encode addr)
      × (text : Bytes) × (text_by (encode_for_signing L b) ≡ returned text)
      × IsSigned L b.sig text (key L b.bm.public).verification

  verify-IsAuthentic : (b : Broadcast L) → verify L address b ≡ returned tt → IsAuthentic b
  unfolding verify
  verify-IsAuthentic b e =
      let M = and_then-returned (object_of L b.msg) _ tt e in
      let A = and_then-returned (non_nil L (PublicId.address L b.bm.public)) _ tt M.2 in
      let C =
        passed
          (equal (to_string L.sha512 L.base58_encode address)
            (to_string L.sha512 L.base58_encode A.0))
          _ _ tt A.2 in
      let T = and_then-returned (text_by (encode_for_signing L b)) _ tt C.1 in
      (
        A.0,
        an_address L (PublicId.address L b.bm.public) A.0 A.1,
        (equal_iff _ _).0 C.0,
        T.0,
        T.1,
        verify_text-IsSigned L b.sig T.0 (key L b.bm.public).verification T.2,
      )

  moved : (x b : Broadcast L) → x ≡ b → IsAuthentic x → IsAuthentic b
  moved x b e h = rw e at h

  opened-IsAuthentic :
      (o : ℕ) (msg : Obj.Broadcast) (k : L.PrivKey) (b : Broadcast L)
      → new_broadcast L o msg k address ≡ returned b
      → (b.msg ≡ some msg) × IsAuthentic b
  unfolding new_broadcast
  opened-IsAuthentic o msg k b e =
      let D = and_then-returned (decrypt_text L k (encrypted_of msg)) _ b e in
      let P = and_then-returned (read_from (decode_from_decrypted L o) D.0) _ b D.2 in
      let opened : Broadcast L = record P.0 { msg = some msg } in
      let C = and_then-returned (verify L address opened) _ b P.2 in
      let same : opened ≡ b = cc in
      (ap (λ x. x.msg) (sym same), moved opened b same (verify-IsAuthentic opened C.1))

  -- A tag, if there is one, is that of the address.
  abbrev pub IsTagged : Obj.Broadcast → Type 0
  IsTagged (tagless msg) = Unit
  IsTagged (tagged msg) = msg.tag ≡ some (Address.tag L.sha512 address)

  some_tag : (r : Option Bytes) (b : Bytes) → bytes_of r ≡ returned b → r ≡ some b
  some_tag none b e = absurd (cc)
  some_tag (some c) b e = cc

  -- A broadcast that `TryDecryptAndVerifyBroadcast` returns has the object that it was given, whose tag, if
  -- it has one, is that of the address; its sender has an address with the same text, and the key of
  -- its sender verifies its signature on the text that `encodeForSigning` makes of it, by its SHA-256
  -- or its SHA-1 hash.
  pub broadcast_checked :
      (o : ℕ) (msg : Obj.Broadcast) (b : Broadcast L)
      → try_decrypt_and_verify_broadcast L o msg address ≡ returned b
      → IsTagged msg × (b.msg ≡ some msg) × IsAuthentic b
  unfolding try_decrypt_and_verify_broadcast new_tagless_broadcast new_tagged_broadcast
  broadcast_checked o (tagless msg) b e =
      let O = opened-IsAuthentic o (tagless msg) (v4_key L address) b e in (tt, O.0, O.1)
  broadcast_checked o (tagged msg) b e =
      let T = and_then-returned (bytes_of msg.tag) _ b e in
      let C = passed (equal T.0 (Address.tag L.sha512 address)) _ _ b T.2 in
      let same : T.0 ≡ Address.tag L.sha512 address = (equal_iff _ _).0 C.0 in
      let O = opened-IsAuthentic o (tagged msg) (v5_key L address) b C.1 in
      (rw (← same) (some_tag msg.tag T.0 T.1), O.0, O.1)
