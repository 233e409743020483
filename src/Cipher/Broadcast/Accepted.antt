-- ===== src/Cipher/Broadcast/Accepted.antt =====
-- A broadcast that was signed and encrypted is decrypted and verified by those who know its address.
use bmutil.Common.{
  ℕ, ◌≡◌, refl, sym, ◌∙◌, Bytes, Option, none, some, arith, true, equal, equal_iff, ◌==◌, not, ap,
  Bool, false, ◌&&◌, if◌then◌else◌,
}
use bmutil.Error.{Result, returned, failed, Error}
use bmutil.Error.Results.{and_then-returned, returned_inj}
use bmutil.Crypto.{Library, IsLawful}
use bmutil.Stream.Run.{text_by, text_by-Emits}
use bmutil.Stream.Parses.{Parses-end}
use bmutil.Address.{Address}
use bmutil.Address
use bmutil.Identity.PublicId.{key}
use bmutil.Identity.PublicId
use bmutil.Identity.PublicId.RoundTrip as PublicText
use bmutil.Identity.PrivateKey.{PrivateKey}
use bmutil.Identity.PrivateId.{PrivateId}
use bmutil.Identity.PrivateId
use bmutil.Wire.Obj.Broadcast as Obj
use bmutil.Wire.Obj.Broadcast.{tagless, tagged}
use bmutil.Cipher.Bitmessage.{Bitmessage, received}
use bmutil.Cipher.Bitmessage
use bmutil.Cipher.Signing.{
  sign_text, verify_text, encrypt_text, decrypt_text, verify_text-sign_text,
  decrypt_text-encrypt_text,
}
use bmutil.Cipher.Message.Checked.{passed}
use bmutil.Cipher.Broadcast.{
  Incomplete, incomplete_tagless, incomplete_tagged, complete, broadcast_key, encrypt_incomplete,
  completed, encrypted_of, broadcast_encode_for_signing, Broadcast, encode_for_encryption,
}
use bmutil.Cipher.Broadcast.Codec.{
  HasTag, signing_text, encryption_text, Emits-signing, Emits-encryption, Parses-decrypted,
  signing_again,
}
use bmutil.Cipher.Broadcast.Check.{
  no_destination_in, text_of, sign_and_encrypt, verify, create_tagless_broadcast,
  create_tagged_broadcast, new_broadcast, new_tagless_broadcast, new_tagged_broadcast,
  create_by_version, sign_and_encrypt_broadcast, try_decrypt_and_verify_broadcast,
}

completed_of :
    (L : Library) (i : Incomplete) (r : Result Bytes) (msg : Obj.Broadcast)
    → completed L i r ≡ returned msg
    → (encrypted : Bytes) × (r ≡ returned encrypted) × (complete i encrypted ≡ msg)
completed_of L i (returned c) msg e = (c, refl, cc)
completed_of L i (failed e') msg e = absurd (cc)

encrypted_of-complete : (i : Incomplete) (c : Bytes) → encrypted_of (complete i c) ≡ c
unfolding complete Obj.new_tagless_broadcast Obj.new_tagged_broadcast
encrypted_of-complete (incomplete_tagless e s) c = refl
encrypted_of-complete (incomplete_tagged e s tag) c = refl

not_refused :
    {A : Type 0} (c : Bool) (e : Error) (r : Result A) (a : A)
    → (if c then failed e else r) ≡ returned a
    → r ≡ returned a
not_refused true e r a h = absurd (cc)
not_refused false e r a h = h

module _ (L : Library) (lawful : IsLawful L) (o : ℕ) (random : Bytes) (bm : Bitmessage L)
    (valid : Bitmessage.IsValid L bm) (a : Address)
    (its_address : PublicId.address L bm.public ≡ some a) where
  abbrev sent : Incomplete → Bytes → Bytes → Broadcast L
  sent i sig encrypted = record { msg = some (complete i encrypted); bm = bm; sig = sig }

  abbrev read : Broadcast L → Broadcast L
  read b = record b { bm = received L o b.bm }

  verify_accepts :
      (i : Incomplete) (sig encrypted : Bytes)
      → HasTag i
      → verify_text L sig (signing_text L bm valid i) (key L bm.public).verification ≡ returned tt
      → verify L a (read (sent i sig encrypted)) ≡ returned tt
  unfolding verify received key PublicText.received PublicId.address
  verify_accepts i sig encrypted h v =
      let equal_text : equal (text_of L a) (text_of L a) ≡ true = (equal_iff _ _).1 refl in
      let text = text_by-Emits _ (signing_again L bm valid o i encrypted sig h) in
      rw (its_address, equal_text, text) v

  renamed :
      (i : Incomplete) (sig encrypted : Bytes) (b : Broadcast L)
      → sent i sig encrypted ≡ b
      → new_broadcast L o (complete i encrypted) (broadcast_key L i a) a
        ≡ returned (read (sent i sig encrypted))
      → (encrypted : Bytes) × (b.msg ≡ some (complete i encrypted))
        × (new_broadcast L o (complete i encrypted) (broadcast_key L i a) a ≡ returned (read b))
  renamed i sig encrypted b made N =
      (encrypted, ap (λ x. x.msg) (sym made), N ∙ ap (λ x. returned (read x)) made)

  -- What `signAndEncrypt` makes, `newBroadcast` takes.
  taken :
      (private : PrivateKey L) (i : Incomplete) (b : Broadcast L)
      → HasTag i
      → bm.destination ≡ none
      → (key L bm.public).verification ≡ L.pub_key private.signing
      → sign_and_encrypt L random bm i a private ≡ returned b
      → (encrypted : Bytes) × (b.msg ≡ some (complete i encrypted))
        × (new_broadcast L o (complete i encrypted) (broadcast_key L i a) a ≡ returned (read b))
  unfolding sign_and_encrypt new_broadcast encrypt_incomplete
  taken private i b h none_given signer e =
      let start : Bytes → Broadcast L = λ sig. record { msg = none; bm = bm; sig = sig } in
      let T = and_then-returned (text_by (broadcast_encode_for_signing L i bm)) _ b e in
      let S = and_then-returned (sign_text L private.signing T.0) _ b T.2 in
      let P = and_then-returned (text_by (encode_for_encryption L (start S.0))) _ b S.2 in
      let M = and_then-returned (encrypt_incomplete L random i a P.0) _ b P.2 in
      let C =
        completed_of L i (encrypt_text L random (L.pub_key (broadcast_key L i a)) P.0) M.0 M.1 in
      let text : T.0 ≡ signing_text L bm valid i =
        returned_inj (sym T.1 ∙ text_by-Emits _ (Emits-signing L bm valid i h)) in
      let plain : P.0 ≡ encryption_text L bm valid S.0 =
        returned_inj (sym P.1 ∙ text_by-Emits _ (Emits-encryption L bm valid (start S.0) refl)) in
      let V = verify_text-sign_text L lawful private.signing T.0 S.0 S.1 in
      let D = decrypt_text-encrypt_text L lawful random (broadcast_key L i a) P.0 C.0 C.1 in
      let made : sent i S.0 C.0 ≡ b = rw C.2 (returned_inj M.2) in
      let v : verify_text L S.0 (signing_text L bm valid i) (key L bm.public).verification
          ≡ returned tt =
        rw signer (rw text at V.0) in
      let d : decrypt_text L (broadcast_key L i a) C.0 ≡ returned (encryption_text L bm valid S.0) =
        rw plain at D in
      let N : new_broadcast L o (complete i C.0) (broadcast_key L i a) a
          ≡ returned (read (sent i S.0 C.0)) =
        rw
          (
            encrypted_of-complete i C.0,
            d,
            Parses-end (Parses-decrypted L bm valid lawful o S.0 none_given (omega (arith, V.1))),
            verify_accepts i S.0 C.0 h v,
          )
          refl in
      renamed i S.0 C.0 b made N

  -- The tag is that of the address, or there is none.
  abbrev pub IsTagOf : Option Bytes → Type 0
  IsTagOf none = Unit
  IsTagOf (some tag) = tag ≡ Address.tag L.sha512 a

  abbrev pub IsTaken : Broadcast L → Type 0
  IsTaken b =
      (msg : Obj.Broadcast) × (b.msg ≡ some msg)
      × (try_decrypt_and_verify_broadcast L o msg a ≡ returned (read b))

  module _ (priv_id : PrivateId L) (expiration : ℕ) (b : Broadcast L)
      (none_given : bm.destination ≡ none)
      (signer : (key L bm.public).verification
        ≡ L.pub_key priv_id.private_address.private_key.signing)
      (private_address : PrivateId.address L priv_id ≡ some a) where
    tagless-IsTaken :
        create_tagless_broadcast L random expiration bm priv_id ≡ returned b → IsTaken b
    unfolding create_tagless_broadcast complete broadcast_key try_decrypt_and_verify_broadcast
        new_tagless_broadcast
    tagless-IsTaken e =
        let n : no_destination_in bm.destination ≡ returned tt = rw none_given refl in
        let e' = rw (n, private_address) at e in
        let t =
          taken priv_id.private_address.private_key
            (incomplete_tagless expiration (Address.stream a)) b tt none_given signer e' in
        (complete (incomplete_tagless expiration (Address.stream a)) t.0, t.1, t.2)

    tagged-IsTaken :
        (tag : Bytes)
        → tag ≡ Address.tag L.sha512 a
        → create_tagged_broadcast L random expiration bm (some tag) priv_id ≡ returned b
        → IsTaken b
    unfolding create_tagged_broadcast complete broadcast_key try_decrypt_and_verify_broadcast
        new_tagged_broadcast Obj.new_tagged_broadcast
    tagged-IsTaken tag is_tag e =
        let n : no_destination_in bm.destination ≡ returned tt = rw none_given refl in
        let e' = rw (n, private_address) at e in
        let i = incomplete_tagged expiration (Address.stream a) (some tag) in
        let t = taken priv_id.private_address.private_key i b tt none_given signer e' in
        let matches : equal tag (Address.tag L.sha512 a) ≡ true = (equal_iff _ _).1 is_tag in
        (complete i t.0, t.1, rw matches t.2)

    by_version-IsTaken :
        (tag : Option Bytes) (version : ℕ)
        → IsTagOf tag
        → create_by_version L random expiration bm tag priv_id version ≡ returned b
        → IsTaken b
    unfolding create_by_version
    by_version-IsTaken none version is_tag e =
        tagless-IsTaken (not_refused (not (version == 2) && not (version == 3)) _ _ b e)
    by_version-IsTaken (some tag) version is_tag e =
        tagged-IsTaken tag is_tag (passed (version == 4) _ _ b e).1

    -- What `SignAndEncryptBroadcast` makes, with no tag or the tag of the sender's address,
    -- `TryDecryptAndVerifyBroadcast` accepts with that address, and returns with the difficulty of the
    -- sender spelt out: if the sender's public identity has the private identity's address and its
    -- key that signs, and is valid, with a difficulty from the default on and below 2 ^ 53; and the
    -- content can be read back, and there is no destination. The library is lawful.
    pub broadcast_accepted :
        (tag : Option Bytes)
        → IsTagOf tag
        → sign_and_encrypt_broadcast L random expiration bm tag priv_id ≡ returned b
        → (msg : Obj.Broadcast) × (b.msg ≡ some msg)
          × (try_decrypt_and_verify_broadcast L o msg a
              ≡ returned (record b { bm = received L o b.bm }))
    unfolding sign_and_encrypt_broadcast
    broadcast_accepted tag is_tag e =
        by_version-IsTaken tag (Address.version a) is_tag (rw its_address at e)
