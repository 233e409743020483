-- ===== src/Cipher/PubKey/Signed.antt =====
-- A public key that was signed is verified by those who receive it.
use bmutil.Common.{ℕ, ◌≡◌, ◌≤◌, refl, Bytes, [], length, arith, true, false, ◌==◌, ==_iff}
use bmutil.Error.{returned}
use bmutil.Error.Results.{and_then-returned, returned_inj}
use bmutil.Crypto.{Library, IsLawful}
use bmutil.Stream.{ok}
use bmutil.Stream.Run.{text_by, text_by-Emits}
use bmutil.Types.{IsU64}
use bmutil.Wire.ObjectHeader.{new_object_header, object_type_pub_key}
use bmutil.Wire.MsgObject
use bmutil.Wire.MsgObject.{MsgObject}
use bmutil.Wire.Obj.Versions.{extended_pub_key_version}
use bmutil.Wire.Obj.Payload.{object_text, payload_of-Emits, text-payload_of}
use bmutil.Wire.Obj.Dispatch as Dispatch
use bmutil.Identity.PublicAddress.{address-Fields}
use bmutil.Identity.PublicId.RoundTrip as PublicText
use bmutil.Identity.PrivateAddress as PrivateAddress
use bmutil.Cipher.Message.Checked.{an_address}
use bmutil.Cipher.PubKey.{extended}
use bmutil.Cipher.PubKey.Received.{try_decrypt_and_verify_pub_key, by_type, from_bytes, header_of}
use bmutil.Address.{Address}
use bmutil.Address
use bmutil.Wire.PubKey.{to_btcec}
use bmutil.Wire.Obj.PubKeyData.{PubKeyData, pow_or_default, no_data}
use bmutil.Wire.Obj.PubKeyData
use bmutil.Wire.Obj.ExtendedPubKey.{
  ExtendedPubKey, new_extended_pub_key, received, Parses-signature, Emits-signature,
}
use bmutil.Wire.Obj.ExtendedPubKey as ExtendedPubKey
use bmutil.Identity.{wire, new_pub_key, new_pub_key-wire}
use bmutil.Identity.PublicId.{PublicId, new_public, new_public_id}
use bmutil.Identity.PublicId
use bmutil.Identity.PrivateKey.{public}
use bmutil.Identity.PrivateAddress.{non_nil, public_address}
use bmutil.Identity.PrivateId.{PrivateId, public_id}
use bmutil.Identity.PrivateId
use bmutil.Cipher.Signing.{sign_text, verify_text, verify_text-sign_text}
use bmutil.Cipher.PubKey.Check.{
  sign_extended_pub_key, verify_extended_pub_key, create_extended_pub_key, checked_extended_pub_key,
}

-- The version 3 has the second case of the `switch`.
case_three :
    (version : ℕ)
    → version ≡ extended_pub_key_version
    → ((version == 2) ≡ false) × ((version == 3) ≡ true)
case_three version e = rw e (refl, refl)

module _ (L : Library) where
  -- The key is verified, and so is the one that `Decode` makes of the text that `Encode` makes of it, and
  -- so is its object where only its header and payload are known: that is taken for the same key.
  abbrev pub ComesBack : ℕ → Address → ExtendedPubKey → Type 0
  ComesBack o a p =
      (checked_extended_pub_key L p ≡ returned p)
      × (sent : Bytes) × (text_by (ExtendedPubKey.encode p) ≡ returned sent)
      × (ExtendedPubKey.decode sent ≡ ok (received p) [])
      × (checked_extended_pub_key L (received p) ≡ returned (received p))
      × (try_decrypt_and_verify_pub_key L o a (Dispatch.other (ExtendedPubKey.msg_object p))
          ≡ returned (extended (received p)))

module _ (L : Library) (lawful : IsLawful L) where
  checked :
      (ep : ExtendedPubKey) (key : L.PubKey) (text : Bytes)
      → ep.key_data.verification ≡ wire L key
      → text_by (ExtendedPubKey.encode_for_signing ep) ≡ returned text
      → verify_text L ep.signature text key ≡ returned tt
      → checked_extended_pub_key L ep ≡ returned ep
  unfolding checked_extended_pub_key verify_extended_pub_key to_btcec new_pub_key
  checked ep key text k t v =
      let parsed : to_btcec L.parse_pub_key ep.key_data.verification ≡ returned key =
        rw k (new_pub_key-wire L lawful key) in
      rw (parsed, t, v) refl

  moved :
      (o : ℕ) (a : Address) (q p : ExtendedPubKey) → q ≡ p → ComesBack L o a q → ComesBack L o a p
  moved o a q p e h = rw e at h

  -- An object of the type of public keys and the version 3 is taken for the key that `Decode` makes of it.
  taken :
      (o : ℕ) (a : Address) (m : MsgObject) (bytes rest : Bytes) (q : ExtendedPubKey)
      → m.header.object_type ≡ object_type_pub_key
      → m.header.version ≡ extended_pub_key_version
      → MsgObject.text m ≡ bytes
      → ExtendedPubKey.decode bytes ≡ ok q rest
      → checked_extended_pub_key L q ≡ returned q
      → try_decrypt_and_verify_pub_key L o a (Dispatch.other m) ≡ returned (extended q)
  unfolding try_decrypt_and_verify_pub_key by_type from_bytes header_of
  taken o a m bytes rest q is_key is_extended e decoded there =
      let is_type : (m.header.object_type == object_type_pub_key) ≡ true =
        (==_iff m.header.object_type object_type_pub_key).1 is_key in
      let encoded = payload_of-Emits (MsgObject.encode m) (MsgObject.Emits-encode m) in
      let V = case_three m.header.version is_extended in
      rw (is_type, V.0, V.1, encoded, e, decoded, there) refl

  -- A valid key that is verified, as it is and as it comes back
  sent_on :
      (o : ℕ) (a : Address) (p : ExtendedPubKey)
      → ExtendedPubKey.IsValid p
      → checked_extended_pub_key L p ≡ returned p
      → checked_extended_pub_key L (received p) ≡ returned (received p)
      → ComesBack L o a p
  unfolding ExtendedPubKey.msg_object ExtendedPubKey.payload
  sent_on o a p v here there =
      let T = ExtendedPubKey.extended_lem p v in
      let bytes = object_text p.header (ExtendedPubKey.text p) in
      let same =
        text-payload_of p.header (ExtendedPubKey.encode_payload p)
          (ExtendedPubKey.Emits-payload p) in
      (
        here,
        bytes,
        text_by-Emits _ T.0,
        T.2,
        there,
        taken o a (ExtendedPubKey.msg_object p) bytes [] (received p) v.is_pub_key v.is_extended
            same T.2 there,
      )

  module _ (priv_id : PrivateId L) (expires : ℕ) where
    abbrev key_with : ℕ → Bytes → ExtendedPubKey
    key_with stream signature =
        new_extended_pub_key 0 expires stream (PrivateId.pub_key_data L priv_id) signature

    -- The signature is no part of what is signed, and the default difficulty is signed for none.
    signed_verified :
        (stream : ℕ) (text signature : Bytes)
        → text_by (ExtendedPubKey.encode_for_signing (key_with stream [])) ≡ returned text
        → verify_text L signature text (L.pub_key priv_id.private_address.private_key.signing)
          ≡ returned tt
        → (checked_extended_pub_key L (key_with stream signature)
            ≡ returned (key_with stream signature))
          × (checked_extended_pub_key L (received (key_with stream signature))
              ≡ returned (received (key_with stream signature)))
    unfolding ExtendedPubKey.encode_for_signing PubKeyData.encode PubKeyData.encode_simple
        pow_or_default received new_extended_pub_key PrivateId.pub_key_data PublicId.pub_key_data
        PublicId.key public_id public_address public
    signed_verified stream text signature t v =
        let q = key_with stream signature in
        let key = L.pub_key priv_id.private_address.private_key.signing in
        (checked q key text refl t v, checked (received q) key text refl t v)

    made-IsValid :
        (o stream : ℕ) (signature : Bytes)
        → IsU64 expires
        → IsU64 stream
        → PublicText.IsValid L (public_id L priv_id)
        → length signature ≤ 72
        → ExtendedPubKey.IsValid (key_with stream signature)
    unfolding new_extended_pub_key new_object_header PrivateId.pub_key_data
    made-IsValid o stream signature e s v short = record {
      header_valid = record {
        nonce_fits = omega arith;
        expiration_fits = e;
        object_type_fits = omega arith;
        version_fits = omega arith;
        stream_fits = s;
      };
      is_pub_key = refl;
      is_extended = refl;
      data_valid = PublicText.data-IsValid L lawful o (public_id L priv_id) v;
      signature_short = omega (arith, short);
    }

    -- An extended key that `createExtendedPubKey` makes is verified, and so is the key that `Decode` makes
    -- of the text that `Encode` makes of it, which is the key with its difficulty spelt out.
    -- `TryDecryptAndVerifyPubKey` returns that key, whatever the address is, for the object of the key,
    -- of which only the header and the payload are known. The expiration is a uint64, and the fields
    -- of the identity are in range. The library is lawful.
    pub extended_accepted :
        (o : ℕ) (a : Address) (p : ExtendedPubKey)
        → IsU64 expires
        → PublicText.IsValid L (public_id L priv_id)
        → create_extended_pub_key L expires priv_id ≡ returned p
        → ComesBack L o a p
    unfolding create_extended_pub_key sign_extended_pub_key PrivateId.address PrivateAddress.address
        public_id new_extended_pub_key
    extended_accepted o a p fits valid e =
        let A = and_then-returned (non_nil L (PrivateId.address L priv_id)) _ p e in
        let ep = key_with (Address.stream A.0) [] in
        let T = and_then-returned (text_by (ExtendedPubKey.encode_for_signing ep)) _ p A.2 in
        let signing = priv_id.private_address.private_key.signing in
        let S = and_then-returned (sign_text L signing T.0) _ p T.2 in
        let V = verify_text-sign_text L lawful signing T.0 S.0 S.1 in
        let f =
          address-Fields L (public_address L priv_id.private_address) A.0
            (an_address L _ A.0 A.1) in
        let stream_fits : IsU64 (Address.stream A.0) = rw (← f.stream_is) at valid.stream_fits in
        let both = signed_verified (Address.stream A.0) T.0 S.0 T.1 V.0 in
        let key_valid = made-IsValid o (Address.stream A.0) S.0 fits stream_fits valid V.1 in
        moved o a (key_with (Address.stream A.0) S.0) p (returned_inj S.2)
          (sent_on o a _ key_valid both.0 both.1)
