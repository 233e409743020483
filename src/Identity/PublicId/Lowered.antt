-- ===== src/Identity/PublicId/Lowered.antt =====
-- Identities with a difficulty below the default, which a `PrivateID` can have: what comes back of them is
-- written otherwise than what was sent, so that a signature of the text that was sent is none of it.
use bmutil.Common.{
  ℕ, ◌^◌, ◌<◌, ◌≤◌, ◌≡◌, ◌≢◌, refl, sym, ap, ◌∙◌, leb, le→leb, Option, none, some, Bytes, arith,
  true, [],
}
use bmutil.Crypto.{Library, IsLawful}
use bmutil.Stream.{ok, ◌>>=◌, Reader, Outcome}
use bmutil.Error.{returned}
use bmutil.Stream.Run.{text_by, text_by-Emits}
use bmutil.Stream.Parses.{Parses, Parses-bind, Parses-end}
use bmutil.Types.{IsU64, read_var_int}
use bmutil.Types.VarInt.{Parses-var_int}
use bmutil.Pow.Data as PowData
use bmutil.Wire.Obj.PubKeyData.{PubKeyData, pow_or_default}
use bmutil.Float.{max, max_uint64_exact}
use bmutil.Identity.PublicAddress.{address-Fields}
use bmutil.Identity.PublicId.{
  PublicId, pub_key_data, read_key_data, raised, address, encode, decode,
}
use bmutil.Identity.PublicId.RoundTrip.{
  IsValid, text, received, read_pow, Emits-encode, Parses-decode, Parses-key_data, data-IsValid,
}
use bmutil.Identity.PublicId.Stable.{IsRaised-IsValid, raised-IsRaised}

-- the fields that `Decode` reads
read_fields : Reader PubKeyData
read_fields = do version ← read_var_int; stream ← read_var_int; read_key_data version

abbrev trials : Option PowData.Data → ℕ
trials none = 0
trials (some pd) = pd.nonce_trials_per_byte

module _ (L : Library) (lawful : IsLawful L) (o : ℕ) where
  Parses-fields :
      (id : PublicId L)
      → IsValid L id
      → Parses read_fields (text L id) (record (pub_key_data L id) {
        pow = read_pow id.public_address.version (pub_key_data L id).pow;
      })
  unfolding read_fields text address
  Parses-fields id v =
      let pa = id.public_address in
      let f = address-Fields L pa v.its_address v.has_address in
      let version_fits : IsU64 pa.version = omega (arith, f.version_le) in
      Parses-bind _ (Parses-var_int pa.version version_fits) (
        Parses-bind _ (Parses-var_int pa.stream v.stream_fits)
          (Parses-key_data _ pa.version (pub_key_data L id) refl (data-IsValid L lawful o id v)))

  -- The text of an identity says what its difficulty is.
  same_pow :
      (x y : PublicId L)
      → IsValid L x
      → IsValid L y
      → text L x ≡ text L y
      → read_pow x.public_address.version x.pow ≡ read_pow y.public_address.version y.pow
  unfolding pub_key_data
  same_pow x y v w e =
      same
        (sym (Parses-end (Parses-fields x v)) ∙ (ap read_fields e ∙ Parses-end (Parses-fields y w)))
    where
      same :
          {a b : PubKeyData}
          → ◌≡◌ {A = Outcome Bytes PubKeyData} (ok a []) (ok b [])
          → a.pow ≡ b.pow
      same e = cc

  max_low : (a b : ℕ) → b < a → max a b ≡ a
  unfolding max
  max_low a b h = ground arith

  raised_trials :
      (pd : PowData.Data)
      → pd.nonce_trials_per_byte < 1000
      → (raised o (some pd)).nonce_trials_per_byte ≡ 1000
  unfolding raised
  raised_trials pd low =
      rw (max_uint64_exact o 1000 pd.nonce_trials_per_byte (omega arith) (omega arith))
        (max_low 1000 pd.nonce_trials_per_byte low)

  text_changes :
      (id : PublicId L)
      → IsValid L id
      → IsValid L (received L o id)
      → leb 3 id.public_address.version ≡ true
      → (pow_or_default id.pow).nonce_trials_per_byte < PowData.default_nonce_trials_per_byte
      → text L (received L o id) ≢ text L id
  unfolding received pow_or_default
  text_changes id v back full low e =
      let E = rw full at (same_pow (received L o id) id back v e) in
      let T : (raised o (some (pow_or_default id.pow))).nonce_trials_per_byte
          ≡ (pow_or_default id.pow).nonce_trials_per_byte =
        ap trials E in
      omega (arith, raised_trials (pow_or_default id.pow) low, T)

  -- What comes back of such an identity has its fields in range.
  low-IsValid :
      (id : PublicId L)
      → IsValid L id
      → leb 3 id.public_address.version ≡ true
      → (pow_or_default id.pow).nonce_trials_per_byte < PowData.default_nonce_trials_per_byte
      → (pow_or_default id.pow).extra_bytes < 2 ^ 53
      → IsValid L (received L o id)
  unfolding received address pow_or_default
  low-IsValid id v full low small = record {
    its_address = v.its_address;
    has_address = v.has_address;
    stream_fits = v.stream_fits;
    behavior_fits = v.behavior_fits;
    pow_valid = rw full (
        IsRaised-IsValid _
          (raised-IsRaised o (some (pow_or_default id.pow)) (omega (arith, low), small)));
  }

  -- `Encode` writes an identity of version 3 or 4, with its fields in range, whose trials per byte are
  -- below the default 1000, and its extra bytes below 2 ^ 53; `Decode` makes an identity of what was
  -- written, and `Encode` writes that one otherwise. The library is lawful.
  pub low_difficulty_changes :
      (id : PublicId L)
      → IsValid L id
      → 3 ≤ id.public_address.version
      → (pow_or_default id.pow).nonce_trials_per_byte < PowData.default_nonce_trials_per_byte
      → (pow_or_default id.pow).extra_bytes < 2 ^ 53
      → (sent : Bytes) × (back : PublicId L) × (again : Bytes) × (text_by (encode L id)
          ≡ returned sent)
        × (decode L o sent ≡ ok back [])
        × (text_by (encode L back) ≡ returned again)
        × (again ≢ sent)
  low_difficulty_changes id v new low small =
      let full : leb 3 id.public_address.version ≡ true = le→leb 3 id.public_address.version new in
      let back = low-IsValid id v full low small in
      (
        text L id,
        received L o id,
        text L (received L o id),
        text_by-Emits _ (Emits-encode L id v),
        Parses-end (Parses-decode L lawful o id v),
        text_by-Emits _ (Emits-encode L (received L o id) back),
        text_changes id v back full low,
      )
