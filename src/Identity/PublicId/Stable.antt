-- ===== src/Identity/PublicId/Stable.antt =====
-- Identities that come back unchanged: those whose difficulty is at least the default, and below
-- 2 ^ 53, where nothing is rounded.
use bmutil.Common.{
  ℕ, ◌^◌, ◌<◌, ◌≤◌, ◌≡◌, refl, leb, if◌then◌else◌, Option, none, some, arith, Bool, true, false,
  if_either,
}
use bmutil.Error.{returned, failed, Result}
use bmutil.Crypto.{Library, IsLawful}
use bmutil.Stream.Emits.{Emits}
use bmutil.Stream.Parses.{Parses}
use bmutil.Types.{IsU64}
use bmutil.Pow.Data as PowData
use bmutil.Wire.Obj.PubKeyData.{pow_or_default}
use bmutil.Wire.Obj.PubKeyData
use bmutil.Identity.{PublicKey}
use bmutil.Identity.PublicAddress.{
  full_address, new_public_address, PublicAddress, new_public_address-made,
}
use bmutil.Float.{max, max_uint64_exact}
use bmutil.Identity.PublicId.{
  PublicId, encode, decode, raised, new_public, new_public_id, pub_key_data, address,
}
use bmutil.Identity.PublicId.RoundTrip.{IsValid, text, received, Emits-encode, Parses-decode}
use bmutil.Error.Results.{and_then}
use bmutil.Address.{Address}

pub record IsRaised (pd : PowData.Data) : Type 0 where
  pub trials_ge : PowData.default_nonce_trials_per_byte ≤ pd.nonce_trials_per_byte
  pub trials_lt : pd.nonce_trials_per_byte < 2 ^ 53
  pub extra_ge : PowData.default_extra_bytes ≤ pd.extra_bytes
  pub extra_lt : pd.extra_bytes < 2 ^ 53

-- A difficulty whose numbers are below 2 ^ 53, if there is one
abbrev pub IsExact : Option PowData.Data → Type 0
IsExact none = Unit
IsExact (some pd) = (pd.nonce_trials_per_byte < 2 ^ 53) × (pd.extra_bytes < 2 ^ 53)

max_ge : (a b : ℕ) → a ≤ b → max a b ≡ b
unfolding max
max_ge a b h = ground arith

max_bounds : (a b n : ℕ) → a < n → b < n → (a ≤ max a b) × (max a b < n)
unfolding max
max_bounds a b n h k = (ground arith, ground arith)

pub raised-IsRaised : (o : ℕ) (pd : Option PowData.Data) → IsExact pd → IsRaised (raised o pd)
unfolding raised
raised-IsRaised o none h = record {
  trials_ge = omega arith;
  trials_lt = omega arith;
  extra_ge = omega arith;
  extra_lt = omega arith;
}
raised-IsRaised o (some pd) h =
    let t = max_bounds 1000 pd.nonce_trials_per_byte (2 ^ 53) (omega arith) h.0 in
    let x = max_bounds 1000 pd.extra_bytes (2 ^ 53) (omega arith) h.1 in
    rw
      (
        max_uint64_exact o 1000 pd.nonce_trials_per_byte (omega arith) h.0,
        max_uint64_exact o 1000 pd.extra_bytes (omega arith) h.1,
      )
      (record { trials_ge = t.0; trials_lt = t.1; extra_ge = x.0; extra_lt = x.1 })

pub raised-again : (o : ℕ) (pd : PowData.Data) → IsRaised pd → raised o (some pd) ≡ pd
unfolding raised
raised-again o pd h =
    rw
      (
        max_uint64_exact o 1000 pd.nonce_trials_per_byte (omega arith) h.trials_lt,
        max_uint64_exact o 1000 pd.extra_bytes (omega arith) h.extra_lt,
        max_ge 1000 pd.nonce_trials_per_byte h.trials_ge,
        max_ge 1000 pd.extra_bytes h.extra_ge,
      )
      refl

-- What comes back has the text of what was sent.
pub text-received :
    (L : Library) (o : ℕ) (id : PublicId L)
    → IsRaised (pow_or_default id.pow)
    → text L (received L o id) ≡ text L id
unfolding text received pub_key_data PubKeyData.simple_text PubKeyData.text pow_or_default
text-received L o id h = by_form (leb 3 id.public_address.version) refl
  where
    by_form :
        (c : Bool) → leb 3 id.public_address.version ≡ c → text L (received L o id) ≡ text L id
    by_form true e = rw (e, raised-again o (pow_or_default id.pow) h) refl
    by_form false e = rw e refl

made :
    (L : Library) (o : ℕ) (r : Result (PublicAddress L)) (behavior : ℕ) (pow : Option PowData.Data)
    (id : PublicId L)
    → and_then r (λ a. returned (new_public_id L o a behavior pow)) ≡ returned id
    → (a : PublicAddress L) × (r ≡ returned a) × (new_public_id L o a behavior pow ≡ id)
made L o (returned a) behavior pow id e = (a, refl, cc)
made L o (failed e') behavior pow id e = absurd (cc)

pub IsRaised-IsValid : (pd : PowData.Data) → IsRaised pd → PowData.IsValid pd
IsRaised-IsValid pd h = record {
  trials_fit = omega (arith, h.trials_lt);
  extra_fit = omega (arith, h.extra_lt);
}

module _ (L : Library) (o : ℕ) (a : PublicAddress L) (behavior : ℕ) (pow : Option PowData.Data)
    (exact : IsExact pow) where
  received_made :
      (c : Bool)
      → leb 3 a.version ≡ c
      → received L o (new_public_id L o a behavior pow) ≡ (
          if leb 3 a.version
          then new_public_id L o a behavior pow
          else record (new_public_id L o a behavior pow) { pow = some PowData.default_data })
  unfolding received new_public_id raised pow_or_default
  received_made true e = rw (e, raised-again o (raised o pow) (raised-IsRaised o pow exact)) refl
  received_made false e = rw e refl

  made-IsValid :
      (addr : Address)
      → full_address L a ≡ some addr
      → IsU64 a.stream
      → behavior < 256 ^ 4
      → IsValid L (new_public_id L o a behavior pow)
  unfolding new_public_id address pow_or_default raised
  made-IsValid addr e s b = record {
    its_address = addr;
    has_address = e;
    stream_fits = s;
    behavior_fits = b;
    pow_valid = IsRaised-IsValid (raised o pow) (raised-IsRaised o pow exact);
  }

-- An identity that `NewPublic` makes of a stream, a behavior and a difficulty in range is written by
-- `Encode`, and `Decode` makes the same identity of that text, whatever follows, for the version 4
-- and the version 3; for the version 2 it makes it with the default difficulty. Each proper prefix
-- of the text gives the end of the input. The keys are those of a lawful library, and the numbers
-- of the difficulty are below 2 ^ 53.
pub public_round_trip :
    (L : Library)
    → IsLawful L
    → (o : ℕ) (k : PublicKey L) (version stream behavior : ℕ) (pow : Option PowData.Data)
      (id : PublicId L)
    → new_public L o k version stream behavior pow ≡ returned id
    → IsU64 stream
    → behavior < 256 ^ 4
    → IsExact pow
    → Emits (encode L id) (text L id)
      × Parses
          (decode L o)
          (text L id)
          (if leb 3 version then id else record id { pow = some PowData.default_data })
unfolding new_public
public_round_trip L lawful o k version stream behavior pow id e stream_fits behavior_fits exact =
    let m = made L o (new_public_address L k version stream) behavior pow id e in
    let n = new_public_address-made L k version stream m.0 m.1 in
    let fields : PublicAddress L = record { public_key = k; version = version; stream = stream } in
    let addr : full_address L fields ≡ some n.1 = rw n.0 at n.2 in
    let same : new_public_id L o fields behavior pow ≡ id = rw n.0 at m.2 in
    let valid = made-IsValid L o fields behavior pow exact n.1 addr stream_fits behavior_fits in
    let P =
      rw (received_made L o fields behavior pow exact (leb 3 version) refl) at
        (Parses-decode L lawful o (new_public_id L o fields behavior pow) valid) in
    rw (← same) (Emits-encode L _ valid, P)

-- What comes back of an identity with such a difficulty has one again, and is valid again.
pub received-IsRaised :
    (L : Library) (o : ℕ) (id : PublicId L)
    → IsRaised (pow_or_default id.pow)
    → IsRaised (pow_or_default (received L o id).pow)
unfolding received pow_or_default
received-IsRaised L o id h =
    if_either (λ p. IsRaised (raised o p)) (leb 3 id.public_address.version)
      (λ _. raised-IsRaised o (some (pow_or_default id.pow)) (h.trials_lt, h.extra_lt))
      (λ _. raised-IsRaised o none tt)

pub received-IsValid :
    (L : Library) (o : ℕ) (id : PublicId L)
    → IsRaised (pow_or_default id.pow)
    → IsValid L id
    → IsValid L (received L o id)
unfolding received address
received-IsValid L o id h v = record {
  its_address = v.its_address;
  has_address = v.has_address;
  stream_fits = v.stream_fits;
  behavior_fits = v.behavior_fits;
  pow_valid = IsRaised-IsValid _ (received-IsRaised L o id h);
}
