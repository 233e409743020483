-- ===== src/Identity/PrivateKey/Random.antt =====
-- `NewRandom`, and `NewHD` with the key derivation of hdkeychain as a parameter.
use bmutil.Common.{
  ℕ, zero, suc, ◌≤◌, ◌≡◌, refl, Bool, true, false, Option, none, some, ge→ltb, inl, inr, ◌⊎◌,
}
use bmutil.Error.{Result, returned, failed}
use bmutil.Crypto.{Library, IsLawful}
use bmutil.Identity.PrivateKey.{PrivateKey, found_hash, decide, random_loop, new_random}
use bmutil.Identity.PrivateKey.Search.{HasZeros, Finds, test_hash-short, found_iff}

module _ (L : Library) (lawful : IsLawful L) (keys : ℕ → Result L.PrivKey) (nulls : ℕ)
    (le : nulls ≤ 20) (signing : L.PrivKey) where
  abbrev pair : L.PrivKey → PrivateKey L
  pair decryption = record { signing = signing; decryption = decryption }

  -- One of the next calls makes a key whose ripe has enough null bytes, and none before it fails.
  abbrev pub HasKey : ℕ → ℕ → Type 0
  HasKey zero i = ⊥
  HasKey (suc fuel) i =
      (decryption : L.PrivKey) × (keys i ≡ returned decryption)
      × ((found_hash L nulls (pair decryption) ≡ true) ⊎ HasKey fuel (suc i))

  abbrev IsGood : PrivateKey L → Type 0
  IsGood pk = (pk.signing ≡ signing) × HasZeros L lawful nulls pk

  decided :
      (c : Bool) (decryption : L.PrivKey) (rest : Option (Result (PrivateKey L)))
      → found_hash L nulls (pair decryption) ≡ c
      → (c ≡ false → Finds L lawful (PrivateKey L) IsGood rest)
      → Finds L lawful (PrivateKey L) IsGood (decide L (returned c) (pair decryption) rest)
  decided true decryption rest e h = (refl, found_iff L lawful nulls (pair decryption) e)
  decided false decryption rest e h = h refl

  random_loop_lem :
      (fuel i : ℕ)
      → HasKey fuel i
      → Finds L lawful (PrivateKey L) IsGood (random_loop L keys nulls signing fuel i)
  unfolding random_loop
  random_loop_lem zero i h = absurd h
  random_loop_lem (suc fuel) i h =
      let rest = random_loop L keys nulls signing fuel (suc i) in
      rw (h.1, test_hash-short L lawful nulls (pair h.0) le)
        (decided (found_hash L nulls (pair h.0)) h.0 rest refl (λ miss. elim h.2 [
          | inl hit ↦ absurd (cc)
          | inr later ↦ random_loop_lem fuel (suc i) later
        ]))

  finds_some :
      (r : Option (Result (PrivateKey L)))
      → Finds L lawful (PrivateKey L) IsGood r
      → (pk : PrivateKey L) × (r ≡ some (returned pk)) × IsGood pk
  finds_some none h = absurd h
  finds_some (some (failed e)) h = absurd h
  finds_some (some (returned pk)) h = (pk, refl, h)

  -- `NewRandom` with 1 to 20 null bytes returns the first signing key, with a decryption key that makes
  -- the ripe start with that many null bytes, if one of the next `fuel` calls makes one and none
  -- before it fails. The library is lawful.
  pub new_random_lem :
      (fuel : ℕ)
      → 1 ≤ nulls
      → keys 0 ≡ returned signing
      → HasKey fuel 1
      → (pk : PrivateKey L) × (new_random L keys fuel nulls ≡ some (returned pk))
        × (pk.signing ≡ signing)
        × HasZeros L lawful nulls pk
  unfolding new_random
  new_random_lem fuel ge first h =
      let found = finds_some (random_loop L keys nulls signing fuel 1) (random_loop_lem fuel 1 h) in
      (found.0, rw (ge→ltb nulls 1 ge, first) found.1, found.2.0, found.2.1)
