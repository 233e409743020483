-- ===== src/Identity/PrivateKey/Search.antt =====
-- The searches for a ripe with null bytes at its front.
use bmutil.Common.{
  ℕ, zero, suc, ◌+◌, ◌*◌, ◌%◌, ◌^◌, [], ◌∷◌, ◌≤◌, ◌<◌, ◌≡◌, refl, List, Bytes, Bool, true, false,
  Option, none, some, take, length, replicate, equal_iff, arith, ap, ap₂, ◌∙◌, inl, inr, All,
  ge→ltb, lt→ltb, ◌⊎◌,
}
use bmutil.Error.{Result, returned, failed, index_out_of_range}
use bmutil.Crypto.{Library, IsLawful}
use bmutil.Identity.{hash-IsByte}
use bmutil.Identity.PrivateKey.{
  PrivateKey, public, private_hash, found_hash, test_hash, decide, derived, next_nonce, Found,
  find_key, add_key, with_found, find_keys, new_deterministic,
}

module _ (L : Library) (lawful : IsLawful L) where
  -- The first bytes of the ripe are null.
  abbrev pub HasZeros : ℕ → PrivateKey L → Type 0
  HasZeros initial_zeros pk = take initial_zeros (private_hash L pk) ≡ replicate initial_zeros 0

  pub test_hash-short :
      (nulls : ℕ) (pk : PrivateKey L)
      → nulls ≤ 20
      → test_hash L nulls pk ≡ returned (found_hash L nulls pk)
  unfolding test_hash private_hash
  test_hash-short nulls pk h =
      let sized = hash-IsByte L lawful (public L pk) in rw sized.0 (rw (ge→ltb 20 nulls h) refl)

  pub found_iff : (nulls : ℕ) (pk : PrivateKey L) → found_hash L nulls pk ≡ true → HasZeros nulls pk
  unfolding found_hash
  found_iff nulls pk e = (equal_iff _ _).0 e

  -- the nonces of round `i`, and the key that is made of them
  abbrev signing_nonce : ℕ → ℕ
  signing_nonce i = (2 * i) % 2 ^ 64

  abbrev decryption_nonce : ℕ → ℕ
  decryption_nonce i = (2 * i + 1) % 2 ^ 64

  abbrev pub key_of_round : Bytes → ℕ → PrivateKey L
  key_of_round passphrase i = derived L passphrase (signing_nonce i) (decryption_nonce i)

  -- Each key is that of a later round than the one before, and the first of the round `i` or a later one.
  abbrev pub AreOfRounds : Bytes → ℕ → List (PrivateKey L) → Type 0
  AreOfRounds passphrase i [] = Unit
  AreOfRounds passphrase i (pk ∷ pks) =
      (j : ℕ) × (i ≤ j) × (pk ≡ key_of_round passphrase j) × AreOfRounds passphrase (suc j) pks

  next_signing : (i : ℕ) → next_nonce (signing_nonce i) ≡ signing_nonce (suc i)
  unfolding next_nonce
  next_signing i = omega arith

  next_decryption : (i : ℕ) → next_nonce (decryption_nonce i) ≡ decryption_nonce (suc i)
  unfolding next_nonce
  next_decryption i = omega arith

  -- Within `fuel` rounds from two nonces on there is a key with enough null bytes.
  abbrev pub HasHit : Bytes → ℕ → ℕ → ℕ → ℕ → Type 0
  HasHit passphrase nulls zero s d = ⊥
  HasHit passphrase nulls (suc fuel) s d =
      (found_hash L nulls (derived L passphrase s d) ≡ true)
      ⊎ HasHit passphrase nulls fuel (next_nonce s) (next_nonce d)

  -- A search that has ended with keys
  abbrev pub Finds : (A : Type 0) → (A → Type 0) → Option (Result A) → Type 0
  Finds A P none = ⊥
  Finds A P (some (failed e)) = ⊥
  Finds A P (some (returned a)) = P a

  Finds-imp :
      (A : Type 0) (P Q : A → Type 0) (r : Option (Result A))
      → Finds A P r
      → ((a : A) → P a → Q a)
      → Finds A Q r
  Finds-imp A P Q none h k = h
  Finds-imp A P Q (some (failed e)) h k = h
  Finds-imp A P Q (some (returned a)) h k = k a h

  decided :
      (A : Type 0) (P : A → Type 0) (c : Bool) (a : A) (rest : Option (Result A))
      → (c ≡ true → P a)
      → (c ≡ false → Finds A P rest)
      → Finds A P (decide L (returned c) a rest)
  decided A P true a rest h k = h refl
  decided A P false a rest h k = k refl

  module _ (passphrase : Bytes) (nulls : ℕ) (nulls_le : nulls ≤ 20) where
    -- What was found in the round `j` or a later one, with the nonces of the round behind it
    abbrev Good : ℕ → Found L → Type 0
    Good j f =
        HasZeros nulls f.private_key
        × (i : ℕ) × (j ≤ i)
        × (f.private_key ≡ key_of_round passphrase i)
        × (f.signing_nonce ≡ signing_nonce (suc i))
        × (f.decryption_nonce ≡ decryption_nonce (suc i))

    sooner : (j : ℕ) (f : Found L) → Good (suc j) f → Good j f
    sooner j f (zeros, i, later, made, s, d) = (zeros, i, omega (arith, later), made, s, d)

    find_key_lem :
        (fuel j s d : ℕ)
        → s ≡ signing_nonce j
        → d ≡ decryption_nonce j
        → HasHit passphrase nulls fuel s d
        → Finds (Found L) (Good j) (find_key L passphrase nulls fuel s d)
    unfolding find_key
    find_key_lem zero j s d es ed h = absurd h
    find_key_lem (suc fuel) j s d es ed h =
        let pk = derived L passphrase s d in
        let found : Found L = record {
          private_key = pk;
          signing_nonce = next_nonce s;
          decryption_nonce = next_nonce d;
        } in
        let rest = find_key L passphrase nulls fuel (next_nonce s) (next_nonce d) in
        let es' : next_nonce s ≡ signing_nonce (suc j) = ap next_nonce es ∙ next_signing j in
        let ed' : next_nonce d ≡ decryption_nonce (suc j) = ap next_nonce ed ∙ next_decryption j in
        let made : pk ≡ key_of_round passphrase j = ap₂ (derived L passphrase) es ed in
        rw (test_hash-short nulls pk nulls_le) (
          decided (Found L) (Good j) (found_hash L nulls pk) found rest
            (λ hit. (found_iff nulls pk hit, j, omega arith, made, es', ed'))
            (λ miss. elim h [
              | inl hit ↦ absurd (cc)
              | inr later ↦
                  Finds-imp (Found L) (Good (suc j)) (Good j) rest
                    (find_key_lem fuel (suc j) (next_nonce s) (next_nonce d) es' ed' later)
                    (sooner j)
            ]))

    abbrev Keys : ℕ → ℕ → List (PrivateKey L) → Type 0
    Keys n j pks = (length pks ≡ n) × All (HasZeros nulls) pks × AreOfRounds passphrase j pks

    added :
        (n j i : ℕ) (pk : PrivateKey L) (more : Option (Result (List (PrivateKey L))))
        → HasZeros nulls pk
        → j ≤ i
        → pk ≡ key_of_round passphrase i
        → Finds (List (PrivateKey L)) (Keys n (suc i)) more
        → Finds (List (PrivateKey L)) (Keys (suc n) j) (add_key L pk more)
    added n j i pk none h later made k = k
    added n j i pk (some (failed e)) h later made k = k
    added n j i pk (some (returned pks)) h later made k =
        (ap suc k.0, (h, k.1), (i, later, made, k.2))

    module _ (fuel : ℕ) (hits : (s d : ℕ) → HasHit passphrase nulls fuel s d) where
      all_found :
          (n j : ℕ) (r : Option (Result (Found L)))
          (more : ℕ → ℕ → Option (Result (List (PrivateKey L))))
          → Finds (Found L) (Good j) r
          → ((i s d : ℕ)
              → s ≡ signing_nonce i
              → d ≡ decryption_nonce i
              → Finds (List (PrivateKey L)) (Keys n i) (more s d))
          → Finds (List (PrivateKey L)) (Keys (suc n) j) (with_found L more r)
      all_found n j none more h k = absurd h
      all_found n j (some (failed e)) more h k = absurd h
      all_found n j (some (returned f)) more (zeros, i, later, made, es, ed) k =
          added n j i f.private_key (more f.signing_nonce f.decryption_nonce) zeros later made
            (k (suc i) f.signing_nonce f.decryption_nonce es ed)

      find_keys_lem :
          (n j s d : ℕ)
          → s ≡ signing_nonce j
          → d ≡ decryption_nonce j
          → Finds (List (PrivateKey L)) (Keys n j) (find_keys L passphrase nulls fuel n s d)
      unfolding find_keys
      find_keys_lem zero j s d es ed = (refl, tt, tt)
      find_keys_lem (suc n) j s d es ed =
          all_found n j (find_key L passphrase nulls fuel s d)
            (λ s' d'. find_keys L passphrase nulls fuel n s' d')
            (find_key_lem fuel j s d es ed (hits s d))
            (λ i s' d' es' ed'. find_keys_lem n i s' d' es' ed')

    finds_some :
        (n : ℕ) (r : Option (Result (List (PrivateKey L))))
        → Finds (List (PrivateKey L)) (Keys n 0) r
        → (pks : List (PrivateKey L)) × (r ≡ some (returned pks)) × Keys n 0 pks
    finds_some n none h = absurd h
    finds_some n (some (failed e)) h = absurd h
    finds_some n (some (returned pks)) h = (pks, refl, h)

  -- `NewDeterministic` with 1 to 20 null bytes returns as many keys as it is asked for, each of them with a
  -- ripe that starts with that many null bytes, and each made in a later round than the one before,
  -- where round `i` makes its two keys of the passphrase and the nonces 2 * i and 2 * i + 1, modulo
  -- 2 ^ 64; if from any two nonces on one of the next `fuel` rounds makes such a key. The library is
  -- lawful.
  pub new_deterministic_lem :
      (fuel : ℕ) (passphrase : Bytes) (nulls n : ℕ)
      → 1 ≤ nulls
      → nulls ≤ 20
      → ((s d : ℕ) → HasHit passphrase nulls fuel s d)
      → (pks : List (PrivateKey L)) × (new_deterministic L fuel passphrase nulls n
          ≡ some (returned pks))
        × (length pks ≡ n)
        × All (HasZeros nulls) pks
        × AreOfRounds passphrase 0 pks
  unfolding new_deterministic
  new_deterministic_lem fuel passphrase nulls n ge le hits =
      let keys = find_keys_lem passphrase nulls le fuel hits n 0 0 1 refl refl in
      let some_keys = finds_some passphrase nulls le n _ keys in
      (some_keys.0, rw (ge→ltb nulls 1 ge) some_keys.1, some_keys.2.0, some_keys.2.1, some_keys.2.2)

  -- More than 20 null bytes make it panic, as soon as a key is asked for.
  pub new_deterministic_panics :
      (fuel : ℕ) (passphrase : Bytes) (nulls n : ℕ)
      → 20 < nulls
      → new_deterministic L (suc fuel) passphrase nulls (suc n) ≡ some (failed index_out_of_range)
  unfolding new_deterministic find_keys find_key test_hash private_hash
  new_deterministic_panics fuel passphrase nulls n h =
      let sized = hash-IsByte L lawful (public L (derived L passphrase 0 1)) in
      rw (ge→ltb nulls 1 (omega arith)) (rw sized.0 (rw (lt→ltb 20 nulls h) refl))
