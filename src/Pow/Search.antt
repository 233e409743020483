-- ===== src/Pow/Search.antt =====
-- pow/pow.go: `Check` and `DoSequential`. `hash.Sha512` is a parameter, since it calls Go's
-- `crypto/sha512`. The loop of `DoSequential` runs on fuel: none means that it is still running.
use bmutil.Common.{
  ℕ, zero, suc, ◌+◌, ◌%◌, ◌^◌, ◌≤◌, ◌<◌, ◌≡◌, refl, sym, ap, Bool, true, false, ◌++◌, Bytes, take,
  leb, if◌then◌else◌, Option, none, some, arith, ◌-◌, Bool-cases, inl, inr,
}
use bmutil.Binary.{be_value, put_be}
use bmutil.Pow.{nonce_bytes}

module _ (sha512 : Bytes → Bytes) where
  -- `hash.DoubleSha512`
  unfoldable pub double_sha512 : Bytes → Bytes
  double_sha512 b = sha512 (sha512 b)

  unfoldable pub check : ℕ → ℕ → Bytes → Bool
  unfolding double_sha512
  check target nonce message =
      leb (be_value (take 8 (double_sha512 (nonce_bytes nonce ++ message)))) target

  -- the loop of `DoSequential` from a nonce on
  pub search : ℕ → ℕ → ℕ → Bytes → Option ℕ
  unfolding double_sha512
  search zero target nonce initial_hash = none
  search (suc fuel) target nonce initial_hash =
      let trial_value = be_value (take 8 (double_sha512 (put_be 8 nonce ++ initial_hash))) in
      let rest = search fuel target ((nonce + 1) % 2 ^ 64) initial_hash in
      if leb trial_value target then some nonce else rest

  unfoldable pub do_sequential : ℕ → ℕ → Bytes → Option ℕ
  unfolding search
  do_sequential fuel target initial_hash = search fuel target 1 initial_hash

  -- One round of the search
  pub search-hit :
      (fuel target nonce : ℕ) (message : Bytes)
      → check target nonce message ≡ true
      → search (suc fuel) target nonce message ≡ some nonce
  unfolding search check
  search-hit fuel target nonce message hit = rw hit refl

  pub search-miss :
      (fuel target nonce : ℕ) (message : Bytes)
      → check target nonce message ≡ false
      → search (suc fuel) target nonce message ≡ search fuel target ((nonce + 1) % 2 ^ 64) message
  unfolding search check
  search-miss fuel target nonce message miss = rw miss refl

  -- From a nonce on, the search finds the first that passes the check.
  search-check :
      (d fuel start n target : ℕ) (message : Bytes)
      → n ≡ start + d
      → n < 2 ^ 64
      → d < fuel
      → check target n message ≡ true
      → ((m : ℕ) → start ≤ m → m < n → check target m message ≡ false)
      → search fuel target start message ≡ some n
  unfolding search check
  search-check d zero start n target message e b f hit misses = absurd (omega arith)
  search-check zero (suc fuel) start n target message e b f hit misses =
      let here : n ≡ start = omega arith in rw (rw here at hit) (ap some (sym here))
  search-check (suc d) (suc fuel) start n target message e b f hit misses =
      let next : (start + 1) % 2 ^ 64 ≡ start + 1 = omega arith in
      rw (misses start (omega arith) (omega arith), next)
        (search-check d fuel (start + 1) n target message (omega arith) b (omega arith) hit
          (λ m h k. misses m (omega arith) k))

  -- Where some nonce from 1 on and below 2 ^ 64 passes `Check` and no smaller one from 1 on does,
  -- `DoSequential` returns it, if it has at least that many rounds.
  do_sequential_finds :
      (n fuel target : ℕ) (message : Bytes)
      → 1 ≤ n
      → n < 2 ^ 64
      → n ≤ fuel
      → check target n message ≡ true
      → ((m : ℕ) → 1 ≤ m → m < n → check target m message ≡ false)
      → do_sequential fuel target message ≡ some n
  unfolding do_sequential
  do_sequential_finds n fuel target message p b f hit misses =
      search-check (n - 1) fuel 1 n target message (omega arith) b (omega arith) hit misses

  go_on :
      (fuel target start : ℕ) (message : Bytes)
      → check target start message ≡ false
      → start + 1 < 2 ^ 64
      → (m : ℕ) × (search fuel target (start + 1) message ≡ some m)
      → (m : ℕ) × (search (suc fuel) target start message ≡ some m)
  go_on fuel target start message miss h (m, e) =
      let next : (start + 1) % 2 ^ 64 ≡ start + 1 = omega arith in
      (m, rw (search-miss fuel target start message miss, next) e)

  -- If the search comes to a nonce that passes the check, it returns one.
  search_returns :
      (d fuel start n target : ℕ) (message : Bytes)
      → n ≡ start + d
      → n < 2 ^ 64
      → d < fuel
      → check target n message ≡ true
      → (m : ℕ) × (search fuel target start message ≡ some m)
  search_returns d zero start n target message e b f hit = absurd (omega arith)
  search_returns zero (suc fuel) start n target message e b f hit =
      let here : n ≡ start = omega arith in
      (start, search-hit fuel target start message (rw here at hit))
  search_returns (suc d) (suc fuel) start n target message e b f hit =
      elim (Bool-cases (check target start message)) [
        | inl here ↦ (start, search-hit fuel target start message here)
        | inr miss ↦
            go_on fuel target start message miss (omega arith)
              (search_returns d fuel (start + 1) n target message (omega arith) b (omega arith) hit)
      ]

  -- `DoSequential` returns if some nonce from 1 on passes `Check`, and it has as many rounds.
  pub do_sequential_returns :
      (n fuel target : ℕ) (message : Bytes)
      → 1 ≤ n
      → n < 2 ^ 64
      → n ≤ fuel
      → check target n message ≡ true
      → (m : ℕ) × (do_sequential fuel target message ≡ some m)
  unfolding do_sequential
  do_sequential_returns n fuel target message p b f hit =
      search_returns (n - 1) fuel 1 n target message (omega arith) b (omega arith) hit

  search_sound :
      (fuel target start n : ℕ) (message : Bytes)
      → search fuel target start message ≡ some n
      → check target n message ≡ true
  unfolding search check
  search_sound zero target start n message h = absurd (cc)
  search_sound (suc fuel) target start n message h =
      elim (Bool-cases (check target start message)) [
        | inl hit ↦ let same : start ≡ n = cc (rw hit at h) in rw (← same) hit
        | inr miss ↦ search_sound fuel target ((start + 1) % 2 ^ 64) n message (rw miss at h)
      ]

  -- A nonce that `DoSequential` returns passes `Check`, however long it ran.
  pub do_sequential_sound :
      (fuel target n : ℕ) (message : Bytes)
      → do_sequential fuel target message ≡ some n
      → check target n message ≡ true
  unfolding do_sequential
  do_sequential_sound fuel target n message h = search_sound fuel target 1 n message h
