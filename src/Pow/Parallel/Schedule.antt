-- ===== src/Pow/Parallel/Schedule.antt =====
-- Orders of the goroutines of `DoParallel`: one in which it returns, and one in which it panics.
use bmutil.Common.{
  ℕ, zero, suc, ◌+◌, ◌*◌, ◌<◌, ◌^◌, ◌≡◌, refl, true, false, List, [], ◌∷◌, ◌++◌, Bytes, Option,
  none, some, arith, Bool-cases, inl, inr,
}
use bmutil.Pow.Search.{check}
use bmutil.Pow.Parallel.Safety.{do_parallel_sound}
use bmutil.Pow.Parallel.{
  Worker, selecting, trying, sending, closing, Channels, State, Step, goroutine, receive, Steps,
  here, later, Reach, start, start_workers, worker_step, passes, advance, send,
}

-- Before anything is sent
abbrev pub quiet : Channels
quiet = record { nonce_value = none; done_closed = false; panicked = false }

split-start_workers :
    (n i j : ℕ)
    → j < n
    → (before : List Worker) × (after : List Worker) × (start_workers n i
        ≡ before ++ (selecting (i + j + 1) ∷ after))
unfolding start_workers
split-start_workers zero i j h = absurd (omega arith)
split-start_workers (suc n) i zero h =
    let e : i + 0 + 1 ≡ i + 1 = omega arith in ([], start_workers n (i + 1), rw e refl)
split-start_workers (suc n) i (suc j) h =
    let (before, after, q) = split-start_workers n (i + 1) j (omega arith) in
    let e : i + suc j + 1 ≡ i + 1 + j + 1 = omega arith in
    (selecting (i + 1) ∷ before, after, rw (e, q) refl)

module _ (sha512 : Bytes → Bytes) (target : ℕ) (initial_hash : Bytes) (parallel_count : ℕ) where
  abbrev Next : State → State → Type 0
  Next = Step sha512 target initial_hash parallel_count

  module _ (before after : List Worker) where
    -- All goroutines but one stand still.
    abbrev with_one : Worker → Channels → Option ℕ → State
    with_one w ch returned = record {
      workers = before ++ (w ∷ after);
      channels = ch;
      returned = returned;
    }

    select : (n : ℕ) → Next (with_one (selecting n) quiet none) (with_one (trying n) quiet none)
    unfolding worker_step
    select n = goroutine before (selecting n) after refl refl refl

    try_again :
        (n : ℕ)
        → passes sha512 target initial_hash n ≡ false
        → Next
            (with_one (trying n) quiet none)
            (with_one (selecting (advance parallel_count n)) quiet none)
    unfolding worker_step
    try_again n miss = goroutine before (trying n) after refl refl (rw miss refl)

    found :
        (n : ℕ)
        → passes sha512 target initial_hash n ≡ true
        → Next (with_one (trying n) quiet none) (with_one (sending n) quiet none)
    unfolding worker_step
    found n hit = goroutine before (trying n) after refl refl (rw hit refl)

    sent :
        (n : ℕ)
        → Next
            (with_one (sending n) quiet none)
            (with_one (closing n) (record quiet { nonce_value = some n }) none)
    unfolding worker_step send
    sent n = goroutine before (sending n) after refl refl refl

    received :
        (n : ℕ)
        → Next
            (with_one (closing n) (record quiet { nonce_value = some n }) none)
            (with_one (closing n) quiet (some n))
    received n = receive refl refl refl

    abbrev Delivery : State → Type 0
    Delivery s =
        (t : State) × (m : ℕ) × Steps sha512 target initial_hash parallel_count s t
        × (t.returned ≡ some m)

    deliver_now :
        (n : ℕ) (s : State)
        → passes sha512 target initial_hash n ≡ true
        → Steps sha512 target initial_hash parallel_count s (with_one (selecting n) quiet none)
        → Delivery s
    deliver_now n s now r = (
      with_one (closing n) quiet (some n),
      n,
      later (later (later (later r (select n)) (found n now)) (sent n)) (received n),
      refl,
    )

    -- The rounds of the one goroutine, from a nonce on, up to one that passes
    deliver :
        (d n k : ℕ) (s : State)
        → k ≡ n + d * parallel_count
        → k < 2 ^ 64
        → passes sha512 target initial_hash k ≡ true
        → Steps sha512 target initial_hash parallel_count s (with_one (selecting n) quiet none)
        → Delivery s
    unfolding advance
    deliver zero n k s e fits hit r =
        let same : k ≡ n = omega arith in deliver_now n s (rw same at hit) r
    deliver (suc d) n k s e fits hit r =
        let further : k ≡ n + parallel_count + d * parallel_count = omega arith in
        let no_wrap : advance parallel_count n ≡ n + parallel_count = omega arith in
        elim (Bool-cases (passes sha512 target initial_hash n)) [
          | inl now ↦ deliver_now n s now r
          | inr miss ↦
              deliver d (n + parallel_count) k s further fits hit
                (rw no_wrap at (later (later r (select n)) (try_again n miss)))
        ]

  -- If one of the goroutines has a nonce below 2 ^ 64 in its sequence that passes `Check`, there
  -- is an order of the steps in which `DoParallel` returns.
  pub do_parallel_delivers :
      (j d : ℕ)
      → j < parallel_count
      → j + 1 + d * parallel_count < 2 ^ 64
      → check sha512 target (j + 1 + d * parallel_count) initial_hash ≡ true
      → (s : State) × (n : ℕ) × Reach sha512 target initial_hash parallel_count s
        × (s.returned ≡ some n)
        × (check sha512 target n initial_hash ≡ true)
  unfolding start check passes
  do_parallel_delivers j d h fits hit =
      let (before, after, split) = split-start_workers parallel_count 0 j h in
      let first : 0 + j + 1 ≡ j + 1 = omega arith in
      let (t, m, r, e) =
        deliver before after d (j + 1) (j + 1 + d * parallel_count) (start parallel_count) refl fits
          hit (rw (split, first) here) in
      (t, m, r, e, do_parallel_sound sha512 target initial_hash parallel_count t m r e)
