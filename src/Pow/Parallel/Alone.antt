-- ===== src/Pow/Parallel/Alone.antt =====
-- `DoParallel` with one goroutine, against `DoSequential`.
use bmutil.Common.{
  ℕ, suc, ◌+◌, ◌≡◌, refl, Bool, true, false, List, [], ◌∷◌, ◌++◌, Bytes, Option, none, some, arith,
  if_either,
}
use bmutil.Pow.Search.{check, search, do_sequential, search-hit, search-miss}
use bmutil.Pow.Parallel.{
  Worker, selecting, trying, sending, closing, stopped, Channels, State, Step, goroutine, receive,
  here, later, Reach, start, start_workers, worker_step, passes, advance, send,
}

module _ (sha512 : Bytes → Bytes) (target : ℕ) (initial_hash : Bytes) where
  -- The search from 1 on comes to a nonce, or ends at it.
  abbrev Leads : ℕ → Type 0
  Leads n =
      (k : ℕ) × ((fuel : ℕ)
        → search sha512 (k + fuel) target 1 initial_hash ≡ search sha512 fuel target n initial_hash)

  abbrev Found : ℕ → Type 0
  Found n = (k : ℕ) × ((fuel : ℕ) → search sha512 (k + suc fuel) target 1 initial_hash ≡ some n)

  abbrev IsFound : Option ℕ → Type 0
  IsFound (some n) = Found n
  IsFound none = Unit

  -- What holds of the one goroutine, where `c` says that `done` is closed
  abbrev Phase : Bool → Worker → Type 0
  Phase c (selecting n) = c ≡ false → Leads n
  Phase c (trying n) = (c ≡ false) × Leads n
  Phase c (sending n) = (c ≡ false) × Found n
  Phase c (closing n) = c ≡ false
  Phase c stopped = Unit

  record Alone (w : Worker) (ch : Channels) : Type 0 where
    phase : Phase ch.done_closed w
    no_panic : ch.panicked ≡ false
    value_found : IsFound ch.nonce_value

  abbrev Keeps : Option (Worker × Channels) → Type 0
  Keeps none = Unit
  Keeps (some (w, ch)) = Alone w ch

  hit-Found : (n : ℕ) → Leads n → passes sha512 target initial_hash n ≡ true → Found n
  unfolding passes check
  hit-Found n (k, e) hit =
      (k, λ fuel. rw (e (suc fuel)) (search-hit sha512 fuel target n initial_hash hit))

  miss-Leads : (n : ℕ) → Leads n → passes sha512 target initial_hash n ≡ false → Leads (advance 1 n)
  unfolding passes check advance
  miss-Leads n (k, e) miss = (
    k + 1,
    λ fuel.
        let more : k + 1 + fuel ≡ k + suc fuel = omega arith in
        rw (more, e (suc fuel)) (search-miss sha512 fuel target n initial_hash miss),
  )

  Keeps-send :
      (n : ℕ) (value : Option ℕ) (ch : Channels) → Alone (sending n) ch → Keeps (send n value ch)
  unfolding send
  Keeps-send n (some m) ch a = tt
  Keeps-send n none ch a = record {
    phase = a.phase.0;
    no_panic = a.no_panic;
    value_found = a.phase.1;
  }

  Keeps-worker_step :
      (w : Worker) (ch : Channels)
      → Alone w ch
      → Keeps (worker_step sha512 target initial_hash 1 w ch)
  unfolding worker_step
  Keeps-worker_step (selecting n) ch a =
      if_either (λ w. Alone w ch) ch.done_closed
        (λ _. record { phase = tt; no_panic = a.no_panic; value_found = a.value_found })
        (λ c. record { phase = (c, a.phase c); no_panic = a.no_panic; value_found = a.value_found })
  Keeps-worker_step (trying n) ch a =
      if_either (λ w. Alone w ch) (passes sha512 target initial_hash n)
        (λ hit. record {
          phase = (a.phase.0, hit-Found n a.phase.1 hit);
          no_panic = a.no_panic;
          value_found = a.value_found;
        })
        (λ miss. record {
          phase = λ _. miss-Leads n a.phase.1 miss;
          no_panic = a.no_panic;
          value_found = a.value_found;
        })
  Keeps-worker_step (sending n) ch a = Keeps-send n ch.nonce_value ch a
  Keeps-worker_step (closing n) ch a =
      if_either (λ m. Keeps (some m)) ch.done_closed
        (λ c. let odd : false ≡ true = rw a.phase at c in absurd (cc))
        (λ _. record {
          phase = λ c. absurd (cc);
          no_panic = a.no_panic;
          value_found = a.value_found;
        })
  Keeps-worker_step stopped ch a = tt

  record Inv (s : State) : Type 0 where
    worker : Worker
    only : s.workers ≡ worker ∷ []
    alone : Alone worker s.channels
    returned_found : IsFound s.returned

  -- The one place where a list of one is cut
  data Cut (w : Worker) (before : List Worker) (v : Worker) (after : List Worker) : Type 0 where
    whole : before ≡ [] → v ≡ w → after ≡ [] → Cut w before v after

  cut :
      (w : Worker) (before : List Worker) (v : Worker) (after : List Worker)
      → w ∷ [] ≡ before ++ (v ∷ after)
      → Cut w before v after
  cut w [] v after e = whole refl (cc) (cc)
  cut w (x ∷ []) v after e = absurd (cc)
  cut w (x ∷ y ∷ before) v after e = absurd (cc)

  Step-Inv : {s t : State} → Step sha512 target initial_hash 1 s t → Inv s → Inv t
  Step-Inv {s} (goroutine before w after {w'} {ch} q split e) inv =
      elim (cut inv.worker before w after (rw inv.only at split)) [
        | whole b v a ↦
            let here_alone : Alone w s.channels = rw v inv.alone in
            record {
              worker = w';
              only = rw (b, a) refl;
              alone = rw e at (Keeps-worker_step w s.channels here_alone);
              returned_found = inv.returned_found;
            }
      ]
  Step-Inv {s} (receive {n} q r e) inv = record {
    worker = inv.worker;
    only = inv.only;
    alone = record { phase = inv.alone.phase; no_panic = inv.alone.no_panic; value_found = tt };
    returned_found = rw e at inv.alone.value_found;
  }

  Reach-Inv : {s : State} → Reach sha512 target initial_hash 1 s → Inv s
  unfolding start start_workers
  Reach-Inv here = record {
    worker = selecting 1;
    only = refl;
    alone = record {
      phase = λ _. (0, λ fuel. let e : 0 + fuel ≡ fuel = omega arith in rw e refl);
      no_panic = refl;
      value_found = tt;
    };
    returned_found = tt;
  }
  Reach-Inv (later r st) = Step-Inv st (Reach-Inv r)

  -- Where `DoParallel` with one goroutine has returned a nonce, nothing has panicked, and the nonce
  -- is the one that `DoSequential` returns after some number of rounds and after any greater number.
  pub do_parallel_alone :
      (s : State) (n : ℕ)
      → Reach sha512 target initial_hash 1 s
      → s.returned ≡ some n
      → (s.channels.panicked ≡ false)
        × (rounds : ℕ) × ((more : ℕ)
            → do_sequential sha512 (rounds + suc more) target initial_hash ≡ some n)
  unfolding do_sequential
  do_parallel_alone s n r e =
      let inv = Reach-Inv r in
      let found : Found n = rw e at inv.returned_found in (inv.alone.no_panic, found.0, found.1)
