-- ===== src/Pow/Parallel/Safety.antt =====
-- `DoParallel` returns only nonces that pass `Check`: an invariant of the steps.
use bmutil.Common.{
  ℕ, ◌≡◌, refl, Bool, true, false, List, [], ◌∷◌, ◌++◌, Bytes, All, ◌||◌, Option, none, some,
  if_either, All-append, suc, ◌+◌, zero,
}
use bmutil.Pow.Parallel.{
  Worker, selecting, trying, sending, closing, stopped, Channels, State, worker_step, passes,
  advance, send, start, Step, start_workers, goroutine, Reach, receive, later, here,
}
use bmutil.Pow.Search.{check}

abbrev pub is_some {ℓ} : {A : Type ℓ} → Option A → Bool
is_some (some x) = true
is_some none = false

-- A nonce has been sent.
abbrev pub delivered : Channels → Option ℕ → Bool
delivered ch returned = is_some ch.nonce_value || is_some returned

pub All-split {ℓ κ} :
    {A : Type ℓ} (P : A → Type κ) (xs : List A) (y : A) (zs : List A)
    → All P (xs ++ (y ∷ zs))
    → All P xs × P y × All P zs
All-split P [] y zs h = (tt, h.0, h.1)
All-split P (x ∷ xs) y zs h = let t = All-split P xs y zs h.1 in ((h.0, t.0), t.1, t.2)

pub All-imp {ℓ κ} :
    {A : Type ℓ} (P Q : A → Type κ) (xs : List A) → ((x : A) → P x → Q x) → All P xs → All Q xs
All-imp P Q [] k h = tt
All-imp P Q (x ∷ xs) k h = (k x h.0, All-imp P Q xs k h.1)

module _ (sha512 : Bytes → Bytes) (target : ℕ) (initial_hash : Bytes) (parallel_count : ℕ) where
  -- What a goroutine knows, where `d` says that a nonce has been sent, and `c` that `done` is closed
  abbrev pub Knows : Bool → Bool → Worker → Type 0
  Knows d c (sending n) = passes sha512 target initial_hash n ≡ true
  Knows d c (closing n) = d ≡ true
  Knows d c stopped = c ≡ true
  Knows d c (selecting n) = Unit
  Knows d c (trying n) = Unit

  abbrev pub Passing : Option ℕ → Type 0
  Passing (some n) = passes sha512 target initial_hash n ≡ true
  Passing none = Unit

  pub record Sound (ch : Channels) (returned : Option ℕ) : Type 0 where
    pub closed_late : ch.done_closed ≡ true → delivered ch returned ≡ true
    pub value_passes : Passing ch.nonce_value
    pub returned_passes : Passing returned

  pub record Inv (s : State) : Type 0 where
    pub known : All (Knows (delivered s.channels s.returned) s.channels.done_closed) s.workers
    pub sound : Sound s.channels s.returned

  Knows-mono :
      (d d' c c' : Bool) (w : Worker)
      → (d ≡ true → d' ≡ true)
      → (c ≡ true → c' ≡ true)
      → Knows d c w
      → Knows d' c' w
  Knows-mono d d' c c' (sending n) f g h = h
  Knows-mono d d' c c' (closing n) f g h = f h
  Knows-mono d d' c c' stopped f g h = g h
  Knows-mono d d' c c' (selecting n) f g h = tt
  Knows-mono d d' c c' (trying n) f g h = tt

  -- What a step of a goroutine keeps
  record Kept (ch : Channels) (returned : Option ℕ) (w' : Worker) (ch' : Channels) : Type 0 where
    knows : Knows (delivered ch' returned) ch'.done_closed w'
    sound : Sound ch' returned
    still_delivered : delivered ch returned ≡ true → delivered ch' returned ≡ true
    still_closed : ch.done_closed ≡ true → ch'.done_closed ≡ true

  abbrev Keeps : Channels → Option ℕ → Option (Worker × Channels) → Type 0
  Keeps ch returned (some (w', ch')) = Kept ch returned w' ch'
  Keeps ch returned none = Unit

  unchanged :
      (ch : Channels) (returned : Option ℕ) (w' : Worker)
      → Sound ch returned
      → Knows (delivered ch returned) ch.done_closed w'
      → Kept ch returned w' ch
  unchanged ch returned w' s k = record {
    knows = k;
    sound = s;
    still_delivered = λ h. h;
    still_closed = λ h. h;
  }

  Keeps-send :
      (ch : Channels) (returned value : Option ℕ) (n : ℕ)
      → ch.nonce_value ≡ value
      → Sound ch returned
      → passes sha512 target initial_hash n ≡ true
      → Keeps ch returned (send n value ch)
  unfolding send
  Keeps-send ch returned (some m) n e s p = tt
  Keeps-send ch returned none n e s p = record {
    knows = refl;
    sound = record {
      closed_late = λ _. refl;
      value_passes = p;
      returned_passes = s.returned_passes;
    };
    still_delivered = λ _. refl;
    still_closed = λ h. h;
  }

  Keeps-worker_step :
      (w : Worker) (ch : Channels) (returned : Option ℕ)
      → Sound ch returned
      → Knows (delivered ch returned) ch.done_closed w
      → Keeps ch returned (worker_step sha512 target initial_hash parallel_count w ch)
  unfolding worker_step
  Keeps-worker_step (selecting n) ch returned s k =
      if_either (λ w. Kept ch returned w ch) ch.done_closed (λ c. unchanged ch returned stopped s c)
        (λ _. unchanged ch returned (trying n) s tt)
  Keeps-worker_step (trying n) ch returned s k =
      if_either (λ w. Kept ch returned w ch) (passes sha512 target initial_hash n)
        (λ p. unchanged ch returned (sending n) s p)
        (λ _. unchanged ch returned (selecting (advance parallel_count n)) s tt)
  Keeps-worker_step (sending n) ch returned s k = Keeps-send ch returned ch.nonce_value n refl s k
  Keeps-worker_step (closing n) ch returned s k =
      if_either (λ m. Keeps ch returned (some m)) ch.done_closed
        (λ c. record {
          knows = c;
          sound = record {
            closed_late = s.closed_late;
            value_passes = s.value_passes;
            returned_passes = s.returned_passes;
          };
          still_delivered = λ h. h;
          still_closed = λ h. h;
        })
        (λ _. record {
          knows = tt;
          sound = record {
            closed_late = λ _. k;
            value_passes = s.value_passes;
            returned_passes = s.returned_passes;
          };
          still_delivered = λ h. h;
          still_closed = λ _. refl;
        })
  Keeps-worker_step stopped ch returned s k = tt

  goroutine-Inv :
      (s : State) (before : List Worker) (w : Worker) (after : List Worker) (w' : Worker)
      (ch : Channels)
      → Inv s
      → s.workers ≡ before ++ (w ∷ after)
      → worker_step sha512 target initial_hash parallel_count w s.channels ≡ some (w', ch)
      → Inv (record s { workers = before ++ (w' ∷ after); channels = ch })
  goroutine-Inv s before w after w' ch inv split e =
      let old = Knows (delivered s.channels s.returned) s.channels.done_closed in
      let new = Knows (delivered ch s.returned) ch.done_closed in
      let parts = All-split old before w after (rw split at inv.known) in
      let kept : Kept s.channels s.returned w' ch =
        rw e at (Keeps-worker_step w s.channels s.returned inv.sound parts.1) in
      let keep : (x : Worker) → old x → new x =
        λ x. Knows-mono _ _ _ _ x kept.still_delivered kept.still_closed in
      record {
        known =
            All-append new before (w' ∷ after) (All-imp old new before keep parts.0)
              (kept.knows, All-imp old new after keep parts.2);
        sound = kept.sound;
      }

  Step-Inv : {s t : State} → Step sha512 target initial_hash parallel_count s t → Inv s → Inv t
  Step-Inv {s} (goroutine before w after {w'} {ch} quiet split e) inv =
      goroutine-Inv s before w after w' ch inv split e
  Step-Inv {s} (receive {n} quiet waiting e) inv = record {
    known = All-imp _ _ s.workers (λ x. Knows-mono _ _ _ _ x (λ _. refl) (λ h. h)) inv.known;
    sound = record {
      closed_late = λ _. refl;
      value_passes = tt;
      returned_passes = rw e at inv.sound.value_passes;
    };
  }

  start-known : (n i : ℕ) → All (Knows false false) (start_workers n i)
  unfolding start_workers
  start-known zero i = tt
  start-known (suc n) i = (tt, start-known n (i + 1))

  -- The invariant holds in each state that the program reaches.
  pub Reach-Inv : {s : State} → Reach sha512 target initial_hash parallel_count s → Inv s
  unfolding start
  Reach-Inv here = record {
    known = start-known parallel_count 0;
    sound = record { closed_late = λ h. absurd (cc); value_passes = tt; returned_passes = tt };
  }
  Reach-Inv (later r st) = Step-Inv st (Reach-Inv r)

  -- In each state that the goroutines of `DoParallel` reach, whatever their order, a nonce that it
  -- returns passes `Check`.
  pub do_parallel_sound :
      (s : State) (n : ℕ)
      → Reach sha512 target initial_hash parallel_count s
      → s.returned ≡ some n
      → check sha512 target n initial_hash ≡ true
  unfolding check passes
  do_parallel_sound s n r e = rw e at (Sound.returned_passes (Inv.sound (Reach-Inv r)))
