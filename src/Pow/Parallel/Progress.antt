-- ===== src/Pow/Parallel/Progress.antt =====
-- `DoParallel` does not come to a stop before it returns.
use bmutil.Common.{
  ℕ, zero, suc, ◌+◌, ◌≤◌, ◌≡◌, ◌≢◌, refl, true, false, List, [], ◌∷◌, ◌++◌, Bytes, length,
  length-append, Option, none, some, arith, ap,
}
use bmutil.Pow.Parallel.{
  Worker, selecting, trying, sending, closing, stopped, Channels, State, Step, goroutine, receive,
  here, later, Reach, start, start_workers, worker_step, send,
}
use bmutil.Pow.Parallel.Safety.{Inv, Reach-Inv, delivered}

length-start_workers : (n i : ℕ) → length (start_workers n i) ≡ n
unfolding start_workers
length-start_workers zero i = refl
length-start_workers (suc n) i = ap suc (length-start_workers n (i + 1))

module _ (sha512 : Bytes → Bytes) (target : ℕ) (initial_hash : Bytes) (parallel_count : ℕ) where
  -- Each goroutine that was started is still there, or has returned.
  length-Reach :
      {s : State}
      → Reach sha512 target initial_hash parallel_count s
      → length s.workers ≡ parallel_count
  unfolding start
  length-Reach here = length-start_workers parallel_count 0
  length-Reach (later {t = t} r (goroutine before w after {w'} {ch} q split e)) =
      let whole : length t.workers ≡ parallel_count = length-Reach r in
      let parts : length (before ++ (w ∷ after)) ≡ parallel_count = rw split at whole in
      omega (arith, length-append before (w ∷ after), length-append before (w' ∷ after))
  length-Reach (later r (receive q w e)) = length-Reach r

  -- Before `done` is closed, a goroutine that need not wait can go on.
  moves :
      (w : Worker) (ch : Channels)
      → ch.nonce_value ≡ none
      → w ≢ stopped
      → (m : Worker × Channels) × (worker_step sha512 target initial_hash parallel_count w ch
          ≡ some m)
  unfolding worker_step send
  moves (selecting n) ch e k = (_, refl)
  moves (trying n) ch e k = (_, refl)
  moves (sending n) ch e k = ((closing n, record ch { nonce_value = some n }), rw e refl)
  moves (closing n) ch e k = (_, refl)
  moves stopped ch e k = absurd (k refl)

  first_moves :
      (s : State) (w : Worker) (ws : List Worker)
      → s.workers ≡ w ∷ ws
      → s.channels.panicked ≡ false
      → s.channels.nonce_value ≡ none
      → w ≢ stopped
      → (t : State) × Step sha512 target initial_hash parallel_count s t
  first_moves s w ws split q e k =
      let (m, step) = moves w s.channels e k in (_, goroutine [] w ws q split step)

  -- No goroutine has returned while nothing has been sent.
  none_stopped :
      (s : State) (w : Worker) (ws : List Worker)
      → Inv sha512 target initial_hash parallel_count s
      → s.workers ≡ w ∷ ws
      → s.channels.nonce_value ≡ none
      → s.returned ≡ none
      → w ≢ stopped
  none_stopped s w ws inv split e r z =
      let all = rw (split, z) at inv.known in
      let sent : delivered s.channels s.returned ≡ true = inv.sound.closed_late (all.0) in
      let kept : false ≡ true = rw (e, r) at sent in cc

  can_move :
      (s : State) (ws : List Worker) (value : Option ℕ)
      → 1 ≤ length ws
      → s.workers ≡ ws
      → s.channels.nonce_value ≡ value
      → Inv sha512 target initial_hash parallel_count s
      → s.channels.panicked ≡ false
      → s.returned ≡ none
      → (t : State) × Step sha512 target initial_hash parallel_count s t
  can_move s [] value some_worker split e inv q r = absurd (omega arith)
  can_move s (w ∷ ws) (some n) some_worker split e inv q r = (_, receive q r e)
  can_move s (w ∷ ws) none some_worker split e inv q r =
      first_moves s w ws split q e (none_stopped s w ws inv split e r)

  -- With one goroutine at least, each state that is reached before `DoParallel` returns has a next
  -- step, unless a goroutine has panicked: the goroutines and the channels never deadlock.
  pub do_parallel_progress :
      (s : State)
      → 1 ≤ parallel_count
      → Reach sha512 target initial_hash parallel_count s
      → s.channels.panicked ≡ false
      → s.returned ≡ none
      → (t : State) × Step sha512 target initial_hash parallel_count s t
  do_parallel_progress s some_worker r q waiting =
      can_move s s.workers s.channels.nonce_value (rw (length-Reach r) some_worker) refl refl
        (Reach-Inv sha512 target initial_hash parallel_count r) q waiting
