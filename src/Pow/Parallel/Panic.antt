-- ===== src/Pow/Parallel/Panic.antt =====
-- An order of two goroutines of `DoParallel` in which both find a nonce.
use bmutil.Common.{ℕ, ◌≡◌, refl, true, [], ◌∷◌, Bytes, some}
use bmutil.Pow.Search.{check}
use bmutil.Pow.Parallel.{
  selecting, trying, sending, closing, State, goroutine, receive, here, later, Reach, start,
  start_workers, worker_step, passes, advance, send,
}
use bmutil.Pow.Parallel.Schedule.{quiet}

module _ (sha512 : Bytes → Bytes) (target : ℕ) (initial_hash : Bytes) where
  -- Where the nonces 1 and 2 both pass `Check`, there is an order of the steps of two goroutines in
  -- which `DoParallel` returns 1 and the program then panics: the second goroutine to send its
  -- nonce closes `done` again.
  pub do_parallel_panics :
      check sha512 target 1 initial_hash ≡ true
      → check sha512 target 2 initial_hash ≡ true
      → (s : State) × Reach sha512 target initial_hash 2 s
        × (s.returned ≡ some 1)
        × (s.channels.panicked ≡ true)
  unfolding check passes start start_workers worker_step send advance
  do_parallel_panics one two =
      let selected =
        later (later here (goroutine [] (selecting 1) (selecting 2 ∷ []) refl refl refl))
          (goroutine (trying 1 ∷ []) (selecting 2) [] refl refl refl) in
      let found =
        later
          (later selected (
            goroutine [] (trying 1) (trying 2 ∷ []) {w' = sending 1} {ch = quiet} refl refl
              (rw one refl)))
          (goroutine (sending 1 ∷ []) (trying 2) [] {w' = sending 2} {ch = quiet} refl refl
            (rw two refl)) in
      let first_sent =
        later (later found (goroutine [] (sending 1) (sending 2 ∷ []) refl refl refl))
          (receive refl refl refl) in
      let both_sent = later first_sent (goroutine (closing 1 ∷ []) (sending 2) [] refl refl refl) in
      let closed = later both_sent (goroutine [] (closing 1) (closing 2 ∷ []) refl refl refl) in
      (_, later closed (goroutine (selecting 3 ∷ []) (closing 2) [] refl refl refl), refl, refl)
