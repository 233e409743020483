-- ===== src/Pow/Parallel.antt =====
-- pow/pow.go: `DoParallel`, as steps of its goroutines on the two channels. A panic ends the
-- program. The hash is a parameter, as in `DoSequential`.
pub mod Safety
pub mod Progress
pub mod Schedule
pub mod Panic
pub mod Alone
use bmutil.Common.{
  ℕ, zero, suc, ◌+◌, ◌%◌, ◌^◌, ◌≡◌, Bool, true, false, List, [], ◌∷◌, ◌++◌, Bytes, take, leb,
  if◌then◌else◌, Option, none, some,
}
use bmutil.Binary.{be_value, put_be}
use bmutil.Pow.Search.{double_sha512}

-- Where a goroutine is, with its `nonce`
pub data Worker : Type 0 where
  selecting : (nonce : ℕ) → Worker  -- at the `select`
  trying : (nonce : ℕ) → Worker  -- in its default case
  sending : (nonce : ℕ) → Worker  -- at `nonceValue <- Nonce(nonce)`
  closing : (nonce : ℕ) → Worker  -- at `close(done)`
  stopped : Worker

-- The channel `nonceValue` with its buffer of one place, and the channel `done`
pub record Channels : Type 0 where
  pub nonce_value : Option ℕ
  pub done_closed : Bool
  pub panicked : Bool

-- `returned` is what the last line, the receive from `nonceValue`, returns.
pub record State : Type 0 where
  pub workers : List Worker
  pub channels : Channels
  pub returned : Option ℕ

-- the goroutines `j` from the one of index `i` on
unfoldable pub start_workers : ℕ → ℕ → List Worker
start_workers zero i = []
start_workers (suc n) i = selecting (i + 1) ∷ start_workers n (i + 1)

unfoldable pub start : ℕ → State
unfolding start_workers
start parallel_count = record {
  workers = start_workers parallel_count 0;
  channels = record { nonce_value = none; done_closed = false; panicked = false };
  returned = none;
}

-- `nonce += uint64(parallelCount)`
unfoldable pub advance : ℕ → ℕ → ℕ
advance parallel_count nonce = (nonce + parallel_count) % 2 ^ 64

-- A send waits while the buffer is full.
unfoldable pub send : ℕ → Option ℕ → Channels → Option (Worker × Channels)
send nonce (some n) ch = none
send nonce none ch = some (closing nonce, record ch { nonce_value = some nonce })

module _ (sha512 : Bytes → Bytes) (target : ℕ) (initial_hash : Bytes) where
  unfoldable pub passes : ℕ → Bool
  passes nonce =
      leb (be_value (take 8 (double_sha512 sha512 (put_be 8 nonce ++ initial_hash)))) target

module _ (sha512 : Bytes → Bytes) (target : ℕ) (initial_hash : Bytes) (parallel_count : ℕ) where
  -- The next step of a goroutine, if it is not waiting and has not returned
  unfoldable pub worker_step : Worker → Channels → Option (Worker × Channels)
  worker_step (selecting nonce) ch = some (if ch.done_closed then stopped else trying nonce, ch)
  worker_step (trying nonce) ch = some (
    if passes sha512 target initial_hash nonce
        then sending nonce
        else selecting (advance parallel_count nonce),
    ch,
  )
  worker_step (sending nonce) ch = send nonce ch.nonce_value ch
  worker_step (closing nonce) ch = some (
      if ch.done_closed
      then (stopped, record ch { panicked = true })
      else (selecting (advance parallel_count nonce), record ch { done_closed = true }))
  worker_step stopped ch = none

  pub data Step (s : State) : State → Type 0 where
    goroutine :
        (before : List Worker) (w : Worker) (after : List Worker) {w' : Worker} {ch : Channels}
        → s.channels.panicked ≡ false
        → s.workers ≡ before ++ (w ∷ after)
        → worker_step w s.channels ≡ some (w', ch)
        → Step s (record s { workers = before ++ (w' ∷ after); channels = ch })
    receive :
        {n : ℕ}
        → s.channels.panicked ≡ false
        → s.returned ≡ none
        → s.channels.nonce_value ≡ some n
        → Step s
            (record s { channels = record s.channels { nonce_value = none }; returned = some n })

  pub data Steps (s : State) : State → Type 0 where
    here : Steps s s
    later : {t u : State} → Steps s t → Step t u → Steps s u

  abbrev pub Reach : State → Type 0
  Reach s = Steps (start parallel_count) s
