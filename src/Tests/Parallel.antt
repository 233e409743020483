-- ===== src/Tests/Parallel.antt =====
-- `DoParallel`, with the function of Search in place of SHA-512.
use bmutil.Common.{ℕ, ◌≡◌, ◌+◌, refl, true, false, some, [], arith, suc}
use bmutil.Binary.{be_value, put_be}
use bmutil.Pow.Search.{check, double_sha512, do_sequential}
use bmutil.Pow.Parallel.{State, Step, Reach, start, start_workers, here}
use bmutil.Pow.Parallel.Safety.{do_parallel_sound}
use bmutil.Pow.Parallel.Progress.{do_parallel_progress}
use bmutil.Pow.Parallel.Schedule.{do_parallel_delivers}
use bmutil.Pow.Parallel.Panic.{do_parallel_panics}
use bmutil.Pow.Parallel.Alone.{do_parallel_alone}
use bmutil.Tests.Search.{mixed, trial_values}

both_pass : (check mixed 250 1 [] ≡ true) × (check mixed 250 2 [] ≡ true)
unfolding check double_sha512 be_value put_be
both_pass = (refl, refl)

do_parallel_panics_example :
    (s : State) × Reach mixed 250 [] 2 s × (s.returned ≡ some 1) × (s.channels.panicked ≡ true)
do_parallel_panics_example = do_parallel_panics mixed 250 [] both_pass.0 both_pass.1

do_parallel_sound_example : check mixed 250 1 [] ≡ true
do_parallel_sound_example =
    do_parallel_sound mixed 250 [] 2 do_parallel_panics_example.0 1 do_parallel_panics_example.1
      do_parallel_panics_example.2

do_parallel_progress_example : (t : State) × Step mixed 50 [] 2 (start 2) t
unfolding start start_workers
do_parallel_progress_example =
    do_parallel_progress mixed 50 [] 2 (start 2) (omega arith) here refl refl

do_parallel_delivers_example :
    (s : State) × (n : ℕ) × Reach mixed 50 [] 2 s
    × (s.returned ≡ some n)
    × (check mixed 50 n [] ≡ true)
do_parallel_delivers_example =
    do_parallel_delivers mixed 50 [] 2 0 1 (omega arith) (omega arith) trial_values.2

alone :
    (s : State) × (n : ℕ) × Reach mixed 50 [] 1 s
    × (s.returned ≡ some n)
    × (check mixed 50 n [] ≡ true)
alone = do_parallel_delivers mixed 50 [] 1 0 2 (omega arith) (omega arith) trial_values.2

do_parallel_alone_example :
    (alone.0.channels.panicked ≡ false)
    × (rounds : ℕ) × ((more : ℕ) → do_sequential mixed (rounds + suc more) 50 [] ≡ some alone.1)
do_parallel_alone_example = do_parallel_alone mixed 50 [] alone.0 alone.1 alone.2 alone.3
