-- ===== src/Stream.antt =====
-- Readers and writers. Go's `io.Reader` is the list of the bytes that are still to come, and its
-- `io.Writer` is a sink: a `bytes.Buffer`, or the `fixedWriter` of wire/fixed/fixedIO.go.
pub mod Parses
pub mod Yields
pub mod Emits
pub mod Run
use bmutil.Common.{
  ℕ, zero, suc, ◌+◌, Bool, true, List, [], ◌∷◌, ◌++◌, Bytes, length, take, drop, leb, ◌==◌,
  if◌then◌else◌, copy_zeroed,
}
use bmutil.Error.{Error, eof, unexpected_eof, short_write}

-- What a call returns, and the state that it leaves behind.
pub data Outcome {ℓ κ} (S : Type κ) (A : Type ℓ) : Type (ℓ ⊔ κ) where
  ok : A → S → Outcome S A
  err : Error → S → Outcome S A

-- `if err != nil { return err }` after the first call
abbrev pub and_then {ℓ κ μ} :
    {S : Type μ} {A : Type ℓ} {B : Type κ} → Outcome S A → (A → S → Outcome S B) → Outcome S B
and_then (ok a s) f = f a s
and_then (err e s) f = err e s

-- what a call leaves behind, whether it failed or not
abbrev pub state {ℓ κ} : {S : Type κ} {A : Type ℓ} → Outcome S A → S
state (ok a s) = s
state (err e s) = s

abbrev pub M {ℓ κ} : Type κ → Type ℓ → Type (ℓ ⊔ κ)
M S A = S → Outcome S A

infixl 5 ◌>>=◌ ◌>>◌
abbrev pub ◌>>=◌ {ℓ κ μ} : {S : Type μ} {A : Type ℓ} {B : Type κ} → M S A → (A → M S B) → M S B
◌>>=◌ m f s = and_then (m s) f

abbrev pub ◌>>◌ {ℓ κ} : {S : Type κ} {B : Type ℓ} → M S (Unit {0}) → M S B → M S B
m >> k = m >>= λ _. k

abbrev pub pure {ℓ κ} : {S : Type κ} {A : Type ℓ} → A → M S A
pure a s = ok a s

abbrev pub fail {ℓ κ} : {S : Type κ} {A : Type ℓ} → Error → M S A
fail e s = err e s

abbrev pub Reader {ℓ} : Type ℓ → Type ℓ
Reader A = M Bytes A

-- `io.ReadFull(r, b)` for a `b` of `n` bytes: a short input is used up.
unfoldable pub read_full : ℕ → Reader Bytes
read_full n r =
    if leb n (length r)
    then ok (take n r) (drop n r)
    else err (if length r == 0 then eof else unexpected_eof) []

-- `ioutil.ReadAll(r)`
unfoldable pub read_all : Reader Bytes
read_all r = ok r []

-- `buffer` is a `bytes.Buffer` with its contents. `fixed` is a `fixedWriter` with `cap(w.b)` and
-- the part of `w.b` before `w.pos`.
pub data Sink : Type 0 where
  buffer : Bytes → Sink
  fixed : ℕ → Bytes → Sink

unfoldable pub room : Sink → Bytes → Bool
room (buffer out) p = true
room (fixed max out) p = leb (length out + length p) max

-- The contents of a buffer, and `Bytes` of a `fixedWriter`: the whole of `w.b`
unfoldable pub written : Sink → Bytes
written (buffer out) = out
written (fixed max out) = copy_zeroed max out

unfoldable pub append : Sink → Bytes → Sink
append (buffer out) p = buffer (out ++ p)
append (fixed max out) p = fixed max (out ++ p)

abbrev pub Writer : Type 0
Writer = M Sink (Unit {0})

-- `w.Write(p)`
unfoldable pub write : Bytes → Writer
write p s = if room s p then ok tt (append s p) else err short_write s

-- `NewWriter` of fixedIO.go
pub new_writer : ℕ → Sink
new_writer max = fixed max []
