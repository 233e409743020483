-- ===== src/Stream/Run.antt =====
-- A writer on a new `bytes.Buffer`, and a reader on the bytes of one.
use bmutil.Common.{◌≡◌, refl, [], Bytes}
use bmutil.Error.{Result, returned, failed}
use bmutil.Stream.{Outcome, ok, err, and_then, Sink, Reader, Writer, M, buffer, written, pure, fail}
use bmutil.Stream.Emits.{Emits, Emits-buffer}
use bmutil.Stream.Parses.{Parses, Parses-pure}

abbrev written_of : Outcome Sink (Unit {0}) → Result Bytes
written_of (ok u s) = returned (written s)
written_of (err e s) = failed e

-- `b.Bytes()` after the calls on `var b bytes.Buffer`
abbrev pub text_by : Writer → Result Bytes
text_by w = written_of (w (buffer []))

abbrev result_of {ℓ} : {A : Type ℓ} → Outcome Bytes A → Result A
result_of (ok a rest) = returned a
result_of (err e rest) = failed e

-- what a reader makes of the bytes, with what is left of them dropped
abbrev pub read_from {ℓ} : {A : Type ℓ} → Reader A → Bytes → Result A
read_from p bs = result_of (p bs)

-- a result in the middle of a reader or a writer
abbrev pub lift {ℓ κ} : {S : Type κ} {A : Type ℓ} → Result A → M S A
lift (returned a) = pure a
lift (failed e) = fail e

pub text_by-Emits : (w : Writer) {bs : Bytes} → Emits w bs → text_by w ≡ returned bs
unfolding written
text_by-Emits w {bs} e = rw (Emits-buffer w bs [] e)

pub Parses-lift {ℓ} : {A : Type ℓ} (r : Result A) (a : A) → r ≡ returned a → Parses (lift r) [] a
Parses-lift r a e = rw e (Parses-pure a)

pub ok_inj {ℓ κ} : {S : Type κ} {A : Type ℓ} {a b : A} {s t : S} → ok a s ≡ ok b t → a ≡ b
ok_inj e = cc

-- A reader that returns has done so with some bytes left.
pub read_from-ok {ℓ} :
    {A : Type ℓ} (p : Reader A) (bs : Bytes) (a : A)
    → read_from p bs ≡ returned a
    → (rest : Bytes) × (p bs ≡ ok a rest)
read_from-ok {A = A} p bs a e = left (p bs) e
  where
    left : (o : Outcome Bytes A) → result_of o ≡ returned a → (rest : Bytes) × (o ≡ ok a rest)
    left (ok b rest) e = (rest, cc)
    left (err e' rest) e = absurd (cc)

-- A chain of readers that returns has returned at its first one.
pub and_then-ok {ℓ κ} :
    {A : Type ℓ} {B : Type κ} (o : Outcome Bytes A) (f : A → Reader B) (b : B) (rest : Bytes)
    → and_then o f ≡ ok b rest
    → (a : A) × (middle : Bytes) × (o ≡ ok a middle) × (f a middle ≡ ok b rest)
and_then-ok (ok a middle) f b rest e = (a, middle, refl, e)
and_then-ok (err e' middle) f b rest e = absurd (cc)
