-- ===== src/Stream/Parses.antt =====
-- The contract of a reader on the bytes that a writer made: it reads them back whatever follows,
-- and it reports the end of the input on each proper prefix of them.
use bmutil.Common.{
  ℕ, ◌<◌, ◌≡◌, refl, ◌⊎◌, inl, inr, [], ◌∷◌, ◌++◌, Bytes, length, append_assoc, take-append,
  drop-append, length-append, overlap, arith, append-nil,
}
use bmutil.Error.{eof, unexpected_eof}
use bmutil.Stream.{Outcome, ok, err, and_then, ◌>>=◌, pure, Reader, read_full}

-- `io.EOF` or `io.ErrUnexpectedEOF`, with nothing left to read
abbrev pub IsStarved {ℓ} : {A : Type ℓ} → Outcome Bytes A → Type 0
IsStarved (ok a r) = ⊥
IsStarved (err e r) = ((e ≡ eof) ⊎ (e ≡ unexpected_eof)) × (r ≡ [])

pub record Parses {ℓ} {A : Type ℓ} (p : Reader A) (bs : Bytes) (v : A) : Type ℓ where
  pub whole : (rest : Bytes) → p (bs ++ rest) ≡ ok v rest
  pub cut : (front : Bytes) (x : ℕ) (back : Bytes) → bs ≡ front ++ (x ∷ back) → IsStarved (p front)

ne_nil : (front : Bytes) (x : ℕ) (back : Bytes) → [] ≡ front ++ (x ∷ back) → ⊥
ne_nil [] x back e = cc
ne_nil (y ∷ front) x back e = cc

module _ {ℓ κ} {A : Type ℓ} {B : Type κ} (f : A → Reader B) where
  and_then-IsStarved : (o : Outcome Bytes A) → IsStarved o → IsStarved (and_then o f)
  and_then-IsStarved (ok a r) h = absurd h
  and_then-IsStarved (err e r) h = h

-- One reader after another reads one text after another.
pub Parses-bind {ℓ κ} :
    {A : Type ℓ} {B : Type κ} {p : Reader A} (f : A → Reader B) {a b : Bytes} {x : A} {y : B}
    → Parses p a x
    → Parses (f x) b y
    → Parses (p >>= f) (a ++ b) y
Parses-bind {p = p} f {a = a} {b = b} {x = x} {y = y} P Q = record {
  whole = λ rest. rw (append_assoc, P.whole) (Q.whole rest);
  cut = λ front z back e. elim (overlap a b front z back e) [
    | inl (mid, q) ↦ and_then-IsStarved f (p front) (P.cut front z mid q)
    | inr (mid, q, q') ↦ rw (q, P.whole) (Q.cut mid z back q')
  ];
}

pub Parses-pure {ℓ} : {A : Type ℓ} (v : A) → Parses (pure v) [] v
Parses-pure v = record {
  whole = λ rest. refl;
  cut = λ front z back e. absurd (ne_nil front z back e);
}

-- A last step that reads nothing.
pub Parses-map {ℓ κ} :
    {A : Type ℓ} {B : Type κ} {p : Reader A} (f : A → Reader B) {a : Bytes} {x : A} {y : B}
    → Parses p a x
    → ((r : Bytes) → f x r ≡ ok y r)
    → Parses (p >>= f) a y
Parses-map {p = p} f {a = a} {x = x} P q = record {
  whole = λ rest. rw P.whole (q rest);
  cut = λ front z back e. and_then-IsStarved f (p front) (P.cut front z back e);
}

pub Parses-read_full : (bs : Bytes) (n : ℕ) → length bs ≡ n → Parses (read_full n) bs bs
unfolding read_full
Parses-read_full bs n h = record {
  whole = λ rest.
      rw (← h) (ground (arith, length-append bs rest, take-append bs rest, drop-append bs rest));
  cut = λ front z back e.
      let short : length front < length bs = rw e (omega (arith, length-append front (z ∷ back))) in
      short_read front n (rw h at short);
}
  where
    short_read : (r : Bytes) (n : ℕ) → length r < n → IsStarved (read_full n r)
    short_read r n h = ground arith

-- With nothing behind it the text is used up.
pub Parses-end {ℓ} :
    {A : Type ℓ} {p : Reader A} {bs : Bytes} {v : A} → Parses p bs v → p bs ≡ ok v []
Parses-end {bs = bs} P = rw (append-nil bs) at (P.whole [])
