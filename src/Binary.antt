-- ===== src/Binary.antt =====
-- `binary.BigEndian` of Go's `encoding/binary`: `PutUint16`, `PutUint32` and `PutUint64` are
-- `put_be` at 2, 4 and 8, and `Uint16`, `Uint32` and `Uint64` are `be_value` of that many bytes.
use native.Mathlib.Nat.{pow-suc}
use bmutil.Common.{
  ℕ, zero, suc, ◌+◌, ◌*◌, ◌/◌, ◌%◌, ◌^◌, ◌≤◌, ◌<◌, ◌≡◌, refl, ap, [], ◌∷◌, ◌++◌, Bytes, IsByte, All,
  All-append, length, length-append, arith,
}
use bmutil.Stream.{ok, ◌>>=◌, pure, Reader, read_full}
use bmutil.Stream.Parses.{Parses, Parses-map, Parses-read_full}
use bmutil.Stream.Yields.{Yields, Yields-bind, Yields-pure, Yields-read_full}

unfoldable pub put_be : ℕ → ℕ → Bytes
put_be zero v = []
put_be (suc n) v = put_be n (v / 256) ++ (v % 256 ∷ [])

be_from : ℕ → Bytes → ℕ
be_from acc [] = acc
be_from acc (b ∷ bs) = be_from (acc * 256 + b) bs

unfoldable pub be_value : Bytes → ℕ
unfolding be_from
be_value bs = be_from 0 bs

pub length-put_be : (n v : ℕ) → length (put_be n v) ≡ n
unfolding put_be
length-put_be zero v = refl
length-put_be (suc n) v =
    omega (arith, length-append (put_be n (v / 256)) (v % 256 ∷ []), length-put_be n (v / 256))

pub put_be-IsByte : (n v : ℕ) → All IsByte (put_be n v)
unfolding put_be
put_be-IsByte zero v = tt
put_be-IsByte (suc n) v =
    All-append IsByte (put_be n (v / 256)) _ (put_be-IsByte n (v / 256)) (omega arith)

be_from-append :
    (acc : ℕ) (bs : Bytes) (b : ℕ) → be_from acc (bs ++ (b ∷ [])) ≡ be_from acc bs * 256 + b
unfolding be_from
be_from-append acc [] b = refl
be_from-append acc (x ∷ bs) b = be_from-append (acc * 256 + x) bs b

-- What `PutUint` wrote, `Uint` reads.
pub be_value-put_be : (n v : ℕ) → v < 256 ^ n → be_value (put_be n v) ≡ v
unfolding put_be be_value
be_value-put_be zero v h = omega arith
be_value-put_be (suc n) v h = omega (
  arith,
  be_from-append 0 (put_be n (v / 256)) (v % 256),
  be_value-put_be n (v / 256) (omega arith),
)

scale : (a b q : ℕ) → a ≤ b → a * q ≤ b * q
scale a b q h = grind arith

be_from-lt : (acc : ℕ) (bs : Bytes) → All IsByte bs → be_from acc bs < (acc + 1) * 256 ^ length bs
unfolding be_from
be_from-lt acc [] h = omega arith
be_from-lt acc (b ∷ bs) h = omega (
  arith,
  be_from-lt (acc * 256 + b) bs h.1,
  scale (acc * 256 + b + 1) ((acc + 1) * 256) (256 ^ length bs) (omega arith),
  pow-suc 256 (length bs),
  ap (λ (t : ℕ). (acc + 1) * t) (pow-suc 256 (length bs)),
)

pub be_value-lt : (bs : Bytes) → All IsByte bs → be_value bs < 256 ^ length bs
unfolding be_value
be_value-lt bs h = omega (arith, be_from-lt 0 bs h)

-- `io.ReadFull(r, b)` for `n` bytes, then `binary.BigEndian` of them
unfoldable pub read_be : ℕ → Reader ℕ
read_be n = do b ← read_full n; pure (be_value b)

pub Parses-read_be : (n v : ℕ) → v < 256 ^ n → Parses (read_be n) (put_be n v) v
unfolding read_be
Parses-read_be n v h =
    Parses-map (λ b. pure (be_value b)) (Parses-read_full (put_be n v) n (length-put_be n v))
      (λ r. ap (λ x. ok x r) (be_value-put_be n v h))

pub Yields-read_be : (n : ℕ) → Yields (read_be n) (λ v. v < 256 ^ n)
unfolding read_be
Yields-read_be n =
    Yields-bind (λ b. pure (be_value b)) _ (Yields-read_full n)
      (λ b h. Yields-pure (be_value b) (rw h.0 at (be_value-lt b h.1)))

put_runs : put_be 4 0xe9beb4d9 ≡ 0xe9 ∷ 0xbe ∷ 0xb4 ∷ 0xd9 ∷ []
unfolding put_be
put_runs = refl
