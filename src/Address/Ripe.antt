-- ===== src/Address/Ripe.antt =====
-- The front of a ripe: the null bytes that a text leaves out, and that `DecodeAddress` puts back.
use bmutil.Common.{
  ℕ, zero, suc, ◌≡◌, ◌≤◌, ◌-◌, ◌+◌, refl, [], ◌∷◌, ◌++◌, Bytes, length, replicate, arith, All,
  IsByte, ap, copy_zeroed_all, length-append, length-replicate, true, false, Bool, ◌==◌, ==_iff,
  if◌then◌else◌,
}
use bmutil.Address.{trim_left, exclude_nulls, exclude_null, pad}

-- What stands behind some null bytes
abbrev pub IsTail : Bytes → Bytes → Type 0
IsTail r t = (k : ℕ) × (replicate k 0 ++ t ≡ r)

abbrev pub IsTrimmed : Bytes → Type 0
IsTrimmed [] = Unit
IsTrimmed (b ∷ bs) = (b == 0) ≡ false

IsTail-∷ : (b : ℕ) (bs t : Bytes) → b ≡ 0 → IsTail bs t → IsTail (b ∷ bs) t
IsTail-∷ b bs t z (k, e) = (suc k, rw (z, e) refl)

trim_step :
    (c : Bool) (b : ℕ) (bs t : Bytes)
    → (b == 0) ≡ c
    → IsTail bs t × IsTrimmed t
    → IsTail (b ∷ bs) (if c then t else b ∷ bs) × IsTrimmed (if c then t else b ∷ bs)
trim_step true b bs t e h = (IsTail-∷ b bs t ((==_iff b 0).0 e) h.0, h.1)
trim_step false b bs t e h = ((0, refl), e)

-- Trimming takes null bytes away, all of them.
pub trim_left_lem : (r : Bytes) → IsTail r (trim_left r) × IsTrimmed (trim_left r)
unfolding trim_left
trim_left_lem [] = ((0, refl), tt)
trim_left_lem (b ∷ bs) = trim_step (b == 0) b bs (trim_left bs) refl (trim_left_lem bs)

pub length-IsTail : (r t : Bytes) → (h : IsTail r t) → h.0 + length t ≡ length r
length-IsTail r t (k, e) =
    let whole : length (replicate k 0 ++ t) ≡ length r = ap length e in
    omega (arith, length-append (replicate k 0) t, length-replicate k zero)

-- A ripe of 20 bytes is made again of any part behind null bytes.
pub pad-IsTail : (r t : Bytes) → length r ≡ 20 → IsTail r t → pad t ≡ r
unfolding pad
pad-IsTail r t n (k, e) =
    let gap : 20 - length t ≡ k = omega (arith, length-IsTail r t (k, e)) in
    rw (gap, e) (copy_zeroed_all 20 r n)

exclude_step :
    (c : Bool) (b : ℕ) (bs t : Bytes)
    → (b == 0) ≡ c
    → IsTail bs t
    → IsTail (b ∷ bs) (if c then t else b ∷ bs)
exclude_step true b bs t e h = IsTail-∷ b bs t ((==_iff b 0).0 e) h
exclude_step false b bs t e h = (0, refl)

exclude_null-IsTail : (r : Bytes) → IsTail r (exclude_null r)
unfolding exclude_null
exclude_null-IsTail [] = (0, refl)
exclude_null-IsTail (b ∷ bs) = exclude_step (b == 0) b bs bs refl (0, refl)

-- The two tests take null bytes away, two at most, and they take one where there is one.
pub exclude_nulls-IsTail : (r : Bytes) → IsTail r (exclude_nulls r)
unfolding exclude_nulls
exclude_nulls-IsTail [] = (0, refl)
exclude_nulls-IsTail (b ∷ bs) =
    exclude_step (b == 0) b bs (exclude_null bs) refl (exclude_null-IsTail bs)

length-exclude_null :
    (r : Bytes) → (length (exclude_null r) ≤ length r) × (length r ≤ length (exclude_null r) + 1)
unfolding exclude_null
length-exclude_null [] = (omega arith, omega arith)
length-exclude_null (b ∷ bs) = ground arith

pub length-exclude_nulls :
    (b : ℕ) (bs : Bytes)
    → length bs ≤ length (exclude_nulls (b ∷ bs)) + 1
      × ((b == 0) ≡ true → length (exclude_nulls (b ∷ bs)) ≤ length bs)
      × ((b == 0) ≡ false → length (exclude_nulls (b ∷ bs)) ≡ length bs + 1)
unfolding exclude_nulls
length-exclude_nulls b bs = ground (arith, length-exclude_null bs)

-- The parts of a text of bytes
pub IsTail-IsByte : (r t : Bytes) → IsTail r t → All IsByte r → All IsByte t
IsTail-IsByte r t (k, e) h = behind k t (rw (← e) at h)
  where
    behind : (k : ℕ) (t : Bytes) → All IsByte (replicate k 0 ++ t) → All IsByte t
    behind zero t h = h
    behind (suc k) t h = behind k t h.1
