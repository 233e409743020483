-- ===== src/Float.antt =====
-- The arithmetic of float64 on whole numbers, for identity/publicid.go and pow/pow.go: a float64
-- that is a whole number is that number, and a uint64 becomes one of 53 bits, rounded to the nearest
-- and then to the even.
use bmutil.Common.{
  ℕ, zero, suc, ◌+◌, ◌*◌, ◌/◌, ◌%◌, ◌^◌, ◌<◌, ◌≡◌, refl, ◌&&◌, ◌||◌, ltb, leb, ◌==◌, if◌then◌else◌,
  arith, lt→ltb,
}

-- The number of bits to take off, at most `fuel`
unfoldable pub excess : ℕ → ℕ → ℕ
excess zero n = 0
excess (suc fuel) n = let rest = excess fuel (n / 2) in if ltb n (2 ^ 53) then 0 else suc rest

-- the nearest multiple of `unit`, and of two the even one
unfoldable pub to_nearest : ℕ → ℕ → ℕ
to_nearest unit n =
    let q = n / unit in
    let r = n % unit in
    if ltb unit (2 * r) || ((2 * r == unit) && (q % 2 == 1)) then (q + 1) * unit else q * unit

-- `float64` of a uint64, which has at most 11 bits more
unfoldable pub float64 : ℕ → ℕ
unfolding excess to_nearest
float64 n = to_nearest (2 ^ excess 11 n) n

-- A whole number below 2 ^ 181 as a float64: the sum or the product of two of them
unfoldable pub rounded : ℕ → ℕ
unfolding excess to_nearest
rounded n = to_nearest (2 ^ excess 128 n) n

unfoldable pub max : ℕ → ℕ → ℕ
max a b = if leb a b then b else a

-- `uint64` of a float64. The Go specification leaves to the implementation what it makes of a number
-- out of range, here 2 ^ 64.
unfoldable pub to_uint64 : ℕ → ℕ → ℕ
to_uint64 out_of_range x = if ltb x (2 ^ 64) then x else out_of_range

-- `uint64(math.Max(float64(a), float64(b)))`
unfoldable pub max_uint64 : ℕ → ℕ → ℕ → ℕ
unfolding float64 max to_uint64
max_uint64 out_of_range a b = to_uint64 out_of_range (max (float64 a) (float64 b))

excess_none : (fuel n : ℕ) → n < 2 ^ 53 → excess fuel n ≡ 0
unfolding excess
excess_none zero n h = refl
excess_none (suc fuel) n h = rw (lt→ltb n (2 ^ 53) h) refl

to_nearest_one : (n : ℕ) → to_nearest 1 n ≡ n
unfolding to_nearest
to_nearest_one n = ground arith

pub float64_exact : (n : ℕ) → n < 2 ^ 53 → float64 n ≡ n
unfolding float64
float64_exact n h = rw (excess_none 11 n h) (to_nearest_one n)

pub rounded_exact : (n : ℕ) → n < 2 ^ 53 → rounded n ≡ n
unfolding rounded
rounded_exact n h = rw (excess_none 128 n h) (to_nearest_one n)

pub to_uint64_fits : (o x : ℕ) → x < 2 ^ 64 → to_uint64 o x ≡ x
unfolding to_uint64
to_uint64_fits o x h = rw (lt→ltb x (2 ^ 64) h) refl

max_lt : (a b n : ℕ) → a < n → b < n → max a b < n
unfolding max
max_lt a b n h k = ground arith

-- Below 2 ^ 53 nothing is rounded.
pub max_uint64_exact :
    (out_of_range a b : ℕ) → a < 2 ^ 53 → b < 2 ^ 53 → max_uint64 out_of_range a b ≡ max a b
unfolding max_uint64
max_uint64_exact o a b h k =
    let fits : max a b < 2 ^ 64 = omega (arith, max_lt a b (2 ^ 53) h k) in
    rw (float64_exact a h, float64_exact b k) (to_uint64_fits o (max a b) fits)
