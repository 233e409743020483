-- ===== src/Common/Zeroed.antt =====
-- `var a [n]byte; copy(a[:], src)`: an array of zeros with `src` copied over its front.
use Prim.Native.Nat.{ℕ, zero, suc, ◌-◌}
use mathlib.Core.List.{[], ◌∷◌, ◌++◌, append-nil}
use mathlib.Core.Path.{◌≡◌, refl, ap}
use native.Mathlib.Omega.{arith}
use bmutil.Common.ByteString.{Bytes, IsByte}
use bmutil.Common.Lists.{
  length, take, replicate, All, All-append, All-take, length-append, length-take, length-replicate,
}

unfoldable pub copy_zeroed : ℕ → Bytes → Bytes
copy_zeroed n src = take n src ++ replicate (n - length src) 0

take_all : (n : ℕ) (xs : Bytes) → length xs ≡ n → take n xs ≡ xs
take_all zero [] h = refl
take_all zero (x ∷ xs) h = absurd (omega arith)
take_all (suc n) [] h = refl
take_all (suc n) (x ∷ xs) h = ap (◌∷◌ x) (take_all n xs (omega arith))

pub length-copy_zeroed : (n : ℕ) (src : Bytes) → length (copy_zeroed n src) ≡ n
unfolding copy_zeroed
length-copy_zeroed n src = omega (
  arith,
  length-append (take n src) (replicate (n - length src) 0),
  length-take n src,
  length-replicate {A = ℕ} (n - length src) 0,
)

pub replicate-IsByte : (n : ℕ) → All IsByte (replicate n 0)
replicate-IsByte zero = tt
replicate-IsByte (suc n) = (omega arith, replicate-IsByte n)

pub copy_zeroed-IsByte : (n : ℕ) (src : Bytes) → All IsByte src → All IsByte (copy_zeroed n src)
unfolding copy_zeroed
copy_zeroed-IsByte n src h =
    All-append IsByte (take n src) _ (All-take IsByte n src h) (replicate-IsByte (n - length src))

-- A source of the array's length is the array.
pub copy_zeroed_all : (n : ℕ) (src : Bytes) → length src ≡ n → copy_zeroed n src ≡ src
unfolding copy_zeroed
copy_zeroed_all n src h =
    let none_left : n - length src ≡ 0 = omega arith in
    rw (none_left, take_all n src h) (append-nil src)
