-- ===== src/Common/ByteString.antt =====
-- Byte strings: a `[]byte` or a `string` is the list of its bytes.
use Prim.Native.Nat.{ℕ, ◌<◌}
use Prim.Native.Char.{code}
use Prim.Native.String.{String}
use mathlib.Core.Bool.{Bool, true, false, ◌&&◌}
use mathlib.Core.List.{List, [], ◌∷◌}
use mathlib.Core.Logic.{◌↔◌}
use mathlib.Core.Path.{◌≡◌}
use native.Mathlib.Omega.{arith}
use bmutil.Common.Tests.{◌==◌}

abbrev pub Bytes : Type 0
Bytes = List ℕ

abbrev pub IsByte : ℕ → Type 0
IsByte b = b < 256

-- The bytes of an ASCII text.
abbrev pub codes : String → Bytes
codes String.[] = []
codes (String.◌∷◌ c s) = code c ∷ codes s

-- `bytes.Equal`
unfoldable pub equal : Bytes → Bytes → Bool
equal [] [] = true
equal (x ∷ xs) (y ∷ ys) = x == y && equal xs ys
equal _ _ = false

-- It decides whether two byte strings are the same.
pub equal_iff : (left right : Bytes) → (equal left right ≡ true) ↔ (left ≡ right)
unfolding equal
equal_iff [] right = ground arith
equal_iff (b ∷ left) [] = ground arith
equal_iff (b ∷ left) (c ∷ right) = ground (arith, equal_iff left right)
