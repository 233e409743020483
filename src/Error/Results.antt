-- ===== src/Error/Results.antt =====
-- `if err != nil { return nil, err }`, one call after another.
use bmutil.Common.{◌≡◌, refl}
use bmutil.Error.{Result, returned, failed}

abbrev pub and_then {ℓ κ} : {A : Type ℓ} {B : Type κ} → Result A → (A → Result B) → Result B
and_then (returned a) f = f a
and_then (failed e) f = failed e

infixl 5 ◌>>=◌ ◌>>◌
abbrev pub ◌>>=◌ {ℓ κ} : {A : Type ℓ} {B : Type κ} → Result A → (A → Result B) → Result B
r >>= f = and_then r f

abbrev pub ◌>>◌ {ℓ} : {B : Type ℓ} → Result (Unit {0}) → Result B → Result B
r >> k = r >>= λ _. k

-- A chain that returns has returned at its first call.
pub and_then-returned {ℓ κ} :
    {A : Type ℓ} {B : Type κ} (r : Result A) (f : A → Result B) (b : B)
    → and_then r f ≡ returned b
    → (a : A) × (r ≡ returned a) × (f a ≡ returned b)
and_then-returned (returned a) f b e = (a, refl, e)
and_then-returned (failed e') f b e = absurd (cc)

pub returned_inj {ℓ} : {A : Type ℓ} {a b : A} → returned a ≡ returned b → a ≡ b
returned_inj e = cc
