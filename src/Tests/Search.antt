-- ===== src/Tests/Search.antt =====
-- pow/pow.go, with a function in place of SHA-512: the trial values of the nonces 1, 2 and 3 are 100,
-- 200 and 44.
use bmutil.Common.{◌≡◌, refl, ◌*◌, ◌%◌, true, false, [], Bytes}
use bmutil.Binary.{be_value, put_be}
use bmutil.Pow.Search.{check, double_sha512}

-- Ten times the number in the first eight bytes, modulo 256
abbrev pub mixed : Bytes → Bytes
mixed b = put_be 8 (be_value b * 10 % 256)

pub trial_values :
    (check mixed 50 1 [] ≡ false) × (check mixed 50 2 [] ≡ false) × (check mixed 50 3 [] ≡ true)
unfolding check double_sha512 be_value put_be
trial_values = (refl, refl, refl)
