-- ===== src/Hash/Hex.antt =====
-- Hexadecimal digits and back.
use bmutil.Common.{
  ℕ, ◌+◌, ◌*◌, ◌/◌, ◌%◌, ◌<◌, ◌≡◌, refl, [], ◌∷◌, Bytes, All, IsByte, length, some, arith,
}
use bmutil.Hash.{hex_digit, hex_value, to_string, hex_decode}

hex_value-hex_digit : (n : ℕ) → n < 16 → hex_value (hex_digit n) ≡ some n
unfolding hex_value hex_digit
hex_value-hex_digit n h = ground arith

pub hex_decode-to_string : (bs : Bytes) → All IsByte bs → hex_decode (to_string bs) ≡ some bs
unfolding hex_decode to_string
hex_decode-to_string [] h = refl
hex_decode-to_string (b ∷ bs) h =
    let high : b / 16 < 16 = omega arith in
    let low : b % 16 < 16 = omega arith in
    let same : b / 16 * 16 + b % 16 ≡ b = omega arith in
    rw
      (
        hex_value-hex_digit (b / 16) high,
        hex_value-hex_digit (b % 16) low,
        hex_decode-to_string bs h.1,
        same,
      )
      refl

pub length-to_string : (bs : Bytes) → length (to_string bs) ≡ length bs * 2
unfolding to_string
length-to_string [] = omega arith
length-to_string (b ∷ bs) = omega (arith, length-to_string bs)
