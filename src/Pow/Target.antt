-- ===== src/Pow/Target.antt =====
-- pow/pow.go: `CalculateTarget`, which multiplies the life time of an object with its length as
-- float64. A division by 0, which panics, is `none`.
use bmutil.Common.{
  ℕ, ◌+◌, ◌*◌, ◌/◌, ◌%◌, ◌^◌, ◌-◌, ◌<◌, ◌≤◌, ◌≡◌, ◌==◌, if◌then◌else◌, Option, none, some, arith,
}
use bmutil.Float.{float64, rounded, to_uint64, float64_exact, rounded_exact, to_uint64_fits}
use bmutil.Pow.Data.{Data}

-- `uint64(float64(ttl) * (float64(payloadLength) + float64(extraBytes)) / math.Pow(2, 16))`: the
-- division by a power of two is exact, and `uint64` drops what is behind the point.
unfoldable pub life_time_bytes : ℕ → ℕ → ℕ → ℕ → ℕ
unfolding float64 rounded to_uint64
life_time_bytes out_of_range payload_length ttl extra_bytes =
    let bytes = rounded (float64 payload_length + float64 extra_bytes) in
    to_uint64 out_of_range (rounded (float64 ttl * bytes) / 2 ^ 16)

unfoldable quotient : ℕ → ℕ → Option ℕ
quotient a b = if b == 0 then none else some (a / b)

unfoldable pub calculate_target : ℕ → ℕ → ℕ → Data → Option ℕ
unfolding life_time_bytes quotient
calculate_target out_of_range payload_length ttl pd =
    let life = life_time_bytes out_of_range payload_length ttl pd.extra_bytes in
    let bytes = ((payload_length + pd.extra_bytes) % 2 ^ 64 + life) % 2 ^ 64 in
    quotient (2 ^ 64 - 1) ((pd.nonce_trials_per_byte * bytes) % 2 ^ 64)

-- The length of an object with the extra bytes, and for each 2 ^ 16 seconds of its life that again
abbrev pub padded_length : ℕ → ℕ → ℕ → ℕ
padded_length payload_length ttl extra_bytes =
    payload_length + extra_bytes + ttl * (payload_length + extra_bytes) / 2 ^ 16

life_time_bytes_exact :
    (o l t e : ℕ)
    → l + e < 2 ^ 53
    → t < 2 ^ 53
    → t * (l + e) < 2 ^ 53
    → life_time_bytes o l t e ≡ t * (l + e) / 2 ^ 16
unfolding life_time_bytes
life_time_bytes_exact o l t e s h p =
    rw
      (
        float64_exact l (omega (arith, s)),
        float64_exact e (omega (arith, s)),
        float64_exact t h,
        rounded_exact (l + e) s,
        rounded_exact (t * (l + e)) p,
      )
      (to_uint64_fits o (t * (l + e) / 2 ^ 16) (omega arith))

quotient_pos : (a b : ℕ) → 1 ≤ b → quotient a b ≡ some (a / b)
unfolding quotient
quotient_pos a b h = ground arith

-- What the sums and the product of a uint64 keep
no_wrap :
    (b q n : ℕ)
    → b < 2 ^ 53
    → q < 2 ^ 53
    → n * (b + q) < 2 ^ 64
    → (n * ((b % 2 ^ 64 + q) % 2 ^ 64)) % 2 ^ 64 ≡ n * (b + q)
no_wrap b q n h k fits =
    let first : b % 2 ^ 64 ≡ b = omega arith in
    let second : (b + q) % 2 ^ 64 ≡ b + q = omega arith in rw (first, second) (omega arith)

-- The target of `CalculateTarget` is the one of the protocol, 2 ^ 64 - 1 divided by the trials for
-- each byte of the padded length, and rounded down, if the product of the life time and the length
-- with the extra bytes is below 2 ^ 53, as each of them is, and the divisor is positive and below
-- 2 ^ 64.
pub calculate_target_exact :
    (out_of_range payload_length ttl : ℕ) (pd : Data)
    → payload_length + pd.extra_bytes < 2 ^ 53
    → ttl < 2 ^ 53
    → ttl * (payload_length + pd.extra_bytes) < 2 ^ 53
    → 1 ≤ pd.nonce_trials_per_byte * padded_length payload_length ttl pd.extra_bytes
    → pd.nonce_trials_per_byte * padded_length payload_length ttl pd.extra_bytes < 2 ^ 64
    → calculate_target out_of_range payload_length ttl pd
      ≡ some (
          (2 ^ 64 - 1)
          / (pd.nonce_trials_per_byte * padded_length payload_length ttl pd.extra_bytes))
unfolding calculate_target
calculate_target_exact o l t pd s h p pos fits =
    let bytes = l + pd.extra_bytes in
    let small : t * bytes / 2 ^ 16 < 2 ^ 53 = omega arith in
    rw
      (
        life_time_bytes_exact o l t pd.extra_bytes s h p,
        no_wrap bytes (t * bytes / 2 ^ 16) pd.nonce_trials_per_byte s small fits,
      )
      (quotient_pos (2 ^ 64 - 1) _ pos)
