-- ===== src/Types/VarBytes.antt =====
-- The length-prefixed strings and byte arrays of types.go: round trip, limit and bounds.
use bmutil.Common.{
  ℕ, ◌≡◌, Bytes, length, ◌≤◌, ◌<◌, refl, ◌++◌, IsByte, All, ltb, ltb→ge, ge→ltb, lt→ltb, if_either,
  arith,
}
use bmutil.Types.{
  IsU64, limited, read_var_string, write_var_string, read_var_bytes, write_var_bytes,
}
use bmutil.Types.VarInt.{var_int, Parses-var_int, Emits-var_int, Yields-var_int}
use bmutil.Error.{Error, var_string_too_long, var_bytes_too_long}
use bmutil.Stream.{err}
use bmutil.Stream.Parses.{Parses, Parses-bind, Parses-read_full}
use bmutil.Stream.Emits.{Emits, Emits-bind, Emits-write}
use bmutil.Stream.Yields.{Yields, Yields-bind, Yields-imp, Yields-fail, Yields-read_full}

-- The text of a string: its length and its bytes.
unfoldable pub var_bytes : Bytes → Bytes
var_bytes bs = var_int (length bs) ++ bs

pub Parses-limited :
    (e : Error) (max : ℕ) (bs : Bytes) → length bs ≤ max → Parses (limited e max (length bs)) bs bs
unfolding limited
Parses-limited e max bs h = rw (ge→ltb max (length bs) h) (Parses-read_full bs (length bs) refl)

pub Yields-limited :
    (e : Error) (max count : ℕ)
    → Yields (limited e max count) (λ bs. (length bs ≤ max) × All IsByte bs)
unfolding limited
Yields-limited e max count =
    if_either (λ p. Yields p (λ bs. (length bs ≤ max) × All IsByte bs)) (ltb max count)
      (λ p. Yields-fail e _)
      (λ p.
        Yields-imp _ (Yields-read_full count)
          (λ bs h. (omega (arith, ltb→ge max count p, h.0), h.1)))

module _ (max : ℕ) (bs : Bytes) (h : length bs ≤ max) (k : IsU64 (length bs)) where
  pub Parses-var_string : Parses (read_var_string max) (var_bytes bs) bs
  unfolding read_var_string var_bytes
  Parses-var_string =
      Parses-bind (limited var_string_too_long max) (Parses-var_int (length bs) k)
        (Parses-limited _ max bs h)

  pub Parses-var_bytes : Parses (read_var_bytes max) (var_bytes bs) bs
  unfolding read_var_bytes var_bytes
  Parses-var_bytes =
      Parses-bind (limited var_bytes_too_long max) (Parses-var_int (length bs) k)
        (Parses-limited _ max bs h)

pub Emits-var_string : (bs : Bytes) → Emits (write_var_string bs) (var_bytes bs)
unfolding write_var_string var_bytes
Emits-var_string bs = Emits-bind _ (Emits-var_int (length bs)) (Emits-write bs)

pub Emits-var_bytes : (bs : Bytes) → Emits (write_var_bytes bs) (var_bytes bs)
unfolding write_var_bytes var_bytes
Emits-var_bytes bs = Emits-bind _ (Emits-var_int (length bs)) (Emits-write bs)

-- On any input of bytes `ReadVarString` takes bytes from its front, and a string that it returns is
-- no longer than the limit.
pub Yields-var_string :
    (max : ℕ) → Yields (read_var_string max) (λ bs. (length bs ≤ max) × All IsByte bs)
unfolding read_var_string
Yields-var_string max =
    Yields-bind (limited var_string_too_long max) _ Yields-var_int (λ n h. Yields-limited _ max n)

pub Yields-var_bytes :
    (max : ℕ) → Yields (read_var_bytes max) (λ bs. (length bs ≤ max) × All IsByte bs)
unfolding read_var_bytes
Yields-var_bytes max =
    Yields-bind (limited var_bytes_too_long max) _ Yields-var_int (λ n h. Yields-limited _ max n)

-- A length, a uint64, above the limit is refused when it is read: nothing behind it is taken.
read_var_string_limit :
    (max count : ℕ) (rest : Bytes)
    → IsU64 count
    → max < count
    → (read_var_string max (var_int count ++ rest) ≡ err var_string_too_long rest)
      × (read_var_bytes max (var_int count ++ rest) ≡ err var_bytes_too_long rest)
unfolding read_var_string read_var_bytes
read_var_string_limit max count rest h k =
    rw (Parses.whole (Parses-var_int count h) rest, lt→ltb max count k) (refl, refl)

-- A string or byte array within the limit and of a length that fits a uint64 is written as its
-- length and its bytes, and read back from them whatever follows; each proper prefix of them
-- gives the end of the input.
var_bytes_round_trip :
    (max : ℕ) (bs : Bytes)
    → length bs ≤ max
    → IsU64 (length bs)
    → Emits (write_var_string bs) (var_bytes bs)
      × Parses (read_var_string max) (var_bytes bs) bs
      × Emits (write_var_bytes bs) (var_bytes bs)
      × Parses (read_var_bytes max) (var_bytes bs) bs
var_bytes_round_trip max bs h k = (
  Emits-var_string bs,
  Parses-var_string max bs h k,
  Emits-var_bytes bs,
  Parses-var_bytes max bs h k,
)
