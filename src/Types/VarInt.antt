-- ===== src/Types/VarInt.antt =====
-- `ReadVarInt` and `WriteVarInt` of types.go against the text of a variable length integer.
use bmutil.Common.{
  ℕ, ◌%◌, ◌≤◌, ◌<◌, ◌≡◌, refl, [], ◌∷◌, Bytes, IsByte, All, length, ltb, leb, ltb→lt, leb→le,
  if◌then◌else◌, arith, if_either, if_both, ◌==◌,
}
use bmutil.Stream.{pure}
use bmutil.Stream.Parses.{Parses, Parses-bind, Parses-pure, Parses-read_full}
use bmutil.Stream.Emits.{Emits, Emits-write}
use bmutil.Stream.Yields.{Yields, Yields-bind, Yields-imp, Yields-pure, Yields-read_full}
use bmutil.Binary.{put_be, length-put_be, Parses-read_be, Yields-read_be, put_be-IsByte}
use bmutil.Types.{
  IsU64, max_var_int_size, by_discriminant, first_byte, read_var_int, write_var_int,
  var_int_serialize_size,
}

-- The text of `v`: one byte, or a marker and the shortest of 2, 4 and 8 bytes that holds `v`.
unfoldable pub var_int : ℕ → Bytes
var_int v =
    if ltb v 0xfd
    then v ∷ []
    else if leb v 0xffff
    then 0xfd ∷ put_be 2 v
    else if leb v 0xffff_ffff
    then 0xfe ∷ put_be 4 v
    else 0xff ∷ put_be 8 v

Parses-marked :
    (d : ℕ) {bs : Bytes} {v : ℕ} → Parses (by_discriminant d) bs v → Parses read_var_int (d ∷ bs) v
unfolding read_var_int
Parses-marked d P =
    Parses-bind (λ b. by_discriminant (first_byte b)) (Parses-read_full (d ∷ []) 1 refl) P

small_discriminant : (v : ℕ) → v < 0xfd → by_discriminant v ≡ pure v
unfolding by_discriminant
small_discriminant v h = ground arith

-- `ReadVarInt` reads back each uint64 from its text, and reports the end of the input on each
-- proper prefix of it.
pub Parses-var_int : (v : ℕ) → IsU64 v → Parses read_var_int (var_int v) v
unfolding var_int by_discriminant
Parses-var_int v h =
    if_either (λ t. Parses read_var_int t v) (ltb v 0xfd)
      (λ p. Parses-marked v (rw (small_discriminant v (ltb→lt v 0xfd p)) (Parses-pure v)))
      (λ p.
        if_either (λ t. Parses read_var_int t v) (leb v 0xffff)
          (λ q. Parses-marked 0xfd (Parses-read_be 2 v (omega (arith, leb→le v 0xffff q))))
          (λ q.
            if_either (λ t. Parses read_var_int t v) (leb v 0xffff_ffff)
              (λ t. Parses-marked 0xfe (Parses-read_be 4 v (omega (arith, leb→le v 0xffff_ffff t))))
              (λ t. Parses-marked 0xff (Parses-read_be 8 v (omega arith)))))

small_byte : (v : ℕ) → v < 0xfd → v % 256 ≡ v
small_byte v h = omega arith

-- `WriteVarInt` makes the text of its argument.
pub Emits-var_int : (v : ℕ) → Emits (write_var_int v) (var_int v)
unfolding write_var_int var_int
Emits-var_int v =
    if_both Emits (ltb v 0xfd) (λ p. rw (small_byte v (ltb→lt v 0xfd p)) (Emits-write (v ∷ [])))
      (λ p.
        if_both Emits (leb v 0xffff) (λ q. Emits-write _)
          (λ q. if_both Emits (leb v 0xffff_ffff) (λ t. Emits-write _) (λ t. Emits-write _)))

-- `VarIntSerializeSize` is the length of the text.
pub length-var_int : (v : ℕ) → length (var_int v) ≡ var_int_serialize_size v
unfolding var_int var_int_serialize_size
length-var_int v = ground (arith, length-put_be 2 v, length-put_be 4 v, length-put_be 8 v)

pub var_int_serialize_size_bounds :
    (v : ℕ) → (1 ≤ var_int_serialize_size v) × (var_int_serialize_size v ≤ max_var_int_size)
unfolding var_int_serialize_size
var_int_serialize_size_bounds v = ground arith

Yields_discriminant : (d : ℕ) → d < 256 → Yields (by_discriminant d) IsU64
unfolding by_discriminant
Yields_discriminant d h =
    if_either (λ p. Yields p IsU64) (d == 0xff) (λ p. Yields-read_be 8)
      (λ p.
        if_either (λ p. Yields p IsU64) (d == 0xfe)
          (λ q. Yields-imp _ (Yields-read_be 4) (λ v b. omega arith))
          (λ q.
            if_either (λ p. Yields p IsU64) (d == 0xfd)
              (λ q. Yields-imp _ (Yields-read_be 2) (λ v b. omega arith))
              (λ t. Yields-pure d (omega arith))))

first_byte-lt : (b : Bytes) → length b ≡ 1 → All IsByte b → first_byte b < 256
unfolding first_byte
first_byte-lt [] e h = absurd (omega arith)
first_byte-lt (x ∷ b) e h = h.0

-- On any input of bytes `ReadVarInt` takes bytes from its front, and returns a uint64 or an error.
pub Yields-var_int : Yields read_var_int IsU64
unfolding read_var_int
Yields-var_int =
    Yields-bind (λ b. by_discriminant (first_byte b)) _ (Yields-read_full 1)
      (λ b h. Yields_discriminant (first_byte b) (first_byte-lt b h.0 h.1))

pub var_int_serialize_size_mono :
    (v w : ℕ) → v ≤ w → var_int_serialize_size v ≤ var_int_serialize_size w
unfolding var_int_serialize_size
var_int_serialize_size_mono v w h = ground arith

-- Each uint64 is written by `WriteVarInt` as `VarIntSerializeSize` bytes, at most 9, and
-- `ReadVarInt` reads it back from them whatever follows, and reports the end of the input on each
-- proper prefix of them.
pub var_int_round_trip :
    (v : ℕ)
    → IsU64 v
    → Emits (write_var_int v) (var_int v)
      × Parses read_var_int (var_int v) v
      × (length (var_int v) ≡ var_int_serialize_size v)
      × (var_int_serialize_size v ≤ max_var_int_size)
var_int_round_trip v h =
    (Emits-var_int v, Parses-var_int v h, length-var_int v, (var_int_serialize_size_bounds v).1)

pub var_int-IsByte : (v : ℕ) → IsU64 v → All IsByte (var_int v)
unfolding var_int
var_int-IsByte v h = ground (arith, put_be-IsByte 2 v, put_be-IsByte 4 v, put_be-IsByte 8 v)
