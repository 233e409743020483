-- ===== src/Address/Text.antt =====
-- The bytes that `String` writes in base58, and what `DecodeAddress` reads at their front.
use bmutil.Common.{
  ℕ, ◌≡◌, ◌-◌, refl, [], ◌++◌, Bytes, length, arith, length-append, take-append, false, ltb,
  append_assoc, sym,
}
use bmutil.Stream.{ok, written}
use bmutil.Stream.Emits.{Emits-bind, Emits-write, Emits-buffer}
use bmutil.Stream.Parses.{Parses, Parses-bind, Parses-map}
use bmutil.Types.{IsU64}
use bmutil.Types.VarInt.{var_int, Emits-var_int, Parses-var_int}
use bmutil.Address.{binary_data, by_version, read_ripe, read_front}

-- The bytes before the checksum
abbrev pub data_text : ℕ → ℕ → Bytes → Bytes
data_text v s ripe = var_int v ++ (var_int s ++ ripe)

pub binary_data_lem : (v s : ℕ) (ripe : Bytes) → binary_data v s ripe ≡ data_text v s ripe
unfolding binary_data written
binary_data_lem v s ripe =
    rw
      (Emits-buffer _ (data_text v s ripe) []
        (Emits-bind _ (Emits-var_int v) (Emits-bind _ (Emits-var_int s) (Emits-write ripe))))
      refl

Parses-read_front :
    (v s : ℕ) → IsU64 v → IsU64 s → Parses read_front (var_int v ++ var_int s) (v, s)
unfolding read_front
Parses-read_front v s hv hs =
    Parses-bind _ (Parses-var_int v hv)
      (Parses-map (λ k r. ok (v, k) r) (Parses-var_int s hs) (λ r. refl))

pub read_front-text :
    (v s : ℕ) (ripe c : Bytes)
    → IsU64 v
    → IsU64 s
    → read_front (data_text v s ripe ++ c) ≡ ok (v, s) (ripe ++ c)
read_front-text v s ripe c hv hs =
    rw
      (
        append_assoc (var_int v) (var_int s ++ ripe) c,
        append_assoc (var_int s) ripe c,
        sym (append_assoc (var_int v) (var_int s) (ripe ++ c)),
      )
      (Parses.whole (Parses-read_front v s hv hs) (ripe ++ c))

pub read_ripe-text :
    (v s : ℕ) (ripe c : Bytes) → length c ≡ 4 → read_ripe v s (ripe ++ c) ≡ by_version v s ripe
unfolding read_ripe
read_ripe-text v s ripe c h =
    let size : length (ripe ++ c) - 4 ≡ length ripe = omega (arith, length-append ripe c) in
    let enough : ltb (length (ripe ++ c)) 4 ≡ false = ground (arith, length-append ripe c) in
    rw (enough, size, take-append ripe c) refl
