-- ===== src/Wire/Loops/Counted.antt =====
-- A list behind its length, as `MsgAddr`, `MsgInv` and `MsgGetData` write and read it, with a limit
-- on its length.
use bmutil.Common.{
  ℕ, ◌≤◌, ◌<◌, ◌≡◌, refl, List, ◌++◌, Bytes, All, length, ◌^◌, ◌+◌, ◌*◌, ltb, if◌then◌else◌, ge→ltb,
  lt→ltb, length-append, if_either, arith,
}
use bmutil.Wire.Loops.{
  for_each, read_times, concat, Emits-for_each, Parses-read_times, Yields-read_times, length-concat,
}
use bmutil.Error.{Error}
use bmutil.Stream.{Sink, err, fail, ◌>>=◌, ◌>>◌, Reader, Writer}
use bmutil.Stream.Parses.{Parses, Parses-bind}
use bmutil.Stream.Emits.{Emits, Emits-bind}
use bmutil.Stream.Yields.{Yields, Yields-bind, Yields-fail}
use bmutil.Types.{IsU64, read_var_int, write_var_int, var_int_serialize_size}
use bmutil.Types.VarInt.{
  var_int, Parses-var_int, Emits-var_int, Yields-var_int, length-var_int,
  var_int_serialize_size_mono,
}
use mathlib.Core.List.{map, foldl}
use mathlib.Core.Path.{subst}

abbrev pub write_counted {ℓ} : {A : Type ℓ} → ℕ → Error → (A → Writer) → List A → Writer
write_counted max e w xs =
    if ltb max (length xs) then fail e else do write_var_int (length xs); for_each w xs

abbrev pub read_counted {ℓ κ} :
    {A : Type ℓ} {S : Type κ} → ℕ → Error → Reader A → (S → A → S) → S → Reader S
read_counted max e p add start = do
  count ← read_var_int
  if ltb max count then fail e else read_times p add count start

unfoldable pub counted_text {ℓ} : {A : Type ℓ} → (A → Bytes) → List A → Bytes
counted_text t xs = var_int (length xs) ++ concat t xs

pub Emits-counted {ℓ} :
    {A : Type ℓ} (max : ℕ) (e : Error) (w : A → Writer) (t : A → Bytes)
    → ((x : A) → Emits (w x) (t x))
    → (xs : List A) → length xs ≤ max
    → Emits (write_counted max e w xs) (counted_text t xs)
unfolding counted_text
Emits-counted max e w t h xs k =
    rw (ge→ltb max (length xs) k) (Emits-bind _ (Emits-var_int _) (Emits-for_each w t h xs))

-- `add` appends to the list `view msg` as long as that has less than `max` elements.
module _ {ℓ κ} {A : Type ℓ} {S : Type κ} (max : ℕ) (e : Error) (p : Reader A) (add : S → A → S)
    (start : S) where
  pub Parses-counted :
      (V : A → Type 0) (t : A → Bytes) (r : A → A)
      → ((x : A) → V x → Parses p (t x) (r x))
      → (xs : List A) → All V xs
      → length xs ≤ max
      → max < 2 ^ 64
      → (end : S) → foldl add start (map r xs) ≡ end
      → Parses (read_counted max e p add start) (counted_text t xs) end
  unfolding counted_text
  Parses-counted V t r h xs v k fits end q =
      Parses-bind _ (Parses-var_int (length xs) (omega arith)) (
        rw (ge→ltb max (length xs) k)
          (subst (Parses _ _) q (Parses-read_times p add V t r h xs start v)))

  pub Yields-counted :
      (P : A → Type 0) (I : S → Type 0)
      → Yields p P
      → ((msg : S) (a : A) → I msg → P a → I (add msg a))
      → I start
      → Yields (read_counted max e p add start) I
  Yields-counted P I h k i = Yields-bind _ _ Yields-var_int (λ n b.
      if_either (λ q. Yields q I) (ltb max n) (λ c. Yields-fail e I)
        (λ c. Yields-read_times p add P I h k n start i))

-- Above the limit nothing is written, and the reader stops at the count.
pub counted_limit {ℓ κ} :
    {A : Type ℓ} {S : Type κ} (max : ℕ) (e : Error) (w : A → Writer) (xs : List A) (p : Reader A)
    (add : S → A → S) (start : S) (s : Sink) (n : ℕ) (rest : Bytes)
    → max < length xs
    → max < n
    → IsU64 n
    → (write_counted max e w xs s ≡ err e s)
      × (read_counted max e p add start (var_int n ++ rest) ≡ err e rest)
counted_limit max e w xs p add start s n rest h k fits = (
  rw (lt→ltb max (length xs) h) refl,
  rw (Parses.whole (Parses-var_int n fits) rest, lt→ltb max n k) refl,
)

-- A text of elements of `size` bytes grows with their number.
pub length-counted-le {ℓ} :
    {A : Type ℓ} (t : A → Bytes) (V : A → Type 0) (size max : ℕ) (xs : List A)
    → ((x : A) → V x → length (t x) ≡ size)
    → All V xs
    → length xs ≤ max
    → length (counted_text t xs) ≤ var_int_serialize_size max + max * size
unfolding counted_text
length-counted-le t V size max xs h v k = grind (
  arith,
  length-append (var_int (length xs)) (concat t xs),
  length-concat V t size h xs v,
  length-var_int (length xs),
  var_int_serialize_size_mono (length xs) max k,
)
