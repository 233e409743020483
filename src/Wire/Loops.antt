-- ===== src/Wire/Loops.antt =====
-- The two loops of the messages that carry a list: write each element, and read a counted number
-- of elements into a message that grows.
pub mod Counted
use bmutil.Common.{
  ℕ, zero, suc, ◌+◌, ◌*◌, ◌≤◌, ◌<◌, ◌≡◌, refl, sym, ap, ◌∙◌, List, [], ◌∷◌, ◌++◌, Bytes, All,
  length, take, append-nil, append_assoc, length-append, arith,
}
use bmutil.Stream.{◌>>=◌, ◌>>◌, pure, Reader, Writer}
use bmutil.Stream.Parses.{Parses, Parses-bind, Parses-pure}
use bmutil.Stream.Emits.{Emits, Emits-bind, Emits-pure}
use bmutil.Stream.Yields.{Yields, Yields-bind, Yields-pure}
use mathlib.Core.List.{foldl, map}

-- `for _, x := range xs { err = write(x) … }`
pub for_each {ℓ} : {A : Type ℓ} → (A → Writer) → List A → Writer
for_each w [] = pure tt
for_each w (x ∷ xs) = do w x; for_each w xs

-- `for i := 0; i < n; i++ { … read(&x) …; msg.Add(&x) }`
unfoldable pub read_times {ℓ κ} :
    {A : Type ℓ} {S : Type κ} → Reader A → (S → A → S) → ℕ → S → Reader S
read_times p add zero msg = pure msg
read_times p add (suc n) msg = do a ← p; read_times p add n (add msg a)

-- The texts of the elements, one after the other
abbrev pub concat {ℓ} : {A : Type ℓ} → (A → Bytes) → List A → Bytes
concat t [] = []
concat t (x ∷ xs) = t x ++ concat t xs

pub Emits-for_each {ℓ} :
    {A : Type ℓ} (w : A → Writer) (t : A → Bytes)
    → ((x : A) → Emits (w x) (t x))
    → (xs : List A) → Emits (for_each w xs) (concat t xs)
unfolding for_each
Emits-for_each w t h [] = Emits-pure
Emits-for_each w t h (x ∷ xs) = Emits-bind _ (h x) (Emits-for_each w t h xs)

module _ {ℓ κ} {A : Type ℓ} {S : Type κ} (p : Reader A) (add : S → A → S) where
  -- `t x` is the text of `x`, and `r x` what is read from it.
  pub Parses-read_times :
      (V : A → Type 0) (t : A → Bytes) (r : A → A)
      → ((x : A) → V x → Parses p (t x) (r x))
      → (xs : List A) (msg : S) → All V xs
      → Parses (read_times p add (length xs) msg) (concat t xs) (foldl add msg (map r xs))
  unfolding read_times
  Parses-read_times V t r h [] msg v = Parses-pure msg
  Parses-read_times V t r h (x ∷ xs) msg v =
      Parses-bind _ (h x v.0) (Parses-read_times V t r h xs (add msg (r x)) v.1)

  -- The loop keeps what each addition keeps.
  pub Yields-read_times :
      (P : A → Type 0) (I : S → Type 0)
      → Yields p P
      → ((msg : S) (a : A) → I msg → P a → I (add msg a))
      → (n : ℕ) (msg : S) → I msg
      → Yields (read_times p add n msg) I
  unfolding read_times
  Yields-read_times P I h k zero msg i = Yields-pure msg i
  Yields-read_times P I h k (suc n) msg i =
      Yields-bind _ P h (λ a q. Yields-read_times P I h k n (add msg a) (k msg a i q))

-- `add` appends to the list `view msg` as long as that has less than `max` elements.
module _ {ℓ κ} {A : Type ℓ} {S : Type κ} (view : S → List A) (add : S → A → S) (max : ℕ) where
  pub view-foldl :
      ((msg : S) (a : A) → length (view msg) < max → view (add msg a) ≡ view msg ++ (a ∷ []))
      → (xs : List A) (msg : S) → length (view msg) + length xs ≤ max
      → view (foldl add msg xs) ≡ view msg ++ xs
  view-foldl h [] msg k = sym (append-nil (view msg))
  view-foldl h (x ∷ xs) msg k =
      let grown = h msg x (omega arith) in
      view-foldl h xs (add msg x) (rw grown (omega (arith, length-append (view msg) (x ∷ []))))
      ∙ ap (λ l. l ++ xs) grown
      ∙ append_assoc (view msg) (x ∷ []) xs

pub length-concat {ℓ} :
    {A : Type ℓ} (V : A → Type 0) (t : A → Bytes) (n : ℕ)
    → ((x : A) → V x → length (t x) ≡ n)
    → (xs : List A) → All V xs
    → length (concat t xs) ≡ length xs * n
length-concat V t n h [] v = omega arith
length-concat V t n h (x ∷ xs) v =
    omega (arith, length-append (t x) (concat t xs), h x v.0, length-concat V t n h xs v.1)

pub map_id {ℓ} : {A : Type ℓ} (xs : List A) → map (λ x. x) xs ≡ xs
map_id [] = refl
map_id (x ∷ xs) = ap (◌∷◌ x) (map_id xs)

pub length-map {ℓ κ} :
    {A : Type ℓ} {B : Type κ} (f : A → B) (xs : List A) → length (map f xs) ≡ length xs
length-map f [] = refl
length-map f (x ∷ xs) = ap suc (length-map f xs)
