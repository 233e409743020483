-- ===== src/Stream/Yields.antt =====
-- The contract of a reader on any input of bytes: it takes them from the front, and what it
-- returns satisfies `P`.
use bmutil.Common.{
  ℕ, ◌≡◌, refl, sym, [], ◌∷◌, ◌++◌, Bytes, IsByte, All, All-take, length, take, append-nil,
  append_assoc, take-append-drop, length-take, leb, Bool-cases, inl, inr, arith,
}
use bmutil.Stream.{Outcome, ok, err, and_then, ◌>>=◌, pure, fail, Reader, read_full, read_all}
use bmutil.Error.{Error}

abbrev pub IsSuffix : Bytes → Bytes → Type 0
IsSuffix rest r = (used : Bytes) × (r ≡ used ++ rest)

abbrev pub Yielded {ℓ} : {A : Type ℓ} → (A → Type 0) → Bytes → Outcome Bytes A → Type 0
Yielded P r (ok a rest) = P a × IsSuffix rest r
Yielded P r (err e rest) = IsSuffix rest r

pub record Yields {ℓ} {A : Type ℓ} (p : Reader A) (P : A → Type 0) : Type ℓ where
  pub run : (r : Bytes) → All IsByte r → Yielded P r (p r)

pub All-suffix : (used rest : Bytes) → All IsByte (used ++ rest) → All IsByte rest
All-suffix [] rest h = h
All-suffix (x ∷ used) rest h = All-suffix used rest h.1

Yielded-weaken {ℓ} :
    {A : Type ℓ} (P : A → Type 0) (used rest : Bytes) (o : Outcome Bytes A)
    → Yielded P rest o
    → Yielded P (used ++ rest) o
Yielded-weaken P used rest (ok a r) (h, (used', e)) = (h, (used ++ used', rw (e, append_assoc)))
Yielded-weaken P used rest (err e r) (used', q) = (used ++ used', rw (q, append_assoc))

module _ {ℓ κ} {A : Type ℓ} {B : Type κ} (P : A → Type 0) (Q : B → Type 0) (f : A → Reader B) where
  Yielded-bind :
      (r : Bytes) (o : Outcome Bytes A)
      → All IsByte r
      → Yielded P r o
      → ((a : A) → P a → Yields (f a) Q)
      → Yielded Q r (and_then o f)
  Yielded-bind r (err e rest) hr h k = h
  Yielded-bind r (ok a rest) hr (h, (used, e)) k =
      rw e (
        Yielded-weaken Q used rest (f a rest)
          ((k a h).run rest (All-suffix used rest (rw e at hr))))

Yielded-imp {ℓ} :
    {A : Type ℓ} (P Q : A → Type 0) (r : Bytes) (o : Outcome Bytes A)
    → ((a : A) → P a → Q a)
    → Yielded P r o
    → Yielded Q r o
Yielded-imp P Q r (ok a rest) k (h, s) = (k a h, s)
Yielded-imp P Q r (err e rest) k s = s

pub Yields-imp {ℓ} :
    {A : Type ℓ} {p : Reader A} (P : A → Type 0) {Q : A → Type 0}
    → Yields p P
    → ((a : A) → P a → Q a)
    → Yields p Q
Yields-imp {p = p} P {Q = Q} h k = record { run = λ r hr. Yielded-imp P Q r (p r) k (h.run r hr) }

pub Yields-bind {ℓ κ} :
    {A : Type ℓ} {B : Type κ} {p : Reader A} (f : A → Reader B) (P : A → Type 0) {Q : B → Type 0}
    → Yields p P
    → ((a : A) → P a → Yields (f a) Q)
    → Yields (p >>= f) Q
Yields-bind {p = p} f P {Q = Q} h k = record {
  run = λ r hr. Yielded-bind P Q f r (p r) hr (h.run r hr) k;
}

pub Yields-pure {ℓ} : {A : Type ℓ} (v : A) {P : A → Type 0} → P v → Yields (pure v) P
Yields-pure v h = record { run = λ r hr. (h, ([], refl)) }

pub Yields-fail {ℓ} : {A : Type ℓ} (e : Error) (P : A → Type 0) → Yields (fail e) P
Yields-fail e P = record { run = λ r hr. ([], refl) }

-- `ReadFull` for `n` bytes returns `n` bytes.
pub Yields-read_full : (n : ℕ) → Yields (read_full n) (λ bs. (length bs ≡ n) × All IsByte bs)
unfolding read_full
Yields-read_full n = record {
  run = λ r hr. elim (Bool-cases (leb n (length r))) [
    | inl q ↦ rw q (
      (ground (arith, length-take n r), All-take IsByte n r hr),
      (take n r, sym (take-append-drop n r)),
    )
    | inr q ↦ rw q (r, sym (append-nil r))
  ];
}

pub Yields-read_all : Yields read_all (All IsByte)
unfolding read_all
Yields-read_all = record { run = λ r hr. (hr, (r, sym (append-nil r))) }
