-- ===== src/Stream/Emits.antt =====
-- The contract of a writer that makes the text `bs`: it appends `bs` where the sink has room for
-- it, and else it reports a short write after some proper part of `bs`.
use bmutil.Common.{
  ℕ, ◌≡◌, refl, sym, ap, ◌∙◌, true, false, [], ◌∷◌, ◌++◌, Bytes, append-nil, append_assoc,
  length-append, Bool-cases, inl, inr, arith,
}
use bmutil.Error.{short_write}
use bmutil.Stream.{
  Outcome, ok, err, and_then, ◌>>◌, pure, Sink, buffer, fixed, room, append, Writer, write,
}

abbrev pub Emitted : Sink → Bytes → Outcome Sink (Unit {0}) → Type 0
Emitted s bs (ok u t) = (room s bs ≡ true) × (t ≡ append s bs)
Emitted s bs (err e t) =
    (e ≡ short_write)
    × (room s bs ≡ false)
    × (front : Bytes) × (x : ℕ) × (back : Bytes) × (bs ≡ front ++ (x ∷ back))
    × (t ≡ append s front)

-- `w.pos ≤ cap(w.b)`
abbrev pub IsValid : Sink → Type 0
IsValid s = room s [] ≡ true

pub record Emits (w : Writer) (bs : Bytes) : Type 0 where
  pub run : (s : Sink) → IsValid s → Emitted s bs (w s)

-- Facts about sinks
pub append-append : (s : Sink) (a b : Bytes) → append (append s a) b ≡ append s (a ++ b)
unfolding append
append-append (buffer out) a b = ap buffer (append_assoc out a b)
append-append (fixed max out) a b = ap (fixed max) (append_assoc out a b)

append_nil : (s : Sink) → append s [] ≡ s
unfolding append
append_nil (buffer out) = ap buffer (append-nil out)
append_nil (fixed max out) = ap (fixed max) (append-nil out)

pub room-append : (s : Sink) (a b : Bytes) → room s a ≡ true → room (append s a) b ≡ room s (a ++ b)
unfolding room append
room-append (buffer out) a b h = refl
room-append (fixed max out) a b h = ground (arith, length-append out a, length-append a b)

room-prefix : (s : Sink) (a b : Bytes) → room s a ≡ false → room s (a ++ b) ≡ false
unfolding room
room-prefix (buffer out) a b h = cc
room-prefix (fixed max out) a b h = ground (arith, length-append a b)

append-IsValid : (s : Sink) (a : Bytes) → room s a ≡ true → IsValid (append s a)
append-IsValid s a h = room-append s a [] h ∙ rw append-nil h

module _ (s : Sink) (a b : Bytes) where
  Emitted-after :
      (o : Outcome Sink (Unit {0}))
      → room s a ≡ true
      → Emitted (append s a) b o
      → Emitted s (a ++ b) o
  Emitted-after (ok u t) r (r', e) = (sym (room-append s a b r) ∙ r', e ∙ append-append s a b)
  Emitted-after (err e t) r (q, r', front, x, back, split, e') = (
    q,
    sym (room-append s a b r) ∙ r',
    a ++ front,
    x,
    back,
    rw split (sym (append_assoc a front (x ∷ back))),
    e' ∙ append-append s a front,
  )

  Emitted-bind :
      (o : Outcome Sink (Unit {0})) (w : Writer)
      → IsValid s
      → Emitted s a o
      → Emits w b
      → Emitted s (a ++ b) (and_then o (λ _. w))
  Emitted-bind (ok u t) w v (r, e) h =
      Emitted-after (w t) r (rw (← e) (h.run t (rw e (append-IsValid s a r))))
  Emitted-bind (err e t) w v (q, r, front, x, back, split, e') h =
      (q, room-prefix s a b r, front, x, back ++ b, rw split (append_assoc front (x ∷ back) b), e')

-- One writer after another makes one text after another.
pub Emits-bind :
    {m : Writer} (w : Writer) {a b : Bytes} → Emits m a → Emits w b → Emits (m >> w) (a ++ b)
Emits-bind {m = m} w {a = a} {b = b} h k = record {
  run = λ s v. Emitted-bind s a b (m s) w v (h.run s v) k;
}

pub Emits-pure : Emits (pure tt) []
Emits-pure = record { run = λ s v. (v, sym (append_nil s)) }

write_emits : (p : Bytes) (s : Sink) → IsValid s → Emitted s p (write p s)
unfolding write
write_emits [] s v = rw v (v, refl)
write_emits (x ∷ p) s v = elim (Bool-cases (room s (x ∷ p))) [
  | inl r ↦ rw r (r, refl)
  | inr r ↦ rw r (refl, r, [], x, p, refl, sym (append_nil s))
]

pub Emits-write : (p : Bytes) → Emits (write p) p
Emits-write p = record { run = write_emits p }

-- What the contract says of a buffer and of a fixed writer that starts empty.
pub Emits-buffer :
    (w : Writer) (bs out : Bytes) → Emits w bs → w (buffer out) ≡ ok tt (buffer (out ++ bs))
unfolding room append
Emits-buffer w bs out h = on_buffer (w (buffer out)) (h.run (buffer out) refl)
  where
    on_buffer :
        (o : Outcome Sink (Unit {0})) → Emitted (buffer out) bs o → o ≡ ok tt (buffer (out ++ bs))
    on_buffer (ok u t) (r, e) = ap (ok tt) e
    on_buffer (err e t) (q, r, _, _, _, _, _) = cc
