-- ===== src/Wire/Message/Accepted.antt =====
-- What `ReadMessageN` promises of every input: what it accepts, and how much it reads.
use bmutil.Stream.{read_full, Outcome, ok, M, and_then, err, ◌>>=◌, pure}
use bmutil.Wire.Message.{
  MessageHeader, Counted, read_message_header, read_counted, discard, read_payload, read_message_n,
  decode_payload, checksum_of, Command, ℕ, KnownMessage, Bytes, length, Bool, max_payload_length,
  message_header_size, max_message_payload, valid_utf8,
}
use bmutil.Wire.Known.Codec.{IsValid, Yields-known, make_empty_message_cases}
use bmutil.Common.{
  All, ◌≤◌, IsByte, ◌≡◌, true, ◌+◌, false, Bool-cases, arith, leb, if◌then◌else◌, inl, All-take,
  length-take, All-drop, inr, leb→gt, refl, ltb, not, equal, ltb→ge, ◌==◌,
}
use bmutil.Wire.Known.{command_of, decode}
use bmutil.Stream.Yields.{Yielded}

-- A result that satisfies `P`, with bytes left to read, and a total of `n` at most
abbrev pub Kept {ℓ} : {A : Type ℓ} → (A → Type 0) → ℕ → Outcome (Counted Bytes) A → Type 0
Kept P n (ok a s) = P a × (s.total ≤ n) × All IsByte s.stream
Kept P n (err e s) = s.total ≤ n

Kept-bind {ℓ κ} :
    {A : Type ℓ} {B : Type κ} (P : A → Type 0) (Q : B → Type 0) (n m : ℕ)
    (o : Outcome (Counted Bytes) A) (f : A → M (Counted Bytes) B)
    → Kept P n o
    → n ≤ m
    → ((a : A) (s : Counted Bytes) → P a → s.total ≤ n → All IsByte s.stream → Kept Q m (f a s))
    → Kept Q m (and_then o f)
Kept-bind P Q n m (ok a s) f (p, t, b) h k = k a s p t b
Kept-bind P Q n m (err e s) f t h k = omega arith

-- What a reader of the payload keeps
Payload : ℕ → Bytes → Type 0
Payload n bs = (length bs ≡ n) × All IsByte bs

read_counted-Kept :
    (n : ℕ) (r : Counted Bytes)
    → All IsByte r.stream
    → Kept (Payload n) (r.total + n) (read_counted n r)
unfolding read_counted read_full Payload
read_counted-Kept n r h = elim (Bool-cases (leb n (length r.stream))) [
  | inl q ↦
      rw (Kept, read_counted, read_full, q)
        (
          (ground (arith, length-take n r.stream), All-take IsByte n r.stream h),
          omega (arith, length-take n r.stream),
          All-drop IsByte n r.stream h,
        )
  | inr q ↦
      rw (Kept, read_counted, read_full, q)
        (let short = leb→gt n (length r.stream) q in omega arith)
]

abbrev pub IsAccepted : KnownMessage × Bytes → Type 0
IsAccepted x = IsValid x.0 × (length x.1 ≤ max_payload_length (command_of x.0))

if_Kept :
    (P : KnownMessage × Bytes → Type 0) (n : ℕ) (s : Counted Bytes) (c : Bool)
    (m k : M (Counted Bytes) (KnownMessage × Bytes))
    → (c ≡ true → Kept P n (m s))
    → (c ≡ false → Kept P n (k s))
    → Kept P n ((if c then m else k) s)
if_Kept P n s true m k h h' = h refl
if_Kept P n s false m k h h' = h' refl

decode-Kept :
    (c : Command) (payload : Bytes) (n : ℕ) (s : Counted Bytes)
    → All IsByte payload
    → length payload ≤ max_payload_length c
    → s.total ≤ n
    → All IsByte s.stream
    → Kept IsAccepted n ((decode_payload c payload >>= λ msg. pure (msg, payload)) s)
unfolding decode_payload
decode-Kept c payload n s h l t b = decoded (decode c payload) ((Yields-known c).run payload h)
  where
    decoded :
        (o : Outcome Bytes KnownMessage)
        → Yielded (λ msg. (command_of msg ≡ c) × IsValid msg) payload o
        → Kept IsAccepted n (
            and_then
              (elim o [ ok msg r ↦ ok msg s | err e r ↦ err e s ])
              (λ msg. pure (msg, payload)))
    decoded (ok msg r) ((q, v), u) = ((v, rw (← q) at l), t, b)
    decoded (err e r) u = t

module _ (sha512 : Bytes → Bytes) where
  read_payload-Kept :
      (hdr : MessageHeader) (n : ℕ) (r : Counted Bytes)
      → All IsByte r.stream
      → r.total + hdr.size ≤ n
      → Kept IsAccepted n (read_payload sha512 hdr r)
  unfolding read_payload Payload
  read_payload-Kept hdr n r h k =
      Kept-bind (Payload hdr.size) IsAccepted (r.total + hdr.size) n (read_counted hdr.size r) _
        (read_counted-Kept hdr.size r h) k
        (λ payload s p t b. elim (make_empty_message_cases hdr.name s) [
          | inl (c, q, e) ↦ rw e (
              if_Kept IsAccepted n s (ltb (max_payload_length c) hdr.size) _ _ (λ _. omega arith)
                (λ small.
                  if_Kept IsAccepted n s (not (equal (checksum_of sha512 payload) hdr.sum)) _ _
                    (λ _. omega arith)
                    (λ _.
                      decode-Kept c payload n s p.1
                        (omega (arith, p.0, ltb→ge (max_payload_length c) hdr.size small))
                        (omega arith) b)))
          | inr (q, e) ↦ rw e (omega arith)
        ])

  -- From any input of bytes, `ReadMessageN` counts at most the bytes of a header and of the
  -- largest payload, and a message that it accepts has its fields in range, its lists and strings
  -- within their limits, and a payload within the limit of its type.
  pub read_message_n-accepts :
      (net : ℕ) (r : Counted Bytes)
      → All IsByte r.stream
      → Kept IsAccepted
          (r.total + (message_header_size + max_message_payload))
          (read_message_n sha512 net r)
  unfolding read_message_n read_message_header discard Payload
  read_message_n-accepts net r h =
      let most = r.total + (message_header_size + max_message_payload) in
      Kept-bind (λ _. Unit {0}) IsAccepted (r.total + 24) most (read_message_header r) _
        (Kept-bind (Payload 24) (λ _. Unit {0}) (r.total + 24) (r.total + 24) (read_counted 24 r) _
          (read_counted-Kept 24 r h) (omega arith) (λ bs s p t b. (tt, t, b)))
        (omega arith)
        (λ hdr s u t b.
          if_Kept IsAccepted most s (ltb max_message_payload hdr.size) _ _ (λ _. omega arith)
            (λ fits.
              if_Kept IsAccepted most s (not (hdr.magic == net)) _ _ (λ _. omega arith)
                (λ _.
                  if_Kept IsAccepted most s (not (valid_utf8 hdr.name)) _ _ (λ _. omega arith)
                    (λ _.
                      read_payload-Kept hdr most s b
                        (omega (arith, ltb→ge max_message_payload hdr.size fits))))))
