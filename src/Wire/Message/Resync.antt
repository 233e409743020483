-- ===== src/Wire/Message/Resync.antt =====
-- Where `ReadMessageN` leaves its input.
use bmutil.Common.{
  ℕ, ◌+◌, ◌++◌, Bytes, length, ◌≡◌, ◌∙◌, drop-append, inl, ltb, not, equal, inr, Bool, ◌≤◌, ge→ltb,
  ◌==◌, if◌then◌else◌, refl, true, false,
}
use bmutil.Wire.Message.{
  MessageHeader, Counted, trim_right, discard, read_payload, read_message_n, decode_payload,
  checksum_of, discard_input, max_payload_length, Command, Outcome, ◌>>=◌, KnownMessage, M, pure,
  ok, max_message_payload, err, decode, valid_utf8,
}
use bmutil.Wire.Message.Discard.{discard_input-drop}
use bmutil.Wire.Message.Read.{read_counted-text, IsHeader, read_message_header-text, header_of}
use bmutil.Wire.Known.Codec.{make_empty_message_cases}
use bmutil.Wire.Message.Write.{header_text}
use bmutil.Stream.{and_then}

-- A run that leaves `rest` to read
abbrev pub Leaves : Bytes → Outcome (Counted Bytes) (KnownMessage × Bytes) → Type 0
Leaves rest (ok a s) = s.stream ≡ rest
Leaves rest (err e s) = s.stream ≡ rest

if_Leaves :
    (rest : Bytes) (s : Counted Bytes) (c : Bool) (m k : M (Counted Bytes) (KnownMessage × Bytes))
    → Leaves rest (m s)
    → Leaves rest (k s)
    → Leaves rest ((if c then m else k) s)
if_Leaves rest s true m k h h' = h
if_Leaves rest s false m k h h' = h'

-- A skip of what follows the header leaves what is behind the payload.
discard_input-payload :
    (payload rest : Bytes) → discard_input (length payload) (payload ++ rest) ≡ rest
discard_input-payload payload rest =
    discard_input-drop (length payload) (payload ++ rest) ∙ drop-append payload rest

decode-Leaves :
    (c : Command) (payload : Bytes) (s : Counted Bytes)
    → Leaves s.stream ((decode_payload c payload >>= λ msg. pure (msg, payload)) s)
unfolding decode_payload
decode-Leaves c payload s = decoded (decode c payload)
  where
    decoded :
        (o : Outcome Bytes KnownMessage)
        → Leaves s.stream (
            and_then
              (elim o [ ok msg r ↦ ok msg s | err e r ↦ err e s ])
              (λ msg. pure (msg, payload)))
    decoded (ok msg r) = refl
    decoded (err e r) = refl

module _ (sha512 : Bytes → Bytes) where
  -- A frame whose payload has the announced length is used up with its payload, by every branch.
  read_payload-Leaves :
      (hdr : MessageHeader) (payload rest : Bytes) (total : ℕ)
      → length payload ≡ hdr.size
      → Leaves rest (read_payload sha512 hdr (record { total = total; stream = payload ++ rest }))
  unfolding read_payload
  read_payload-Leaves hdr payload rest total h =
      let s : Counted Bytes = record { total = total + length payload; stream = rest } in
      rw (read_counted-text payload rest hdr.size total h)
        (elim (make_empty_message_cases hdr.name s) [
          | inl (c, q, e) ↦ rw e (
              if_Leaves rest s (ltb (max_payload_length c) hdr.size) _ _ refl (
                if_Leaves rest s (not (equal (checksum_of sha512 payload) hdr.sum)) _ _ refl
                  (decode-Leaves c payload s)))
          | inr (q, e) ↦ rw e refl
        ])

  -- Whatever a frame holds, if its header has fields in range and announces the length of its
  -- payload, at most MaxMessagePayload: `ReadMessageN` accepts or refuses it, and stops right
  -- behind its payload.
  pub read_message_n_resumes :
      (net magic total : ℕ) (name sum payload rest : Bytes)
      → IsHeader magic name (length payload) sum
      → length payload ≤ max_message_payload
      → Leaves rest (
          read_message_n sha512 net (record {
            total = total;
            stream = header_text magic name (length payload) sum ++ (payload ++ rest);
          }))
  unfolding read_message_n discard
  read_message_n_resumes net magic total name sum payload rest h k =
      let s : Counted Bytes = record { total = total + 24; stream = payload ++ rest } in
      rw
        (
          read_message_header-text magic name (length payload) sum (payload ++ rest) total h,
          ge→ltb max_message_payload (length payload) k,
        )
        (if_Leaves rest s (not (magic == net)) _ _ (discard_input-payload payload rest) (
          if_Leaves rest s (not (valid_utf8 (trim_right name))) _ _
            (discard_input-payload payload rest)
            (read_payload-Leaves (header_of magic name (length payload) sum) payload rest
              (total + 24) refl)))
