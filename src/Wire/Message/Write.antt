-- ===== src/Wire/Message/Write.antt =====
-- `WriteMessageN`: the frame that it writes, and the messages that it refuses.
use bmutil.Common.{
  ℕ, ◌≡◌, refl, ◌+◌, ◌≤◌, ◌++◌, Bytes, length, copy_zeroed, ge→ltb, List, [], ap, ap₂, arith,
  length-append, append_assoc, ◌∷◌, min, ◌<◌, Bool-cases, ltb, inl, inr, ltb→ge, lt→ltb, ◌∙◌,
  append-nil,
}
use bmutil.Wire.Message.{
  Counted, checksum_of, write_message_n, header_bytes, payload_of, send, payload_too_large,
}
use bmutil.Binary.{put_be}
use bmutil.Stream.{ok, err, buffer, written, write, append, room, Sink, Outcome, state}
use bmutil.Stream.Emits.{Emits, Emits-buffer}
use bmutil.Wire.Known.{Message}
use bmutil.Wire.Limits.{command_size, max_message_payload}
use bmutil.Wire.Element.{Kind, Values, bitmessage_net, command, uint32, checksum, write_elements}
use bmutil.Wire.Element.RoundTrip.{elements, Emits-elements}

-- The frame: the network, the command padded with zeros, the length and the checksum of the
-- payload, and the payload.
unfoldable pub header_text : ℕ → Bytes → ℕ → Bytes → Bytes
header_text magic name size sum = put_be 4 magic ++ (name ++ (put_be 4 size ++ sum))

header_bytes-text :
    (magic : ℕ) (name : Bytes) (size : ℕ) (sum : Bytes)
    → header_bytes magic name size sum ≡ header_text magic name size sum
unfolding header_bytes header_text written
header_bytes-text magic name size sum =
    ap (λ o. written (state o))
      (Emits-buffer (write_elements kinds values) (elements kinds values) []
        (Emits-elements kinds values))
    ∙ ap (λ x. put_be 4 magic ++ (name ++ (put_be 4 size ++ x))) (append-nil sum)
  where
    kinds : List Kind
    kinds = bitmessage_net ∷ command ∷ uint32 ∷ checksum ∷ []

    values : Values kinds
    values = (magic, (name, (size, (sum, tt))))

payload_of-text {ℓ} :
    {S : Type ℓ} (msg : Message) (payload : Bytes) (s : S)
    → Emits msg.encode payload
    → payload_of msg s ≡ ok payload s
unfolding payload_of written
payload_of-text msg payload s e = rw (payload_of, Emits-buffer msg.encode payload [] e)

send-buffer :
    (p out : Bytes) (total : ℕ)
    → send p (record { total = total; stream = buffer out })
      ≡ ok tt (record { total = total + length p; stream = buffer (out ++ p) })
unfolding send write append room
send-buffer p out total = refl

-- A success that leaves a count and a buffer
abbrev sent : ℕ → Bytes → Outcome (Counted Sink) (Unit {0})
sent n out = ok tt (record { total = n; stream = buffer out })

module _ (sha512 : Bytes → Bytes) where
  unfoldable pub frame : ℕ → Bytes → Bytes → Bytes
  frame magic name payload =
      header_text magic (copy_zeroed command_size name) (length payload)
        (checksum_of sha512 payload)
      ++ payload

  -- A message that is within the three limits is written as its frame, and the frame's length is
  -- added to the count.
  pub write_message_n-frame :
      (msg : Message) (payload : Bytes) (net total : ℕ) (out : Bytes)
      → Emits msg.encode payload
      → length msg.command ≤ command_size
      → length payload ≤ max_message_payload
      → length payload ≤ msg.max_payload_length
      → write_message_n sha512 msg net (record { total = total; stream = buffer out })
        ≡ ok tt (record {
          total = total + length (frame net msg.command payload);
          stream = buffer (out ++ frame net msg.command payload);
        })
  unfolding write_message_n frame
  write_message_n-frame msg payload net total out e h k l =
      rw
        (
          ge→ltb command_size (length msg.command) h,
          payload_of-text msg payload _ e,
          ge→ltb max_message_payload (length payload) k,
          ge→ltb msg.max_payload_length (length payload) l,
          header_bytes-text,
          send-buffer,
          send-buffer,
        )
        (ap₂ sent (omega (arith, length-append head payload)) (append_assoc out head payload))
    where
      head : Bytes
      head =
          header_text net (copy_zeroed command_size msg.command) (length payload)
            (checksum_of sha512 payload)

  -- A message whose command is short enough, and whose `Encode` makes a payload that is longer
  -- than MaxMessagePayload or than the limit of its type, is refused, and the writer and its count
  -- are left as they were.
  pub write_message_n_refuses :
      (msg : Message) (payload : Bytes) (net : ℕ) (w : Counted Sink)
      → Emits msg.encode payload
      → length msg.command ≤ command_size
      → min max_message_payload msg.max_payload_length < length payload
      → write_message_n sha512 msg net w ≡ err payload_too_large w
  unfolding write_message_n
  write_message_n_refuses msg payload net w e h k =
      rw (ge→ltb command_size (length msg.command) h, payload_of-text msg payload w e)
        (elim (Bool-cases (ltb max_message_payload (length payload))) [
          | inl large ↦ rw large refl
          | inr small ↦
              let l = ltb→ge max_message_payload (length payload) small in
              rw (small, lt→ltb msg.max_payload_length (length payload) (omega arith)) refl
        ])
