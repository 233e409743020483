-- ===== src/Wire/Message/Refused.antt =====
-- The frames that `ReadMessageN` refuses, with the error and the place where it stops.
use bmutil.Wire.Message.{
  discard, read_payload, read_message_n, checksum_of, Command, max_message_payload, command_size,
  err, other_network, checksum_failed, payload_too_large,
}
use bmutil.Wire.Message.Write.{header_text}
use bmutil.Wire.Message.Read.{
  IsHeader, read_message_header-text, trim_right-command, valid_utf8-command, read_counted-text,
}
use bmutil.Common.{
  refl, ◌==◌, Bytes, ℕ, copy_zeroed, length, ◌≤◌, ◌<◌, ◌≢◌, ◌++◌, ◌≡◌, ◌+◌, lt→ltb, equal, false,
  Bool-cases, arith, inl, ge→ltb, sym, equal_iff, drop-append, inr, ==_iff,
}
use bmutil.Wire.Known.{command_bytes, max_payload_length}
use bmutil.Wire.Message.Discard.{discard_input-drop}
use bmutil.Wire.Known.Codec.{make_empty_message_lem}

module _ (sha512 : Bytes → Bytes) where
  -- A frame of another network, with header fields in range and a payload of the announced length,
  -- at most MaxMessagePayload, is refused and skipped with its payload, whatever that holds; only
  -- the header is counted.
  pub other_network_refused :
      (net magic total : ℕ) (name sum payload rest : Bytes)
      → IsHeader magic name (length payload) sum
      → length payload ≤ max_message_payload
      → magic ≢ net
      → read_message_n sha512 net (record {
        total = total;
        stream = header_text magic name (length payload) sum ++ (payload ++ rest);
      })
        ≡ err other_network (record { total = total + 24; stream = rest })
  unfolding read_message_n discard
  other_network_refused net magic total name sum payload rest h k n =
      let other : (magic == net) ≡ false = ground arith in
      rw
        (
          read_message_header-text magic name (length payload) sum (payload ++ rest) total h,
          ge→ltb max_message_payload (length payload) k,
          other,
          discard_input-drop,
          drop-append payload rest,
        )
        refl

  -- A header with fields in range that announces more than `MaxMessagePayload` bytes is refused,
  -- and nothing behind it is read.
  oversized_refused :
      (net magic size total : ℕ) (name sum rest : Bytes)
      → IsHeader magic name size sum
      → max_message_payload < size
      → read_message_n sha512 net
          (record { total = total; stream = header_text magic name size sum ++ rest })
        ≡ err payload_too_large (record { total = total + 24; stream = rest })
  unfolding read_message_n
  oversized_refused net magic size total name sum rest h k =
      rw
        (
          read_message_header-text magic name size sum rest total h,
          lt→ltb max_message_payload size k,
        )
        refl

  -- A frame of the network with header fields in range, a command that is known, a payload within
  -- its limits, and a checksum that is not the payload's, is refused, and the payload is used up
  -- and counted.
  pub wrong_checksum_refused :
      (c : Command) (net total : ℕ) (sum payload rest : Bytes)
      → IsHeader net (copy_zeroed command_size (command_bytes c)) (length payload) sum
      → length payload ≤ max_message_payload
      → length payload ≤ max_payload_length c
      → sum ≢ checksum_of sha512 payload
      → read_message_n sha512 net (record {
        total = total;
        stream =
            header_text net (copy_zeroed command_size (command_bytes c)) (length payload) sum
            ++ (payload ++ rest);
      })
        ≡ err checksum_failed (record { total = total + 24 + length payload; stream = rest })
  unfolding read_message_n read_payload
  wrong_checksum_refused c net total sum payload rest h k l n =
      rw
        (
          read_message_header-text net (copy_zeroed command_size (command_bytes c)) (length payload)
              sum (payload ++ rest) total h,
          ge→ltb max_message_payload (length payload) k,
          (==_iff net net).1 refl,
          trim_right-command c,
          valid_utf8-command c,
          read_counted-text payload rest (length payload) (total + 24) refl,
          make_empty_message_lem c,
          ge→ltb (max_payload_length c) (length payload) l,
          differs,
        )
        refl
    where
      differs : equal (checksum_of sha512 payload) sum ≡ false
      differs = elim (Bool-cases (equal (checksum_of sha512 payload) sum)) [
        | inl e ↦ absurd (n (sym ((equal_iff (checksum_of sha512 payload) sum).0 e)))
        | inr e ↦ e
      ]
