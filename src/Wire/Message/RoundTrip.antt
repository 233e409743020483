-- ===== src/Wire/Message/RoundTrip.antt =====
-- A message that `WriteMessageN` writes, `ReadMessageN` reads, and any other frame is refused.
use bmutil.Common.{
  ℕ, ◌+◌, ◌++◌, refl, Bytes, length, ◌≡◌, ◌≤◌, All, IsByte, ◌<◌, ◌^◌, copy_zeroed, arith,
  length-copy_zeroed, copy_zeroed-IsByte, length-take, All-take, append_assoc, ge→ltb, ==_iff,
  equal_iff, length-append, [], ◌∙◌,
}
use bmutil.Wire.Message.{
  read_payload, read_message_n, decode_payload, checksum_of, write_message_n, Command, command_size,
  max_message_payload, ok, buffer,
}
use bmutil.Wire.Known.{
  command_bytes, KnownMessage, version, addr, inv, get_data, object, max_payload_length, command_of,
  as_message,
}
use bmutil.Wire.Message.Write.{frame, header_text, write_message_n-frame}
use bmutil.Wire.Message.Read.{
  IsHeader, read_message_header-text, trim_right-command, valid_utf8-command, read_counted-text,
  length-header_text,
}
use bmutil.Wire.Known.Codec.{
  IsValid, text, received, make_empty_message_lem, decode-text, Emits-encode,
}

command_bytes-short :
    (c : Command) → (length (command_bytes c) ≤ command_size) × All IsByte (command_bytes c)
command_bytes-short version = ground arith
command_bytes-short Command.ver_ack = ground arith
command_bytes-short addr = ground arith
command_bytes-short inv = ground arith
command_bytes-short get_data = ground arith
command_bytes-short Command.pong = ground arith
command_bytes-short object = ground arith

-- SHA-512 gives 64 bytes.
module _ (sha512 : Bytes → Bytes) (sized : (b : Bytes) → length (sha512 b) ≡ 64)
    (bytes : (b : Bytes) → All IsByte (sha512 b)) where
  frame-IsHeader :
      (c : Command) (net : ℕ) (payload : Bytes)
      → net < 2 ^ 32
      → length payload ≤ max_message_payload
      → IsHeader net
          (copy_zeroed command_size (command_bytes c))
          (length payload)
          (checksum_of sha512 payload)
  unfolding checksum_of
  frame-IsHeader c net payload h k = (
    omega arith,
    (
      (
        length-copy_zeroed 12 (command_bytes c),
        copy_zeroed-IsByte 12 (command_bytes c) (command_bytes-short c).1,
      ),
      (
        omega arith,
        (
          (
            omega (arith, length-take 4 (sha512 payload), sized payload),
            All-take IsByte 4 (sha512 payload) (bytes payload),
          ),
          tt,
        ),
      ),
    ),
  )

  read_frame :
      (msg : KnownMessage) (net total : ℕ) (rest : Bytes)
      → IsValid msg
      → net < 2 ^ 32
      → length (text msg) ≤ max_message_payload
      → length (text msg) ≤ max_payload_length (command_of msg)
      → read_message_n sha512 net (record {
        total = total;
        stream = frame sha512 net (command_bytes (command_of msg)) (text msg) ++ rest;
      })
        ≡ ok
            (received msg, text msg)
            (record { total = total + 24 + length (text msg); stream = rest })
  unfolding frame read_message_n read_payload decode_payload
  read_frame msg net total rest v n k l =
      let c = command_of msg in
      let name = copy_zeroed command_size (command_bytes c) in
      let payload = text msg in
      let sum = checksum_of sha512 payload in
      rw
        (
          append_assoc,
          read_message_header-text net name (length payload) sum (payload ++ rest) total
              (frame-IsHeader c net payload n k),
          ge→ltb max_message_payload (length payload) k,
          (==_iff net net).1 refl,
          trim_right-command c,
          valid_utf8-command c,
          read_counted-text payload rest (length payload) (total + 24) refl,
          make_empty_message_lem c,
          ge→ltb (max_payload_length c) (length payload) l,
          (equal_iff sum sum).1 refl,
          decode_payload,
          decode-text msg v,
        )
        refl

  length-checksum_of : (payload : Bytes) → length (checksum_of sha512 payload) ≡ 4
  unfolding checksum_of
  length-checksum_of payload = omega (arith, length-take 4 (sha512 payload), sized payload)

  frame-length :
      (c : Command) (net : ℕ) (payload : Bytes)
      → length (frame sha512 net (command_bytes c) payload) ≡ 24 + length payload
  unfolding frame
  frame-length c net payload = omega (
    arith,
    length-append
        (header_text net (copy_zeroed command_size (command_bytes c)) (length payload)
          (checksum_of sha512 payload))
        payload,
    length-header_text net (copy_zeroed command_size (command_bytes c)) (length payload)
        (checksum_of sha512 payload) (length-copy_zeroed 12 (command_bytes c))
        (length-checksum_of payload),
  )

  -- Where SHA-512 gives 64 bytes and the network is a uint32, a valid message within the limits of
  -- its payload is written by `WriteMessageN` to a buffer as its frame, and `ReadMessageN` for the
  -- same network reads the message as the other side sees it, and its payload, from the frame with
  -- any bytes behind it; both count the bytes of the frame, and the reader stops right behind it.
  pub message_round_trip :
      (msg : KnownMessage) (net : ℕ) (rest : Bytes)
      → IsValid msg
      → net < 2 ^ 32
      → length (text msg) ≤ max_message_payload
      → length (text msg) ≤ max_payload_length (command_of msg)
      → (write_message_n sha512 (as_message msg) net (record { total = 0; stream = buffer [] })
          ≡ ok tt (record {
            total = 24 + length (text msg);
            stream = buffer (frame sha512 net (command_bytes (command_of msg)) (text msg));
          }))
        × (read_message_n sha512 net (record {
          total = 0;
          stream = frame sha512 net (command_bytes (command_of msg)) (text msg) ++ rest;
        })
            ≡ ok
                (received msg, text msg)
                (record { total = 24 + length (text msg); stream = rest }))
  message_round_trip msg net rest v n k l = (
    write_message_n-frame sha512 (as_message msg) (text msg) net 0 [] (Emits-encode msg v)
          (command_bytes-short (command_of msg)).0 k l
        ∙ (let z : 0 + (24 + length (text msg)) ≡ 24 + length (text msg) = omega arith in
            rw (frame-length (command_of msg) net (text msg), z) refl),
    read_frame msg net 0 rest v n k l,
  )
