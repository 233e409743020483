-- ===== src/Wire/Message.antt =====
-- wire/message.go: the frame round a message. `hash.Sha512` of hash/sha512.go calls Go's
-- `crypto/sha512`, and is a parameter here.
pub mod Discard
pub mod Write
pub mod Read
pub mod Refused
pub mod Accepted
pub mod Resync
pub mod RoundTrip
use bmutil.Common.{
  ℕ, zero, suc, ◌+◌, ◌-◌, ◌*◌, ◌/◌, ◌%◌, not, [], ◌∷◌, ◌++◌, Bytes, length, take, ltb, ◌==◌, equal,
  copy_zeroed, if◌then◌else◌, ◌&&◌, Bool, true, false,
}
use bmutil.Error.{
  command_too_long, payload_too_large, payload_exceeds_max, other_network, invalid_command,
  checksum_failed,
}
use bmutil.Stream.{
  Outcome, ok, err, state, M, ◌>>=◌, ◌>>◌, pure, fail, Reader, Writer, Sink, buffer, read_full,
  write, written,
}
use bmutil.Wire.Element.{bitmessage_net, command, uint32, checksum, read_elements, write_elements}
use bmutil.Wire.Limits.{message_header_size, command_size, max_message_payload}
use bmutil.Wire.Known.{
  Message, Command, KnownMessage, make_empty_message, max_payload_length, decode,
}
use bmutil.Wire.Utf8.{valid_utf8}

pub record MessageHeader : Type 0 where
  pub magic : ℕ
  pub name : Bytes
  pub size : ℕ
  pub sum : Bytes

-- A writer or a reader with the count `totalBytes` that the functions with an N return
pub record Counted (S : Type 0) : Type 0 where
  pub total : ℕ
  pub stream : S

is_nil : Bytes → Bool
is_nil [] = true
is_nil (b ∷ bs) = false

-- `bytes.TrimRight(b, "\x00")`
pub trim_right : Bytes → Bytes
unfolding is_nil
trim_right [] = []
trim_right (b ∷ bs) = let rest = trim_right bs in if b == 0 && is_nil rest then [] else b ∷ rest

-- `io.ReadFull` with its count added to the total, also where it fails
pub read_counted : ℕ → M (Counted Bytes) Bytes
read_counted n r = elim (read_full n r.stream) [
  | ok b rest ↦ ok b (record { total = r.total + length b; stream = rest })
  | err e rest ↦ err e (record { total = r.total + (length r.stream - length rest); stream = rest })
]

-- the fields of the 24 bytes of a header, in order; from so many bytes `ReadElements` succeeds
pub parse_header : Bytes → MessageHeader
unfolding trim_right
parse_header bs = elim (read_elements (bitmessage_net ∷ command ∷ uint32 ∷ checksum ∷ []) bs) [
  | ok es rest ↦ record {
    magic = es.0;
    name = trim_right es.1.0;
    size = es.1.1.0;
    sum = es.1.1.1.0;
  }
  | err e rest ↦ record { magic = 0; name = []; size = 0; sum = [] }
]

pub read_message_header : M (Counted Bytes) MessageHeader
unfolding read_counted parse_header
read_message_header = do b ← read_counted message_header_size; pure (parse_header b)

-- the loop of `discardInput` over whole chunks, whose errors are dropped
pub discard_chunks : ℕ → Bytes → Bytes
discard_chunks zero r = r
discard_chunks (suc k) r = discard_chunks k (state (read_full (10 * 1024) r))

unfoldable pub discard_input : ℕ → Bytes → Bytes
unfolding discard_chunks
discard_input n r =
    let max_size = 10 * 1024 in
    let num_reads = n / max_size in
    let bytes_remaining = n % max_size in
    let r' = if ltb 0 n then discard_chunks num_reads r else r in
    if ltb 0 bytes_remaining then state (read_full bytes_remaining r') else r'

-- `discardInput` on a counted reader: what it skips is not counted
pub discard : ℕ → M (Counted Bytes) (Unit {0})
discard n r = ok tt (record r { stream = discard_input n r.stream })

-- `msg.Encode(&bw)` into a new buffer
pub payload_of {ℓ} : {S : Type ℓ} → Message → M S Bytes
payload_of msg s = elim (msg.encode (buffer [])) [ ok u t ↦ ok (written t) s | err e t ↦ err e s ]

-- `msg.Decode(bytes.NewReader(payload))`
pub decode_payload {ℓ} : {S : Type ℓ} → Command → Bytes → M S KnownMessage
decode_payload c payload s = elim (decode c payload) [
  | ok msg rest ↦ ok msg s
  | err e rest ↦ err e s
]

-- `w.Write(p)` with its count added to the total: a sink that refuses has taken nothing
pub send : Bytes → M (Counted Sink) (Unit {0})
send p w = elim (write p w.stream) [
  | ok u s ↦ ok tt (record { total = w.total + length p; stream = s })
  | err e s ↦ err e (record { total = w.total; stream = s })
]

-- the bytes that `WriteElements(hw, hdr.magic, command, hdr.length, hdr.checksum)` puts in a buffer
pub header_bytes : ℕ → Bytes → ℕ → Bytes → Bytes
header_bytes magic name size sum = written (
    state (
      write_elements (bitmessage_net ∷ command ∷ uint32 ∷ checksum ∷ [])
        (magic, (name, (size, (sum, tt)))) (buffer [])))

module _ (sha512 : Bytes → Bytes) where
  -- `hash.Sha512(payload)[0:4]`
  unfoldable pub checksum_of : Bytes → Bytes
  checksum_of payload = take 4 (sha512 payload)

  pub write_message_n : Message → ℕ → M (Counted Sink) (Unit {0})
  unfolding payload_of send header_bytes checksum_of
  write_message_n msg bmnet =
      if ltb command_size (length msg.command) then fail command_too_long else do
        payload ← payload_of msg
        if ltb max_message_payload (length payload)
            then fail payload_too_large
            else if ltb msg.max_payload_length (length payload)
            then fail payload_too_large
            else do
              send (
                  header_bytes bmnet (copy_zeroed command_size msg.command) (length payload)
                    (checksum_of payload))
              send payload

  -- `ReadMessageN` from its check of the command on
  pub read_payload : MessageHeader → M (Counted Bytes) (KnownMessage × Bytes)
  unfolding read_counted decode_payload checksum_of
  read_payload hdr = do
    payload ← read_counted hdr.size
    c ← make_empty_message hdr.name
    if ltb (max_payload_length c) hdr.size
        then fail payload_exceeds_max
        else if not (equal (checksum_of payload) hdr.sum)
        then fail checksum_failed
        else do msg ← decode_payload c payload; pure (msg, payload)

  pub read_message_n : ℕ → M (Counted Bytes) (KnownMessage × Bytes)
  unfolding read_message_header discard read_payload
  read_message_n bmnet = do
    hdr ← read_message_header
    if ltb max_message_payload hdr.size
        then fail payload_too_large
        else if not (hdr.magic == bmnet)
        then (discard hdr.size >> fail other_network)
        else if not (valid_utf8 hdr.name)
        then (discard hdr.size >> fail invalid_command)
        else read_payload hdr
