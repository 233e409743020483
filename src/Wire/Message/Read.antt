-- ===== src/Wire/Message/Read.antt =====
-- `ReadMessageN`, up to its header, and what it does with the frames that it does not accept.
use bmutil.Wire.Message.{
  MessageHeader, trim_right, parse_header, read_message_header, read_counted, copy_zeroed, Bytes, ℕ,
  valid_utf8, length, ◌++◌, bitmessage_net, ok, command, uint32, checksum, Command,
}
use bmutil.Wire.Message.Write.{header_text}
use bmutil.Common.{◌≡◌, length-append, ◌∷◌, ◌+◌, arith, [], copy_zeroed, append-nil, refl, true}
use bmutil.Wire.Element.RoundTrip.{AllInRange, Parses-elements}
use bmutil.Stream.Parses.{Parses-end, Parses, Parses-read_full}
use bmutil.Binary.{length-put_be}
use bmutil.Wire.Utf8.{valid_utf8}
use bmutil.Wire.Known.{command_bytes, version, addr, inv, get_data, object}

-- The fields of a header are in the range of their Go types.
abbrev pub IsHeader : ℕ → Bytes → ℕ → Bytes → Type 0
IsHeader magic name size sum =
    AllInRange (bitmessage_net ∷ command ∷ uint32 ∷ checksum ∷ [])
      (magic, (name, (size, (sum, tt))))

abbrev pub header_of : ℕ → Bytes → ℕ → Bytes → MessageHeader
header_of magic name size sum = record {
  magic = magic;
  name = trim_right name;
  size = size;
  sum = sum;
}

pub length-header_text :
    (magic : ℕ) (name : Bytes) (size : ℕ) (sum : Bytes)
    → length name ≡ 12
    → length sum ≡ 4
    → length (header_text magic name size sum) ≡ 24
unfolding header_text
length-header_text magic name size sum h k = simp (length-append, length-put_be, h, k) (omega arith)

parse_header-text :
    (magic : ℕ) (name : Bytes) (size : ℕ) (sum : Bytes)
    → IsHeader magic name size sum
    → parse_header (header_text magic name size sum) ≡ header_of magic name size sum
unfolding parse_header header_text
parse_header-text magic name size sum h =
    let parsed = Parses-end (
      Parses-elements (bitmessage_net ∷ command ∷ uint32 ∷ checksum ∷ [])
        (magic, (name, (size, (sum, tt)))) h) in
    rw (parse_header, rw (append-nil sum) at parsed) refl

-- A counted reader of a text of `n` bytes
pub read_counted-text :
    (bs rest : Bytes) (n total : ℕ)
    → length bs ≡ n
    → read_counted n (record { total = total; stream = bs ++ rest })
      ≡ ok bs (record { total = total + length bs; stream = rest })
unfolding read_counted
read_counted-text bs rest n total h =
    rw (read_counted, Parses.whole (Parses-read_full bs n h) rest) refl

pub read_message_header-text :
    (magic : ℕ) (name : Bytes) (size : ℕ) (sum rest : Bytes) (total : ℕ)
    → IsHeader magic name size sum
    → read_message_header
        (record { total = total; stream = header_text magic name size sum ++ rest })
      ≡ ok (header_of magic name size sum) (record { total = total + 24; stream = rest })
unfolding read_message_header
read_message_header-text magic name size sum rest total h =
    let n = length-header_text magic name size sum h.1.0.0 h.1.1.1.0.0 in
    rw
      (
        read_counted-text (header_text magic name size sum) rest 24 total n,
        parse_header-text magic name size sum h,
        n,
      )
      refl

pub trim_right-command :
    (c : Command) → trim_right (copy_zeroed 12 (command_bytes c)) ≡ command_bytes c
unfolding trim_right copy_zeroed
trim_right-command version = refl
trim_right-command Command.ver_ack = refl
trim_right-command addr = refl
trim_right-command inv = refl
trim_right-command get_data = refl
trim_right-command Command.pong = refl
trim_right-command object = refl

pub valid_utf8-command : (c : Command) → valid_utf8 (command_bytes c) ≡ true
unfolding valid_utf8
valid_utf8-command version = refl
valid_utf8-command Command.ver_ack = refl
valid_utf8-command addr = refl
valid_utf8-command inv = refl
valid_utf8-command get_data = refl
valid_utf8-command Command.pong = refl
valid_utf8-command object = refl
