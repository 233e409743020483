-- ===== src/Format.antt =====
-- format/encoding.go: the two encodings of the text of a message. A `string` is its bytes.
pub mod Lines
pub mod RoundTrip
use bmutil.Common.{ℕ, [], ◌∷◌, ◌++◌, Bytes, codes, length, ◌==◌, if◌then◌else◌, Option, none, some}
use bmutil.Error.{Result, returned, failed, message_too_long, invalid_format, unsupported_encoding}
use bmutil.Stream.{◌>>=◌, ◌>>◌, pure, fail, Reader, Writer, write}
use bmutil.Types.{read_var_int, write_var_int, limited}
use bmutil.Wire.MsgObject.{max_payload_of_msg_object}

-- The implementations of the interface `Encoding`
pub data Encoding : Type 0 where
  encoding1 : (body : Bytes) → Encoding
  encoding2 : (subject body : Bytes) → Encoding

-- the methods `Encoding`
abbrev pub encoding : Encoding → ℕ
encoding (encoding1 b) = 1
encoding (encoding2 s b) = 2

-- the methods `Message`
unfoldable pub message : Encoding → Bytes
message (encoding1 b) = b
message (encoding2 s b) = codes "Subject:" ++ (s ++ (10 ∷ (codes "Body:" ++ b)))

unfoldable pub encode : Encoding → Writer
encode l = do write_var_int (encoding l); write_var_int (length (message l)); write (message l)

-- What stands behind a literal of the regular expression
unfoldable pub strip_prefix : Bytes → Bytes → Option Bytes
strip_prefix [] s = some s
strip_prefix (p ∷ ps) [] = none
strip_prefix (p ∷ ps) (x ∷ xs) = let rest = strip_prefix ps xs in if p == x then rest else none

abbrev pub with_first : ℕ → Option (Bytes × Bytes) → Option (Bytes × Bytes)
with_first x none = none
with_first x (some p) = some (x ∷ p.0, p.1)

-- `(.*)\n`: a `.` matches all but a newline
unfoldable pub split_line : Bytes → Option (Bytes × Bytes)
split_line [] = none
split_line (x ∷ xs) =
    let rest = split_line xs in if x == 10 then some ([], xs) else with_first x rest

-- The two submatches of `^Subject:(.*)\nBody:((?s).*)`, from the last part on
unfoldable pub match_body : Bytes → Option Bytes → Option (Bytes × Bytes)
match_body subject none = none
match_body subject (some body) = some (subject, body)

unfoldable pub match_line : Option (Bytes × Bytes) → Option (Bytes × Bytes)
match_line none = none
match_line (some line) = match_body (line.0) (strip_prefix (codes "Body:") (line.1))

unfoldable pub match_subject : Option Bytes → Option (Bytes × Bytes)
match_subject none = none
match_subject (some rest) = match_line (split_line rest)

-- `FindStringSubmatch`
unfoldable pub find_submatches : Bytes → Option (Bytes × Bytes)
find_submatches msg = match_subject (strip_prefix (codes "Subject:") msg)

-- the methods `readMessage`
unfoldable pub read_message1 : Bytes → Result Encoding
read_message1 msg = returned (encoding1 msg)

unfoldable pub from_matches : Option (Bytes × Bytes) → Result Encoding
from_matches (some matches) = returned (encoding2 (matches.0) (matches.1))
from_matches none = failed invalid_format

unfoldable pub read_message2 : Bytes → Result Encoding
read_message2 msg = from_matches (find_submatches msg)

-- `Read`
unfoldable pub read : ℕ → Bytes → Result Encoding
unfolding read_message1 read_message2
read encoding msg =
    if encoding == 1
    then read_message1 msg
    else if encoding == 2
    then read_message2 msg
    else failed unsupported_encoding

abbrev pub lift : Result Encoding → Reader Encoding
lift (returned l) = pure l
lift (failed e) = fail e

unfoldable pub decode : Reader Encoding
unfolding read
decode = do
  encoding ← read_var_int
  msg_length ← read_var_int
  message ← limited message_too_long max_payload_of_msg_object msg_length
  lift (read encoding message)
