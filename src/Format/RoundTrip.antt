-- ===== src/Format/RoundTrip.antt =====
-- The encodings on the wire and back.
use bmutil.Common.{
  ℕ, ◌≡◌, ◌↔◌, ◌≤◌, refl, ap, ◌++◌, Bytes, length, ◌==◌, Option, none, some, if_either, arith,
  ==_iff, sym,
}
use bmutil.Error.{Result, returned, failed, message_too_long}
use bmutil.Stream.Emits.{Emits, Emits-bind, Emits-write}
use bmutil.Stream.Parses.{Parses, Parses-bind, Parses-map}
use bmutil.Types.{IsU64}
use bmutil.Types.VarInt.{var_int, Emits-var_int, Parses-var_int}
use bmutil.Types.VarBytes.{Parses-limited}
use bmutil.Wire.MsgObject.{max_payload_of_msg_object}
use bmutil.Format.{
  Encoding, encoding1, encoding2, encoding, message, encode, decode, read, read_message1,
  read_message2, find_submatches, from_matches,
}
use bmutil.Format.Lines.{IsLine, find_submatches-matched, find_submatches-Found, Found}

-- A text whose subject, if it has one, is one line
abbrev pub IsOneLine : Encoding → Type 0
IsOneLine (encoding1 b) = Unit
IsOneLine (encoding2 s b) = IsLine s

read-message : (l : Encoding) → IsOneLine l → read (encoding l) (message l) ≡ returned l
unfolding read read_message1 read_message2 message from_matches
read-message (encoding1 b) h = refl
read-message (encoding2 s b) h = ap from_matches (find_submatches-matched s b h)

abbrev Exact : ℕ → Bytes → Result Encoding → Type 0
Exact n msg (failed e) = Unit
Exact n msg (returned l) = (encoding l ≡ n) × (message l ≡ msg) × IsOneLine l

Exact-matches :
    (msg : Bytes) (o : Option (Bytes × Bytes)) → Found msg o → Exact 2 msg (from_matches o)
unfolding message from_matches
Exact-matches msg none h = tt
Exact-matches msg (some p) h = (refl, sym (h.1), h.0)

Exact-read : (n : ℕ) (msg : Bytes) → Exact n msg (read n msg)
unfolding read read_message1 read_message2 message
Exact-read n msg =
    if_either (Exact n msg) (n == 1) (λ e. (sym ((==_iff n 1).0 e), refl, tt))
      (λ _.
        if_either (Exact n msg) (n == 2)
          (λ e.
            rw ((==_iff n 2).0 e)
              (Exact-matches msg (find_submatches msg) (find_submatches-Found msg)))
          (λ _. tt))

-- `Read` makes of a number and the text of a message only what has that number and that very text,
-- with a subject of one line.
read_exact :
    (n : ℕ) (msg : Bytes) (l : Encoding)
    → read n msg ≡ returned l
    → (encoding l ≡ n) × (message l ≡ msg) × IsOneLine l
read_exact n msg l e = rw e at (Exact-read n msg)

-- `Read` makes a message again of its number and its text just where its subject, if it has one, has
-- no newline.
pub read_iff : (l : Encoding) → (read (encoding l) (message l) ≡ returned l) ↔ IsOneLine l
read_iff l = (λ e. (read_exact (encoding l) (message l) l e).2, read-message l)

abbrev pub text : Encoding → Bytes
text l = var_int (encoding l) ++ (var_int (length (message l)) ++ message l)

encoding-IsU64 : (l : Encoding) → IsU64 (encoding l)
encoding-IsU64 (encoding1 b) = omega arith
encoding-IsU64 (encoding2 s b) = omega arith

-- A message whose subject, if it has one, is one line, and whose text has at most 2 ^ 18 bytes, is
-- encoded as its number, the length of its text and its text, and decoded from that whatever
-- follows; each proper prefix gives the end of the input.
pub encoding_round_trip :
    (l : Encoding)
    → IsOneLine l
    → length (message l) ≤ max_payload_of_msg_object
    → Emits (encode l) (text l) × Parses decode (text l) l
unfolding encode decode
encoding_round_trip l h fits = (
  Emits-bind _ (Emits-var_int (encoding l))
      (Emits-bind _ (Emits-var_int (length (message l))) (Emits-write (message l))),
  Parses-bind _ (Parses-var_int (encoding l) (encoding-IsU64 l)) (
      Parses-bind _ (Parses-var_int (length (message l)) (omega arith)) (
        Parses-map _ (Parses-limited message_too_long max_payload_of_msg_object (message l) fits)
          (λ r. rw (read-message l h) refl))),
)
