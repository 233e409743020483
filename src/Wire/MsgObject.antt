-- ===== src/Wire/MsgObject.antt =====
-- wire/msgobject.go: an object of any type, its header and the rest of the message. `Copy` makes
-- the same value, and is left out; `CheckPow` is the child module.
pub mod CheckPow
use bmutil.Common.{ℕ, ◌≡◌, ◌++◌, [], Bytes, IsByte, All, codes, ltb, if◌then◌else◌}
use bmutil.Stream.{ok, ◌>>=◌, ◌>>◌, pure, Reader, Writer, read_all, write}
use bmutil.Stream.Parses.{Parses}
use bmutil.Stream.Emits.{Emits, Emits-bind, Emits-write}
use bmutil.Stream.Yields.{Yields, Yields-bind, Yields-pure, Yields-read_all}
use bmutil.Wire.ObjectHeader
use bmutil.Wire.ObjectHeader.{ObjectHeader, decode_object_header}

abbrev pub max_payload_of_msg_object : ℕ
max_payload_of_msg_object = 262144

-- `ObjectType.String`, with `obStrings`
pub object_type_string : ℕ → Bytes
object_type_string t =
    if ltb t 4
    then (if ltb t 1
        then codes "Getpubkey"
        else if ltb t 2
        then codes "Pubkey"
        else if ltb t 3
        then codes "Msg"
        else codes "Broadcast")
    else codes "Unknown"

pub record MsgObject : Type 0 where
  pub header : ObjectHeader
  pub payload : Bytes

pub decode : Reader MsgObject
decode = do
  header ← decode_object_header
  payload ← read_all
  pure (record { header = header; payload = payload })

pub encode : MsgObject → Writer
encode msg = do ObjectHeader.encode msg.header; write msg.payload

unfoldable pub new_msg_object : ObjectHeader → Bytes → MsgObject
new_msg_object header payload = record { header = header; payload = payload }

-- `DecodeMsgObject`, with what is left of the bytes
pub decode_msg_object : Reader MsgObject
unfolding decode
decode_msg_object obj = decode obj

abbrev pub command : Bytes
command = codes "object"

pub record IsValid (msg : MsgObject) : Type 0 where
  pub header_valid : ObjectHeader.IsValid msg.header
  pub payload_bytes : All IsByte msg.payload

unfoldable pub text : MsgObject → Bytes
text msg = ObjectHeader.text msg.header ++ msg.payload

pub Emits-encode : (msg : MsgObject) → Emits (encode msg) (text msg)
unfolding encode text
Emits-encode msg = Emits-bind _ (ObjectHeader.Emits-encode msg.header) (Emits-write msg.payload)

-- `Decode` reads back what `Encode` wrote, if nothing follows: the payload runs to the end.
pub decode-text :
    (msg : MsgObject) → ObjectHeader.IsValid msg.header → decode (text msg) ≡ ok msg []
unfolding decode text read_all
decode-text msg v = rw (Parses.whole (ObjectHeader.Parses-decode msg.header v) msg.payload)

-- Whatever `Decode` returns has a header with its fields in range.
pub Yields-object : Yields decode IsValid
unfolding decode
Yields-object = Yields-bind _ _ ObjectHeader.Yields-header (λ header h.
    Yields-bind _ _ Yields-read_all
      (λ payload p. Yields-pure _ (record { header_valid = h; payload_bytes = p })))
