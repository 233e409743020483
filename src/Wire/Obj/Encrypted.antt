-- ===== src/Wire/Obj/Encrypted.antt =====
-- wire/obj/message.go: the object that carries an encrypted message, the type `Message` there.
use bmutil.Common.{
  ℕ, ◌≡◌, [], Bytes, ◌==◌, if◌then◌else◌, refl, arith, Bool, true, false, ==_iff, sym,
}
use bmutil.Error.{wrong_object_type}
use bmutil.Stream.{ok, ◌>>=◌, ◌>>◌, pure, fail, Reader, Writer, write, read_all}
use bmutil.Wire.ObjectHeader.{
  ObjectHeader, new_object_header, decode_object_header, object_type_msg,
}
use bmutil.Wire.MsgObject.{MsgObject}
use bmutil.Wire.MsgObject
use bmutil.Wire.ObjectHeader
use bmutil.Wire.Obj.Payload.{object_text, Emits-object}
use bmutil.Types.{IsU64}
use bmutil.Stream.Emits.{Emits, Emits-bind, Emits-write}
use bmutil.Stream.Run.{ok_inj}
use bmutil.Stream.Parses.{Parses}

abbrev pub message_version : ℕ
message_version = 1

pub record EncryptedMessage : Type 0 where
  pub header : ObjectHeader
  pub encrypted : Bytes

pub decode_payload : EncryptedMessage → Reader EncryptedMessage
decode_payload msg = do bs ← read_all; pure (record msg { encrypted = bs })

pub decode : EncryptedMessage → Reader EncryptedMessage
decode msg = do
  header ← decode_object_header
  if header.object_type == object_type_msg
      then decode_payload (record msg { header = header })
      else fail wrong_object_type

unfoldable pub encode : EncryptedMessage → Writer
encode msg = do ObjectHeader.encode msg.header; write msg.encrypted

unfoldable pub msg_object : EncryptedMessage → MsgObject
msg_object msg = record { header = msg.header; payload = msg.encrypted }

unfoldable pub new_message : ℕ → ℕ → ℕ → Bytes → EncryptedMessage
new_message nonce expiration stream_number encrypted = record {
  header = new_object_header nonce expiration object_type_msg message_version stream_number;
  encrypted = encrypted;
}

pub decode_payload-text :
    (msg : EncryptedMessage)
    → decode_payload (record { header = msg.header; encrypted = [] }) msg.encrypted ≡ ok msg []
unfolding decode_payload read_all
decode_payload-text msg = refl

pub Emits-encode :
    (msg : EncryptedMessage) → Emits (encode msg) (object_text msg.header msg.encrypted)
unfolding encode
Emits-encode msg = Emits-object msg.header _ (Emits-write msg.encrypted)

-- A message that `NewMessage` makes of fields in range is written with the text of its object, and
-- `Decode` into any message reads it back from that text, if nothing follows.
pub encrypted_round_trip :
    (nonce expiration stream_number : ℕ) (encrypted : Bytes) (start : EncryptedMessage)
    → IsU64 nonce
    → IsU64 expiration
    → IsU64 stream_number
    → Emits
        (encode (new_message nonce expiration stream_number encrypted))
        (MsgObject.text (msg_object (new_message nonce expiration stream_number encrypted)))
      × (decode start
            (MsgObject.text (msg_object (new_message nonce expiration stream_number encrypted)))
          ≡ ok (new_message nonce expiration stream_number encrypted) [])
unfolding encode decode decode_payload new_message msg_object MsgObject.text read_all
    new_object_header
encrypted_round_trip nonce expiration stream_number encrypted start n e s =
    let h = new_object_header nonce expiration object_type_msg message_version stream_number in
    (
      Emits-bind _ (ObjectHeader.Emits-encode h) (Emits-write encrypted),
      rw
          (Parses.whole
            (ObjectHeader.Parses-decode h (record {
              nonce_fits = n;
              expiration_fits = e;
              object_type_fits = omega arith;
              version_fits = omega arith;
              stream_fits = s;
            }))
            encrypted)
          refl,
    )

-- What `Decode` makes of the text of an object with a valid header is that object, and it has the
-- type of a message.
pub decode-object_text :
    (start msg x : EncryptedMessage) (rest : Bytes)
    → ObjectHeader.IsValid msg.header
    → decode start (object_text msg.header msg.encrypted) ≡ ok x rest
    → (msg.header.object_type ≡ object_type_msg) × (x ≡ msg)
unfolding decode decode_payload read_all
decode-object_text start msg x rest v e =
    let whole = Parses.whole (ObjectHeader.Parses-decode msg.header v) msg.encrypted in
    by_type (msg.header.object_type == object_type_msg) refl (rw whole at e)
  where
    by_type :
        (c : Bool)
        → (msg.header.object_type == object_type_msg) ≡ c
        → (if c
              then decode_payload (record start { header = msg.header })
              else fail wrong_object_type)
            msg.encrypted
          ≡ ok x rest
        → (msg.header.object_type ≡ object_type_msg) × (x ≡ msg)
    by_type true is_msg e =
        ((==_iff msg.header.object_type object_type_msg).0 is_msg, sym (ok_inj e))
    by_type false is_msg e = absurd (cc)
