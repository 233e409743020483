-- ===== src/Cipher/Bitmessage.antt =====
-- cipher/bitmessage.go: what a message or a broadcast says. The sender and the content are not nil; a
-- nil destination is `none`.
use bmutil.Common.{ℕ, ◌≡◌, ◌≤◌, refl, ◌++◌, Bytes, Option, none, some, length}
use bmutil.Crypto.{Library, IsLawful}
use bmutil.Stream.{◌>>=◌, ◌>>◌, pure, Reader, Writer}
use bmutil.Stream.Emits.{Emits, Emits-bind}
use bmutil.Stream.Parses.{Parses, Parses-bind, Parses-map}
use bmutil.Format.{Encoding, message}
use bmutil.Format as Format
use bmutil.Format.RoundTrip.{IsOneLine, encoding_round_trip}
use bmutil.Format.RoundTrip as FormatText
use bmutil.Wire.Element.{ripe, read_element}
use bmutil.Wire.Element.RoundTrip.{InRange, Emits-element, Parses-element}
use bmutil.Wire.MsgObject.{max_payload_of_msg_object}
use bmutil.Wire.Obj.GetPubKey.{write_pointer}
use bmutil.Wire.Obj.PubKeyData.{pow_or_default}
use bmutil.Identity.PublicId.{PublicId}
use bmutil.Identity.PublicId
use bmutil.Identity.PublicId.RoundTrip as PublicText
use bmutil.Identity.PublicId.Stable.{IsRaised, text-received, received-IsValid, received-IsRaised}

module _ (L : Library) where
  pub record Bitmessage : Type 0 where
    pub public : PublicId L
    pub destination : Option Bytes
    pub content : Encoding

  unfoldable pub encode_message : Bitmessage → Writer
  encode_message b = do
    PublicId.encode L b.public
    write_pointer ripe b.destination
    Format.encode b.content

  unfoldable pub encode_broadcast : Bitmessage → Writer
  encode_broadcast b = do PublicId.encode L b.public; Format.encode b.content

  module _ (out_of_range : ℕ) where
    unfoldable pub decode_message : Reader Bitmessage
    decode_message = do
      public ← PublicId.decode L out_of_range
      destination ← read_element ripe
      content ← Format.decode
      pure (record { public = public; destination = some destination; content = content })

    -- The destination stays that of the receiver.
    unfoldable pub decode_broadcast : Option Bytes → Reader Bitmessage
    decode_broadcast destination = do
      public ← PublicId.decode L out_of_range
      content ← Format.decode
      pure (record { public = public; destination = destination; content = content })

  -- The sender has an address, and a difficulty that comes back as it is; the content is text that
  -- can be read back.
  pub record IsValid (b : Bitmessage) : Type 0 where
    pub public_valid : PublicText.IsValid L b.public
    pub public_raised : IsRaised (pow_or_default b.public.pow)
    pub one_line : IsOneLine b.content
    pub content_short : length (message b.content) ≤ max_payload_of_msg_object

  -- What comes back: the difficulty of the sender is spelt out.
  unfoldable pub received : ℕ → Bitmessage → Bitmessage
  received o b = record b { public = PublicText.received L o b.public }

  abbrev pub message_text : Bitmessage → Bytes → Bytes
  message_text b destination =
      PublicText.text L b.public ++ (destination ++ FormatText.text b.content)

  abbrev pub broadcast_text : Bitmessage → Bytes
  broadcast_text b = PublicText.text L b.public ++ FormatText.text b.content

  pub Emits-message :
      (b : Bitmessage) (destination : Bytes)
      → IsValid b
      → b.destination ≡ some destination
      → Emits (encode_message b) (message_text b destination)
  unfolding encode_message write_pointer
  Emits-message b destination v e =
      let rest : Emits (write_pointer ripe b.destination >> Format.encode b.content)
          (destination ++ FormatText.text b.content) =
        rw e (
          Emits-bind _ (Emits-element ripe destination)
            (encoding_round_trip b.content v.one_line v.content_short).0) in
      Emits-bind _ (PublicText.Emits-encode L b.public v.public_valid) rest

  pub Emits-broadcast : (b : Bitmessage) → IsValid b → Emits (encode_broadcast b) (broadcast_text b)
  unfolding encode_broadcast
  Emits-broadcast b v =
      Emits-bind _ (PublicText.Emits-encode L b.public v.public_valid)
        (encoding_round_trip b.content v.one_line v.content_short).0

  module _ (o : ℕ) (b : Bitmessage) (v : IsValid b) where
    pub received-again : IsValid (received o b)
    unfolding received
    received-again = record {
      public_valid = received-IsValid L o b.public v.public_raised v.public_valid;
      public_raised = received-IsRaised L o b.public v.public_raised;
      one_line = v.one_line;
      content_short = v.content_short;
    }

    -- It is written as what was sent, so it is signed as that.
    pub text_again : PublicText.text L (received o b).public ≡ PublicText.text L b.public
    unfolding received
    text_again = text-received L o b.public v.public_raised

  module _ (lawful : IsLawful L) (o : ℕ) (b : Bitmessage) (v : IsValid b) where
    pub Parses-message :
        (destination : Bytes)
        → b.destination ≡ some destination
        → InRange ripe destination
        → Parses (decode_message o) (message_text b destination) (received o b)
    unfolding decode_message received
    Parses-message destination e h =
        Parses-bind _ (PublicText.Parses-decode L lawful o b.public v.public_valid) (
          Parses-bind _ (Parses-element ripe destination h) (
            Parses-map _ (encoding_round_trip b.content v.one_line v.content_short).1
              (λ r. rw e refl)))

    pub Parses-broadcast :
        b.destination ≡ none → Parses (decode_broadcast o none) (broadcast_text b) (received o b)
    unfolding decode_broadcast received
    Parses-broadcast e =
        Parses-bind _ (PublicText.Parses-decode L lawful o b.public v.public_valid) (
          Parses-map _ (encoding_round_trip b.content v.one_line v.content_short).1
            (λ r. rw e refl))
