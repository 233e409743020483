-- ===== src/Wire/Known/Codec.antt =====
-- The seven messages taken together: their texts, and their round trip.
use bmutil.Common.{
  ◌≡◌, refl, [], Bytes, equal, ◌≢◌, ◌⊎◌, inl, inr, true, false, Bool-cases, equal_iff,
}
use bmutil.Stream.{ok, err}
use bmutil.Stream.Emits.{Emits, Emits-pure}
use bmutil.Stream.Parses.{Parses-end}
use bmutil.Stream.Yields.{Yields, Yields-bind, Yields-pure}
use bmutil.Wire.Empty.{encode_ver_ack, encode_pong, decode_ver_ack, decode_pong, pong, ver_ack}
use bmutil.Wire.MsgAddr
use bmutil.Wire.MsgInv
use bmutil.Wire.MsgGetData
use bmutil.Wire.MsgVersion
use bmutil.Wire.MsgObject
use bmutil.Wire.Known.{
  Command, version, ver_ack, addr, inv, get_data, object, KnownMessage, version_msg, ver_ack_msg,
  addr_msg, inv_msg, get_data_msg, pong_msg, object_msg, make_empty_message, command_bytes, decode,
  encode, command_of,
}
use bmutil.Error.{unhandled_command}

-- The fields of a message fit their Go types, and its lists and strings their limits.
abbrev pub IsValid : KnownMessage → Type 0
IsValid (version_msg msg) = MsgVersion.RoundTrip.IsValid msg
IsValid (ver_ack_msg msg) = Unit {0}
IsValid (addr_msg msg) = MsgAddr.Bounds.IsValid msg
IsValid (inv_msg msg) = MsgInv.RoundTrip.IsValid msg
IsValid (get_data_msg msg) = MsgGetData.RoundTrip.IsValid msg
IsValid (pong_msg msg) = Unit {0}
IsValid (object_msg msg) = MsgObject.IsValid msg

-- The payload that a message is sent as
unfoldable pub text : KnownMessage → Bytes
text (version_msg msg) = MsgVersion.RoundTrip.text msg
text (ver_ack_msg msg) = []
text (addr_msg msg) = MsgAddr.RoundTrip.text msg
text (inv_msg msg) = MsgInv.RoundTrip.text msg
text (get_data_msg msg) = MsgGetData.RoundTrip.text msg
text (pong_msg msg) = []
text (object_msg msg) = MsgObject.text msg

-- What the other side sees of a message
unfoldable pub received : KnownMessage → KnownMessage
received (version_msg msg) = version_msg (MsgVersion.RoundTrip.received msg)
received (addr_msg msg) = addr_msg (MsgAddr.RoundTrip.received msg)
received (ver_ack_msg msg) = ver_ack_msg msg
received (inv_msg msg) = inv_msg msg
received (get_data_msg msg) = get_data_msg msg
received (pong_msg msg) = pong_msg msg
received (object_msg msg) = object_msg msg

pub Emits-encode : (msg : KnownMessage) → IsValid msg → Emits (encode msg) (text msg)
unfolding encode text encode_ver_ack encode_pong
Emits-encode (version_msg msg) v = MsgVersion.RoundTrip.Emits-encode msg v.agent_short v.few_streams
Emits-encode (ver_ack_msg msg) v = Emits-pure
Emits-encode (addr_msg msg) v = MsgAddr.RoundTrip.Emits-encode msg v.few
Emits-encode (inv_msg msg) v = MsgInv.RoundTrip.Emits-encode msg v.few
Emits-encode (get_data_msg msg) v = MsgGetData.RoundTrip.Emits-encode msg v.few
Emits-encode (pong_msg msg) v = Emits-pure
Emits-encode (object_msg msg) v = MsgObject.Emits-encode msg

-- On its payload the decoder of a message's command gives the message as the other side sees it.
pub decode-text :
    (msg : KnownMessage) → IsValid msg → decode (command_of msg) (text msg) ≡ ok (received msg) []
unfolding decode text received decode_ver_ack decode_pong
decode-text (version_msg msg) v = rw (Parses-end (MsgVersion.RoundTrip.Parses-decode msg v))
decode-text (ver_ack_msg ver_ack) v = refl
decode-text (addr_msg msg) v = rw (Parses-end (MsgAddr.RoundTrip.Parses-decode msg v))
decode-text (inv_msg msg) v = rw (Parses-end (MsgInv.RoundTrip.Parses-decode msg v))
decode-text (get_data_msg msg) v = rw (Parses-end (MsgGetData.RoundTrip.Parses-decode msg v))
decode-text (pong_msg pong) v = refl
decode-text (object_msg msg) v = rw (MsgObject.decode-text msg v.header_valid)

-- On any input of bytes the decoder of a command takes bytes from its front, and every message
-- that it returns is one of its command, with its fields in range and its lists and strings within
-- their limits.
pub Yields-known : (c : Command) → Yields (decode c) (λ msg. (command_of msg ≡ c) × IsValid msg)
unfolding decode decode_ver_ack decode_pong
Yields-known version =
    Yields-bind _ _ MsgVersion.Bounds.Yields-version (λ msg v. Yields-pure _ (refl, v))
Yields-known Command.ver_ack = Yields-pure _ (refl, tt)
Yields-known addr = Yields-bind _ _ MsgAddr.RoundTrip.Yields-addr (λ msg v. Yields-pure _ (refl, v))
Yields-known inv = Yields-bind _ _ MsgInv.RoundTrip.Yields-inv (λ msg v. Yields-pure _ (refl, v))
Yields-known get_data =
    Yields-bind _ _ MsgGetData.RoundTrip.Yields-get_data (λ msg v. Yields-pure _ (refl, v))
Yields-known Command.pong = Yields-pure _ (refl, tt)
Yields-known object = Yields-bind _ _ MsgObject.Yields-object (λ msg v. Yields-pure _ (refl, v))

-- `makeEmptyMessage` answers with the type whose `Command` method returns the command, and with an
-- error for any other command.
pub make_empty_message_cases :
    {S : Type 0} (cmd : Bytes) (s : S)
    → ((c : Command) × (cmd ≡ command_bytes c) × (make_empty_message cmd s ≡ ok c s))
      ⊎ (((c : Command) → cmd ≢ command_bytes c)
          × (make_empty_message cmd s ≡ err unhandled_command s))
unfolding make_empty_message
make_empty_message_cases cmd s = elim (test version) [
  | inl e ↦ inl (version, is version e, rw e refl)
  | inr n0 ↦ rw n0 (elim (test Command.ver_ack) [
    | inl e ↦ inl (Command.ver_ack, is Command.ver_ack e, rw e refl)
    | inr n1 ↦ rw n1 (elim (test addr) [
      | inl e ↦ inl (addr, is addr e, rw e refl)
      | inr n2 ↦ rw n2 (elim (test inv) [
        | inl e ↦ inl (inv, is inv e, rw e refl)
        | inr n3 ↦ rw n3 (elim (test get_data) [
          | inl e ↦ inl (get_data, is get_data e, rw e refl)
          | inr n4 ↦ rw n4 (elim (test Command.pong) [
            | inl e ↦ inl (Command.pong, is Command.pong e, rw e refl)
            | inr n5 ↦ rw n5 (elim (test object) [
              | inl e ↦ inl (object, is object e, rw e refl)
              | inr n6 ↦ rw n6 (
                  inr (
                    elim [
                      | version ↦ isnt version n0
                      | ver_ack ↦ isnt Command.ver_ack n1
                      | addr ↦ isnt addr n2
                      | inv ↦ isnt inv n3
                      | get_data ↦ isnt get_data n4
                      | Command.pong ↦ isnt Command.pong n5
                      | object ↦ isnt object n6
                    ],
                    refl,
                  ))
            ])
          ])
        ])
      ])
    ])
  ])
]
  where
    test :
        (c : Command) → (equal cmd (command_bytes c) ≡ true) ⊎ (equal cmd (command_bytes c) ≡ false)
    test c = Bool-cases (equal cmd (command_bytes c))

    is : (c : Command) → equal cmd (command_bytes c) ≡ true → cmd ≡ command_bytes c
    is c e = (equal_iff cmd (command_bytes c)).0 e

    isnt : (c : Command) → equal cmd (command_bytes c) ≡ false → cmd ≢ command_bytes c
    isnt c n e = cc ((equal_iff cmd (command_bytes c)).1 e)

pub make_empty_message_lem :
    {S : Type 0} (c : Command) (s : S) → make_empty_message (command_bytes c) s ≡ ok c s
unfolding make_empty_message
make_empty_message_lem version s = refl
make_empty_message_lem Command.ver_ack s = refl
make_empty_message_lem addr s = refl
make_empty_message_lem inv s = refl
make_empty_message_lem get_data s = refl
make_empty_message_lem Command.pong s = refl
make_empty_message_lem object s = refl

-- Each of the seven messages, with its fields in range and its lists and strings within their
-- limits, is written as its payload, and the decoder of its command gives from that payload the
-- message as the other side sees it, with nothing left.
pub known_round_trip :
    (msg : KnownMessage)
    → IsValid msg
    → Emits (encode msg) (text msg) × (decode (command_of msg) (text msg) ≡ ok (received msg) [])
known_round_trip msg v = (Emits-encode msg v, decode-text msg v)
