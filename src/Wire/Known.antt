-- ===== src/Wire/Known.antt =====
-- wire/message.go: the interface `Message`, and the seven messages that `makeEmptyMessage` makes.
pub mod Codec
use bmutil.Common.{ℕ, Bytes, codes, equal, if◌then◌else◌, []}
use bmutil.Error.{unhandled_command}
use bmutil.Stream.{M, ◌>>=◌, pure, fail, Reader, Writer, written, state, buffer}
use bmutil.Wire.MsgAddr
use bmutil.Wire.MsgAddr.{MsgAddr}
use bmutil.Wire.MsgInv
use bmutil.Wire.MsgInv.{MsgInv}
use bmutil.Wire.MsgGetData
use bmutil.Wire.MsgGetData.{MsgGetData}
use bmutil.Wire.MsgVersion
use bmutil.Wire.MsgVersion.{MsgVersion}
use bmutil.Wire.MsgObject
use bmutil.Wire.MsgObject.{MsgObject}
use bmutil.Wire.Empty.{
  MsgPong, MsgVerAck, decode_pong, encode_pong, pong_command, decode_ver_ack, encode_ver_ack,
  ver_ack_command,
}

-- The methods of a `Message` that `WriteMessageN` calls
pub record Message : Type 0 where
  pub command : Bytes
  pub max_payload_length : ℕ
  pub encode : Writer

-- The dynamic type of the `Message` that `makeEmptyMessage` returns
pub data Command : Type 0 where
  version ver_ack addr inv get_data pong object : Command

-- A message of one of these types
pub data KnownMessage : Type 0 where
  version_msg : MsgVersion → KnownMessage
  ver_ack_msg : MsgVerAck → KnownMessage
  addr_msg : MsgAddr → KnownMessage
  inv_msg : MsgInv → KnownMessage
  get_data_msg : MsgGetData → KnownMessage
  pong_msg : MsgPong → KnownMessage
  object_msg : MsgObject → KnownMessage

-- The constants `Cmd…`, as the `Command` methods return them
abbrev pub command_bytes : Command → Bytes
command_bytes version = MsgVersion.command
command_bytes ver_ack = ver_ack_command
command_bytes addr = MsgAddr.command
command_bytes inv = MsgInv.command
command_bytes get_data = MsgGetData.command
command_bytes pong = pong_command
command_bytes object = MsgObject.command

unfoldable pub make_empty_message {ℓ} : {S : Type ℓ} → Bytes → M S Command
unfolding equal
make_empty_message command =
    if equal command (codes "version")
    then pure version
    else if equal command (codes "verack")
    then pure ver_ack
    else if equal command (codes "addr")
    then pure addr
    else if equal command (codes "inv")
    then pure inv
    else if equal command (codes "getdata")
    then pure get_data
    else if equal command (codes "pong")
    then pure pong
    else if equal command (codes "object")
    then pure object
    else fail unhandled_command

-- the `MaxPayloadLength` methods
unfoldable pub max_payload_length : Command → ℕ
max_payload_length version = MsgVersion.max_payload_length
max_payload_length ver_ack = 0
max_payload_length addr = MsgAddr.max_payload_length
max_payload_length inv = MsgInv.max_payload_length
max_payload_length get_data = MsgGetData.max_payload_length
max_payload_length pong = 0
max_payload_length object = MsgObject.max_payload_of_msg_object

-- the `Decode` methods
unfoldable pub decode : Command → Reader KnownMessage
decode version = do msg ← MsgVersion.decode; pure (version_msg msg)
decode ver_ack = do msg ← decode_ver_ack; pure (ver_ack_msg msg)
decode addr = do msg ← MsgAddr.decode; pure (addr_msg msg)
decode inv = do msg ← MsgInv.decode; pure (inv_msg msg)
decode get_data = do msg ← MsgGetData.decode; pure (get_data_msg msg)
decode pong = do msg ← decode_pong; pure (pong_msg msg)
decode object = do msg ← MsgObject.decode; pure (object_msg msg)

-- the `Encode` methods
unfoldable pub encode : KnownMessage → Writer
encode (version_msg msg) = MsgVersion.encode msg
encode (ver_ack_msg msg) = encode_ver_ack msg
encode (addr_msg msg) = MsgAddr.encode msg
encode (inv_msg msg) = MsgInv.encode msg
encode (get_data_msg msg) = MsgGetData.encode msg
encode (pong_msg msg) = encode_pong msg
encode (object_msg msg) = MsgObject.encode msg

abbrev pub command_of : KnownMessage → Command
command_of (version_msg msg) = version
command_of (ver_ack_msg msg) = ver_ack
command_of (addr_msg msg) = addr
command_of (inv_msg msg) = inv
command_of (get_data_msg msg) = get_data
command_of (pong_msg msg) = pong
command_of (object_msg msg) = object

-- A message as the interface value that `WriteMessageN` takes
abbrev pub as_message : KnownMessage → Message
as_message msg = record {
  command = command_bytes (command_of msg);
  max_payload_length = max_payload_length (command_of msg);
  encode = encode msg;
}

-- `Encode` of wire/message.go, where the error of the method is dropped
pub encoded : Message → Bytes
encoded msg = written (state (msg.encode (buffer [])))
