-- ===== src/Wire/Empty.antt =====
-- wire/msgpong.go and wire/msgverack.go: the two messages with no payload. Neither reads nor
-- writes anything.
use bmutil.Common.{Bytes, codes}
use bmutil.Stream.{pure, Reader, Writer}

pub data MsgPong : Type 0 where
  pong : MsgPong

pub data MsgVerAck : Type 0 where
  ver_ack : MsgVerAck

unfoldable pub decode_pong : Reader MsgPong
decode_pong = pure pong

unfoldable pub encode_pong : MsgPong → Writer
encode_pong msg = pure tt

abbrev pub pong_command : Bytes
pong_command = codes "pong"

unfoldable pub decode_ver_ack : Reader MsgVerAck
decode_ver_ack = pure ver_ack

unfoldable pub encode_ver_ack : MsgVerAck → Writer
encode_ver_ack msg = pure tt

abbrev pub ver_ack_command : Bytes
ver_ack_command = codes "verack"
