-- ===== src/Tests/Messages.antt =====
-- wire/msgversion.go, wire/msgaddr.go, wire/msginv.go, wire/msggetdata.go, and the seven messages
-- of wire/message.go
use bmutil.Common.{◌≡◌, refl, [], ◌∷◌, arith, Bytes, replicate, codes}
use bmutil.Stream.{ok}
use bmutil.Wire.MsgVersion as Version
use bmutil.Wire.MsgVersion.{MsgVersion}
use bmutil.Wire.MsgAddr as Addr
use bmutil.Wire.MsgAddr.{MsgAddr}
use bmutil.Wire.MsgInv.{MsgInv}
use bmutil.Wire.MsgGetData.{MsgGetData}
use bmutil.Wire.Known as Known
use bmutil.Wire.Known.{KnownMessage, Command, version_msg}
use bmutil.Wire.Known.Codec as Codec
use bmutil.Tests.Inputs.{peer, peer-IsValid, hello, hello-IsValid, sha}
use bmutil.Stream.Yields.{Yields}
use bmutil.Stream.Emits.{Emits}

-- The longest user agent and a stream number of three bytes
abbrev long_hello : MsgVersion
long_hello = record hello { user_agent = replicate 5000 97; stream_numbers = 0xfd ∷ [] }

agent_run :
    Version.agent (codes "app") (codes "1") (codes "x" ∷ codes "y" ∷ []) ≡ codes "app:1(x; y)"
unfolding Version.agent Version.join
agent_run = refl

abbrev one_peer : MsgAddr
one_peer = record { addr_list = peer ∷ [] }

one_peer-IsValid : Addr.Bounds.IsValid one_peer
one_peer-IsValid = record { few = omega arith; each = (peer-IsValid, tt) }

abbrev many_peers : MsgAddr
many_peers = record { addr_list = replicate 1001 peer }

abbrev one_inv : MsgInv
one_inv = record { inv_list = sha ∷ [] }

abbrev one_get_data : MsgGetData
one_get_data = record { inv_list = sha ∷ [] }

known_round_trip_example :
    Emits (Known.encode (version_msg hello)) (Codec.text (version_msg hello))
    × (Known.decode (Known.command_of (version_msg hello)) (Codec.text (version_msg hello))
        ≡ ok (Codec.received (version_msg hello)) [])
known_round_trip_example = Codec.known_round_trip (version_msg hello) hello-IsValid

Yields-known_example :
    Yields
      (Known.decode Command.inv)
      (λ msg. (Known.command_of msg ≡ Command.inv) × Codec.IsValid msg)
Yields-known_example = Codec.Yields-known Command.inv

abbrev empty : Bytes
empty = []
