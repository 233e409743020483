-- ===== src/Wire/MsgVersion.antt =====
-- wire/msgversion.go: the version message of a handshake. `ProtocolVersion`, an int32, and
-- `Timestamp`, in Unix seconds, are bit patterns. `NewMsgVersion` takes the clock as `now`.
pub mod RoundTrip
pub mod Size
pub mod Bounds
use Prim.Native.Nat.{bit_and, bit_or}
use bmutil.Common.{
  ℕ, zero, suc, ◌+◌, ◌*◌, ◌%◌, ◌^◌, Bool, false, List, [], ◌∷◌, ◌++◌, Bytes, codes, length, ltb,
  ◌==◌, if◌then◌else◌,
}
use bmutil.Error.{user_agent_too_long, too_many_streams}
use bmutil.Stream.{M, ok, ◌>>=◌, ◌>>◌, pure, fail, Reader, Writer}
use bmutil.Types.{
  read_var_int, write_var_int, read_var_string, write_var_string, var_int_serialize_size,
}
use bmutil.Wire.Element.{
  int32, int64, uint64, service_flag, read_element, write_element, read_elements, write_elements,
}
use bmutil.Wire.Limits.{max_message_payload}
use bmutil.Wire.Loops.{for_each, read_times}
use bmutil.Wire.NetAddress.{NetAddress, read_net_address, write_net_address}

abbrev pub max_user_agent_len : ℕ
max_user_agent_len = 5000

abbrev pub max_streams : ℕ
max_streams = 1

abbrev pub default_user_agent : Bytes
default_user_agent = codes "/wire:0.1.0/"

pub record MsgVersion : Type 0 where
  pub protocol_version : ℕ
  pub services : ℕ
  pub timestamp : ℕ
  pub addr_you : NetAddress
  pub addr_me : NetAddress
  pub nonce : ℕ
  pub user_agent : Bytes
  pub stream_numbers : List ℕ

pub has_service : MsgVersion → ℕ → Bool
has_service msg service = bit_and msg.services service == service

pub add_service : MsgVersion → ℕ → MsgVersion
add_service msg service = record msg { services = bit_or msg.services service }

pub validate_user_agent {ℓ} : {S : Type ℓ} → Bytes → M S (Unit {0})
validate_user_agent user_agent =
    if ltb max_user_agent_len (length user_agent) then fail user_agent_too_long else pure tt

-- one round of the loop over the stream numbers: `uint32(n)`
pub read_stream : Reader ℕ
read_stream = do n ← read_var_int; pure (n % 2 ^ 32)

-- `msg.StreamNumbers[i] = …`, where the entries before `i` are filled
abbrev pub add_stream : List ℕ → ℕ → List ℕ
add_stream streams n = streams ++ (n ∷ [])

-- the stream numbers at the end of `Decode`
pub read_streams : Reader (List ℕ)
unfolding read_stream
read_streams = do
  stream_len ← read_var_int
  if ltb max_streams stream_len
      then fail too_many_streams
      else read_times read_stream add_stream stream_len []

pub decode : Reader MsgVersion
unfolding validate_user_agent read_streams
decode = do
  es ← read_elements (int32 ∷ service_flag ∷ int64 ∷ [])
  you ← read_net_address false
  me ← read_net_address false
  nonce ← read_element uint64
  user_agent ← read_var_string max_message_payload
  validate_user_agent user_agent
  streams ← read_streams
  pure (record {
    protocol_version = es.0;
    services = es.1.0;
    timestamp = es.1.1.0;
    addr_you = you;
    addr_me = me;
    nonce = nonce;
    user_agent = user_agent;
    stream_numbers = streams;
  })

-- the stream numbers at the end of `Encode`: the count is written before it is checked
pub write_streams : List ℕ → Writer
write_streams streams = do
  write_var_int (length streams)
  if ltb max_streams (length streams) then fail too_many_streams else for_each write_var_int streams

pub encode : MsgVersion → Writer
unfolding validate_user_agent write_streams
encode msg = do
  validate_user_agent msg.user_agent
  write_elements (int32 ∷ service_flag ∷ int64 ∷ [])
      (msg.protocol_version, (msg.services, (msg.timestamp, tt)))
  write_net_address msg.addr_you false
  write_net_address msg.addr_me false
  write_element uint64 msg.nonce
  write_var_string msg.user_agent
  write_streams msg.stream_numbers

abbrev pub command : Bytes
command = codes "version"

pub max_payload_length : ℕ
max_payload_length =
    4
    + 8
    + 8
    + 26 * 2
    + 8
    + var_int_serialize_size max_user_agent_len
    + max_user_agent_len
    + max_streams
    + var_int_serialize_size max_streams * max_streams

pub new_msg_version : ℕ → NetAddress → NetAddress → ℕ → List ℕ → MsgVersion
new_msg_version now me you nonce streams = record {
  protocol_version = 3;
  services = 0;
  timestamp = now;
  addr_you = you;
  addr_me = me;
  nonce = nonce;
  user_agent = default_user_agent;
  stream_numbers = streams;
}

-- `strings.Join(comments, "; ")`
unfoldable pub join : List Bytes → Bytes
join [] = []
join (c ∷ []) = c
join (c ∷ d ∷ cs) = c ++ (codes "; " ++ join (d ∷ cs))

-- the part of the user agent that `AddUserAgent` adds, without the closing slash
unfoldable pub agent : Bytes → Bytes → List Bytes → Bytes
unfolding join
agent name version [] = name ++ (codes ":" ++ version)
agent name version (c ∷ cs) =
    (name ++ (codes ":" ++ version)) ++ (codes "(" ++ (join (c ∷ cs) ++ codes ")"))

pub add_user_agent : Bytes → Bytes → List Bytes → M MsgVersion (Unit {0})
unfolding agent validate_user_agent
add_user_agent name version comments msg =
    let new_user_agent = msg.user_agent ++ (agent name version comments ++ codes "/") in
    (validate_user_agent new_user_agent >> λ m. ok tt (record m { user_agent = new_user_agent }))
      msg
