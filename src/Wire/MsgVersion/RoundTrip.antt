-- ===== src/Wire/MsgVersion/RoundTrip.antt =====
-- `MsgVersion.Encode` and `MsgVersion.Decode`.
use bmutil.Wire.NetAddress.RoundTrip
use bmutil.Wire.MsgVersion.{
  MsgVersion, max_user_agent_len, max_streams, validate_user_agent, read_stream, add_stream,
  read_streams, decode, write_streams, encode,
}
use bmutil.Common.{
  ℕ, ◌^◌, ◌<◌, ◌≤◌, refl, false, List, [], ◌∷◌, ◌++◌, Bytes, IsByte, All, length, ge→ltb, ap, arith,
}
use bmutil.Stream.{◌>>◌, ok, Reader}
use bmutil.Error.{too_many_streams}
use bmutil.Stream.Parses.{Parses, Parses-bind, Parses-map}
use bmutil.Stream.Emits.{Emits, Emits-bind}
use bmutil.Types.{write_var_int}
use bmutil.Types.VarInt.{var_int, Parses-var_int, Emits-var_int}
use bmutil.Types.VarBytes.{var_bytes, Parses-var_string, Emits-var_string}
use bmutil.Wire.Element.{int32, int64, uint64, service_flag, Values}
use bmutil.Wire.Element.RoundTrip.{
  element, elements, Parses-element, Parses-elements, Emits-element, Emits-elements,
}
use bmutil.Wire.Limits.{max_message_payload}
use bmutil.Wire.Loops.{view-foldl, map_id, Emits-for_each}
use bmutil.Wire.Loops.Counted.{counted_text, Parses-counted}
use bmutil.Wire.NetAddress.RoundTrip.{Parses-read_net_address, Emits-write_net_address}

-- Each field fits its Go type, and the user agent and the streams are within their limits.
pub record IsValid (msg : MsgVersion) : Type 0 where
  pub version_fits : msg.protocol_version < 2 ^ 32
  pub services_fit : msg.services < 2 ^ 64
  pub timestamp_fits : msg.timestamp < 2 ^ 64
  pub you_valid : RoundTrip.IsValid msg.addr_you
  pub me_valid : RoundTrip.IsValid msg.addr_me
  pub nonce_fits : msg.nonce < 2 ^ 64
  pub agent_short : length msg.user_agent ≤ max_user_agent_len
  pub agent_bytes : All IsByte msg.user_agent
  pub few_streams : length msg.stream_numbers ≤ max_streams
  pub streams_fit : All (λ n. n < 2 ^ 32) msg.stream_numbers

-- What the other side sees: the short form of the two addresses
unfoldable pub received : MsgVersion → MsgVersion
received msg = record msg {
  addr_you = RoundTrip.received false msg.addr_you;
  addr_me = RoundTrip.received false msg.addr_me;
}

abbrev pub head : MsgVersion → Values (int32 ∷ service_flag ∷ int64 ∷ [])
head msg = (msg.protocol_version, (msg.services, (msg.timestamp, tt)))

unfoldable pub text : MsgVersion → Bytes
text msg =
    elements (int32 ∷ service_flag ∷ int64 ∷ []) (head msg)
    ++ (RoundTrip.text false msg.addr_you
        ++ (RoundTrip.text false msg.addr_me
            ++ (element uint64 msg.nonce
                ++ (var_bytes msg.user_agent ++ counted_text var_int msg.stream_numbers))))

Emits-write_streams :
    (streams : List ℕ)
    → length streams ≤ max_streams
    → Emits (write_streams streams) (counted_text var_int streams)
unfolding write_streams counted_text
Emits-write_streams streams h = Emits-bind _ (Emits-var_int (length streams)) (
    rw (ge→ltb max_streams (length streams) h)
      (Emits-for_each write_var_int var_int Emits-var_int streams))

Parses-read_stream : (n : ℕ) → n < 2 ^ 32 → Parses read_stream (var_int n) n
unfolding read_stream
Parses-read_stream n h =
    Parses-map _ (Parses-var_int n (omega arith)) (λ r. ap (λ k. ok k r) (omega arith))

Parses-read_streams :
    (streams : List ℕ)
    → length streams ≤ max_streams
    → All (λ n. n < 2 ^ 32) streams
    → Parses read_streams (counted_text var_int streams) streams
unfolding read_streams
Parses-read_streams streams h v =
    Parses-counted max_streams too_many_streams read_stream add_stream [] (λ n. n < 2 ^ 32) var_int
      (λ n. n) Parses-read_stream streams v h (omega arith) streams
      (rw (map_id streams)
        (view-foldl (λ l. l) add_stream max_streams (λ l n k. refl) streams [] (omega arith)))

-- With the user agent and the streams within their limits `Encode` makes the text of the message.
pub Emits-encode :
    (msg : MsgVersion)
    → length msg.user_agent ≤ max_user_agent_len
    → length msg.stream_numbers ≤ max_streams
    → Emits (encode msg) (text msg)
unfolding encode text validate_user_agent
Emits-encode msg h k = rw (ge→ltb max_user_agent_len (length msg.user_agent) h) (
    Emits-bind _ (Emits-elements _ (head msg)) (
      Emits-bind _ (Emits-write_net_address msg.addr_you false) (
        Emits-bind _ (Emits-write_net_address msg.addr_me false) (
          Emits-bind _ (Emits-element uint64 msg.nonce) (
            Emits-bind _ (Emits-var_string msg.user_agent)
              (Emits-write_streams msg.stream_numbers k))))))

Parses-validated :
    {A : Type 0} (ua : Bytes) (p : Reader A) (bs : Bytes) (v : A)
    → length ua ≤ max_user_agent_len
    → Parses p bs v
    → Parses (validate_user_agent ua >> p) bs v
unfolding validate_user_agent
Parses-validated ua p bs v h P = rw (ge→ltb max_user_agent_len (length ua) h) P

-- `Decode` reads back a message that `Encode` wrote, as the other side is to see it.
pub Parses-decode : (msg : MsgVersion) → IsValid msg → Parses decode (text msg) (received msg)
unfolding decode text received
Parses-decode msg v =
    Parses-bind _
      (Parses-elements (int32 ∷ service_flag ∷ int64 ∷ []) (head msg)
        (v.version_fits, (v.services_fit, (v.timestamp_fits, tt))))
      (Parses-bind _ (Parses-read_net_address msg.addr_you false v.you_valid) (
        Parses-bind _ (Parses-read_net_address msg.addr_me false v.me_valid) (
          Parses-bind _ (Parses-element uint64 msg.nonce v.nonce_fits) (
            Parses-bind _
              (Parses-var_string max_message_payload msg.user_agent (omega (arith, v.agent_short))
                (omega (arith, v.agent_short)))
              (Parses-validated msg.user_agent _ _ _ v.agent_short (
                Parses-map _ (Parses-read_streams msg.stream_numbers v.few_streams v.streams_fit)
                  (λ r. refl)))))))

-- A version message with its fields in range and its user agent and streams within their limits is
-- written as its text, and read back with its two addresses in the short form, whatever follows;
-- each proper prefix gives the end of the input.
version_round_trip :
    (msg : MsgVersion)
    → IsValid msg
    → Emits (encode msg) (text msg) × Parses decode (text msg) (received msg)
version_round_trip msg v = (Emits-encode msg v.agent_short v.few_streams, Parses-decode msg v)
