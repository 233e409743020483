-- ===== src/Wire/MsgVersion/Size.antt =====
-- The size of a version message against `MsgVersion.MaxPayloadLength`.
use bmutil.Wire.NetAddress.RoundTrip
use bmutil.Wire.MsgVersion.{MsgVersion, max_user_agent_len, max_streams, max_payload_length}
use bmutil.Wire.MsgVersion.RoundTrip.{IsValid, text}
use bmutil.Common.{
  ℕ, ◌+◌, ◌<◌, ◌≤◌, ◌≡◌, refl, List, [], ◌∷◌, All, length, length-append, arith, ap,
}
use bmutil.Binary.{length-put_be}
use bmutil.Types.{var_int_serialize_size}
use bmutil.Types.VarInt.{var_int, length-var_int, var_int_serialize_size_mono}
use bmutil.Types.VarBytes.{var_bytes}
use bmutil.Wire.Loops.{concat}
use bmutil.Wire.Loops.Counted.{counted_text}
use bmutil.Wire.NetAddress.{NetAddress}

-- The bytes of the stream numbers
streams_size : List ℕ → ℕ
streams_size [] = 0
streams_size (n ∷ ns) = var_int_serialize_size n + streams_size ns

length-streams : (ns : List ℕ) → length (concat var_int ns) ≡ streams_size ns
unfolding streams_size
length-streams [] = refl
length-streams (n ∷ ns) =
    omega
      (arith, length-append (var_int n) (concat var_int ns), length-var_int n, length-streams ns)

length-text :
    (msg : MsgVersion)
    → length (text msg)
      ≡ 80
        + var_int_serialize_size (length msg.user_agent)
        + length msg.user_agent
        + var_int_serialize_size (length msg.stream_numbers)
        + streams_size msg.stream_numbers
unfolding text counted_text var_bytes
length-text msg =
    simp
      (
        length-append,
        length-put_be,
        length-var_int,
        length-streams,
        λ (na : NetAddress). (RoundTrip.length-text na).1,
      )
      (omega arith)

streams_size_bound :
    (P : ℕ → Type 0) (m : ℕ) (ns : List ℕ)
    → ((n : ℕ) → P n → var_int_serialize_size n ≤ m)
    → length ns ≤ 1
    → All P ns
    → streams_size ns ≤ m
unfolding streams_size
streams_size_bound P m [] size h v = omega arith
streams_size_bound P m (n ∷ []) size h v = omega (arith, size n v.0)
streams_size_bound P m (n ∷ n' ∷ ns) size h v = absurd (omega arith)

max_payload : max_payload_length ≡ 5085
unfolding max_payload_length var_int_serialize_size
max_payload = refl

-- The text without the bytes of the stream numbers
fixed_part :
    (msg : MsgVersion)
    → length msg.user_agent ≤ max_user_agent_len
    → length msg.stream_numbers ≤ max_streams
    → length (text msg) ≤ 5084 + streams_size msg.stream_numbers
fixed_part msg h k = omega (
  arith,
  length-text msg,
  var_int_serialize_size_mono (length msg.user_agent) 5000 h,
  var_int_serialize_size_mono (length msg.stream_numbers) 1 k,
  sizes,
)
  where
    sizes : (var_int_serialize_size 5000 ≡ 3) × (var_int_serialize_size 1 ≡ 1)
    sizes = unfold var_int_serialize_size in (refl, refl)

-- With stream numbers below 0xfd the text of a valid version message is no longer than
-- `MaxPayloadLength`.
version_text_le :
    (msg : MsgVersion)
    → IsValid msg
    → All (λ n. n < 0xfd) msg.stream_numbers
    → length (text msg) ≤ max_payload_length
version_text_le msg v small = omega (
  arith,
  fixed_part msg v.agent_short v.few_streams,
  max_payload,
  streams_size_bound (λ n. n < 0xfd) 1 msg.stream_numbers
      (λ n h. unfold var_int_serialize_size in ground arith) v.few_streams small,
)

-- `MaxPayloadLength` is no upper bound: the text of a message with a user agent of 5000 bytes and
-- one stream number of 0xfd or more is longer.
longer_than_max :
    (msg : MsgVersion) (n : ℕ)
    → length msg.user_agent ≡ max_user_agent_len
    → msg.stream_numbers ≡ n ∷ []
    → 0xfd ≤ n
    → max_payload_length < length (text msg)
longer_than_max msg n h k big = omega (
  arith,
  length-text msg,
  max_payload,
  ap var_int_serialize_size h,
  ap (λ (l : List ℕ). var_int_serialize_size (length l)) k,
  ap streams_size k,
  sizes,
)
  where
    sizes :
        (var_int_serialize_size 5000 ≡ 3)
        × (var_int_serialize_size 1 ≡ 1)
        × (3 ≤ streams_size (n ∷ []))
    sizes = unfold var_int_serialize_size streams_size in (refl, refl, ground arith)
