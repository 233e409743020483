-- ===== src/Wire/MsgVersion/Bounds.antt =====
-- What `MsgVersion.Decode` returns on any input, and what `AddUserAgent` keeps.

use bmutil.Wire.MsgVersion.{
  MsgVersion, max_user_agent_len, max_streams, validate_user_agent, read_stream, add_stream,
  read_streams, decode, agent, add_user_agent,
}
use bmutil.Wire.MsgVersion.RoundTrip.{IsValid}
use bmutil.Common.{
  ℕ, zero, suc, false, ◌+◌, ◌^◌, ◌<◌, ◌≤◌, ◌≡◌, List, [], ◌∷◌, ◌++◌, Bytes, All, length, codes, ltb,
  ltb→ge, Bool-cases, inl, inr, arith, length-append, ge→ltb, lt→ltb, refl, if◌then◌else◌, leb,
  leb→le, leb→gt,
}
use bmutil.Error.{user_agent_too_long}
use bmutil.Stream.{◌>>◌, ok, err, Reader}
use bmutil.Stream.Yields.{Yields, Yields-bind, Yields-pure, Yields-fail}
use bmutil.Types.VarInt.{Yields-var_int}
use bmutil.Types.VarBytes.{Yields-var_string}
use bmutil.Wire.Element.{int32, int64, uint64, service_flag}
use bmutil.Wire.Element.RoundTrip.{Yields-element, Yields-elements}
use bmutil.Wire.Limits.{max_message_payload}
use bmutil.Wire.Loops.{read_times}
use bmutil.Wire.NetAddress.RoundTrip.{Yields-read_net_address}

Yields-validated {ℓ} :
    {A : Type ℓ} (ua : Bytes) (p : Reader A) (P : A → Type 0)
    → (length ua ≤ max_user_agent_len → Yields p P)
    → Yields (validate_user_agent ua >> p) P
unfolding validate_user_agent
Yields-validated ua p P h = elim (Bool-cases (ltb max_user_agent_len (length ua))) [
  | inl long ↦ rw long (Yields-fail _ P)
  | inr short ↦ rw short (h (ltb→ge _ _ short))
]

AreStreams : List ℕ → Type 0
AreStreams l = (length l ≤ max_streams) × All (λ n. n < 2 ^ 32) l

-- The loop over the stream numbers runs at most once, so it keeps the limit.
Yields-read_streams : Yields read_streams AreStreams
unfolding read_streams AreStreams
Yields-read_streams = Yields-bind _ _ Yields-var_int (λ n b. elim (Bool-cases (ltb max_streams n)) [
  | inl many ↦ rw many (Yields-fail _ _)
  | inr few ↦ rw few (at_most_one n (ltb→ge _ _ few))
])
  where
    Yields-read_stream : Yields read_stream (λ n. n < 2 ^ 32)
    Yields-read_stream =
        unfold read_stream in Yields-bind _ _ Yields-var_int (λ n b. Yields-pure _ (omega arith))

    at_most_one : (n : ℕ) → n ≤ 1 → Yields (read_times read_stream add_stream n []) AreStreams
    at_most_one zero h = unfold read_times in Yields-pure _ (omega arith)
    at_most_one (suc zero) h =
        unfold read_times in Yields-bind _ _ Yields-read_stream (λ n b. Yields-pure _ (omega arith))
    at_most_one (suc (suc n)) h = absurd (omega arith)

-- On any input of bytes `Decode` takes bytes from its front, and whatever it returns has its
-- fields in range, a user agent of at most 5000 bytes and at most one stream.
pub Yields-version : Yields decode IsValid
unfolding decode AreStreams
Yields-version = Yields-bind _ _ (Yields-elements (int32 ∷ service_flag ∷ int64 ∷ [])) (λ es e.
    Yields-bind _ _ (Yields-read_net_address false) (λ you y.
      Yields-bind _ _ (Yields-read_net_address false) (λ me m.
        Yields-bind _ _ (Yields-element uint64) (λ nonce n.
          Yields-bind _ _ (Yields-var_string max_message_payload) (λ ua a.
            Yields-validated ua _ IsValid (λ short.
              Yields-bind _ AreStreams {Q = IsValid} Yields-read_streams (λ streams s.
                Yields-pure _ (record {
                  version_fits = e.0;
                  services_fit = e.1.0;
                  timestamp_fits = e.1.1.0;
                  you_valid = y;
                  me_valid = m;
                  nonce_fits = n;
                  agent_short = short;
                  agent_bytes = a.1;
                  few_streams = s.0;
                  streams_fit = s.1;
                }))))))))

-- `AddUserAgent` appends the agent and a slash, and changes nothing else, where the longer user
-- agent is at most 5000 bytes; else it reports the length and changes nothing.
add_user_agent_lem :
    (name version : Bytes) (comments : List Bytes) (msg : MsgVersion)
    → add_user_agent name version comments msg ≡ (
        if leb (length msg.user_agent + length (agent name version comments) + 1) max_user_agent_len
        then ok tt (record msg {
          user_agent = msg.user_agent ++ (agent name version comments ++ codes "/");
        })
        else err user_agent_too_long msg)
unfolding add_user_agent
add_user_agent_lem name version comments msg =
    elim (Bool-cases
      (leb (length msg.user_agent + length (agent name version comments) + 1) max_user_agent_len)) [
        | inl fits ↦
            let short : length longer ≤ max_user_agent_len =
              omega (arith, size, leb→le _ max_user_agent_len fits) in
            rw (fits, validated longer short) refl
        | inr over ↦
            let long : max_user_agent_len < length longer =
              omega (arith, size, leb→gt _ max_user_agent_len over) in
            rw (over, refused longer long) refl
      ]
  where
    longer : Bytes
    longer = msg.user_agent ++ (agent name version comments ++ codes "/")

    size : length longer ≡ length msg.user_agent + length (agent name version comments) + 1
    size = simp length-append (omega arith)

    validated :
        (ua : Bytes) → length ua ≤ max_user_agent_len → validate_user_agent ua msg ≡ ok tt msg
    validated ua h = unfold validate_user_agent in rw (ge→ltb max_user_agent_len (length ua) h)

    refused :
        (ua : Bytes)
        → max_user_agent_len < length ua
        → validate_user_agent ua msg ≡ err user_agent_too_long msg
    refused ua h = unfold validate_user_agent in rw (lt→ltb max_user_agent_len (length ua) h)
