-- ===== src/Wire/MsgObject/CheckPow.antt =====
-- `CheckPow` of wire/msgobject.go: the proof of work of an object. SHA-512 is an argument, and so is
-- what uint64 makes of a float64 out of its range.
use bmutil.Common.{
  ℕ, ◌+◌, ◌-◌, ◌%◌, ◌^◌, ◌<◌, ◌≤◌, ◌≡◌, refl, ap, sym, ◌∙◌, append_assoc, length-append,
  drop-append, Bool, true, ◌++◌, [], Bytes, length, drop, Option, none, some,
}
use bmutil.Stream.{buffer, state, written}
use bmutil.Stream.Emits.{Emits-buffer}
use bmutil.Binary.{length-put_be}
use bmutil.Pow.{nonce_bytes}
use bmutil.Pow.Data.{Data}
use bmutil.Pow.Target.{calculate_target}
use bmutil.Pow.Search.{check, do_sequential, do_sequential_returns, do_sequential_sound}
use bmutil.Wire.ObjectHeader.{ObjectHeader, signing_text}
use bmutil.Wire.ObjectHeader
use bmutil.Wire.MsgObject.{MsgObject, encode, text, Emits-encode}

-- `Encode` of wire/message.go for an object
unfoldable pub encoded : MsgObject → Bytes
encoded msg = written (state (encode msg (buffer [])))

-- `uint64(msg.Header().Expiration().Unix() - refTime.Unix())`, both as bit patterns
unfoldable pub life_time : MsgObject → ℕ → ℕ
life_time msg ref_time = (msg.header.expiration + (2 ^ 64 - ref_time)) % 2 ^ 64

-- the target that `CheckPow` computes
unfoldable pub target_of : ℕ → MsgObject → Data → ℕ → Option ℕ
unfolding encoded life_time
target_of out_of_range msg difficulty ref_time =
    calculate_target out_of_range (length (encoded msg)) (life_time msg ref_time) difficulty

module _ (sha512 : Bytes → Bytes) where
  -- `msgHash`, of all but the nonce
  unfoldable pub msg_hash : MsgObject → Bytes
  unfolding encoded
  msg_hash msg = sha512 (drop 8 (encoded msg))

  unfoldable pub against : Option ℕ → MsgObject → Option Bool
  unfolding msg_hash
  against none msg = none
  against (some target) msg = some (check sha512 target msg.header.nonce (msg_hash msg))

  -- A panic of `CalculateTarget` is `none`.
  unfoldable pub check_pow : ℕ → MsgObject → Data → ℕ → Option Bool
  unfolding target_of against
  check_pow out_of_range msg difficulty ref_time =
      against (target_of out_of_range msg difficulty ref_time) msg

-- The object with a nonce in its header
abbrev pub with_nonce : ℕ → MsgObject → MsgObject
with_nonce n msg = record msg { header = record msg.header { nonce = n } }

pub encoded-text : (msg : MsgObject) → encoded msg ≡ text msg
unfolding encoded written
encoded-text msg = rw (Emits-buffer _ (text msg) [] (Emits-encode msg)) refl

-- what is behind the nonce
abbrev rest : MsgObject → Bytes
rest msg = signing_text msg.header ++ msg.payload

drop-nonce : (n : ℕ) (bs : Bytes) → drop 8 (nonce_bytes n ++ bs) ≡ bs
drop-nonce n bs =
    ap (λ k. drop k (nonce_bytes n ++ bs)) (sym (length-put_be 8 n))
    ∙ drop-append (nonce_bytes n) bs

encoded-rest : (msg : MsgObject) → encoded msg ≡ nonce_bytes msg.header.nonce ++ rest msg
unfolding text ObjectHeader.text
encoded-rest msg =
    encoded-text msg
    ∙ append_assoc (nonce_bytes msg.header.nonce) (signing_text msg.header) msg.payload

length-encoded : (msg : MsgObject) → length (encoded msg) ≡ 8 + length (rest msg)
length-encoded msg =
    rw
      (
        encoded-rest msg,
        length-append (nonce_bytes msg.header.nonce) (rest msg),
        length-put_be 8 msg.header.nonce,
      )
      refl

-- Neither the target nor the hash depends on the nonce.
target_of-with_nonce :
    (out_of_range n : ℕ) (msg : MsgObject) (difficulty : Data) (ref_time : ℕ)
    → target_of out_of_range (with_nonce n msg) difficulty ref_time
      ≡ target_of out_of_range msg difficulty ref_time
unfolding target_of life_time signing_text
target_of-with_nonce out_of_range n msg difficulty ref_time =
    rw (length-encoded (with_nonce n msg), length-encoded msg) refl

module _ (sha512 : Bytes → Bytes) where
  msg_hash-rest : (msg : MsgObject) → msg_hash sha512 msg ≡ sha512 (rest msg)
  unfolding msg_hash
  msg_hash-rest msg =
      ap sha512 (ap (drop 8) (encoded-rest msg) ∙ drop-nonce msg.header.nonce (rest msg))

  msg_hash-with_nonce :
      (n : ℕ) (msg : MsgObject) → msg_hash sha512 (with_nonce n msg) ≡ msg_hash sha512 msg
  unfolding signing_text
  msg_hash-with_nonce n msg = msg_hash-rest (with_nonce n msg) ∙ sym (msg_hash-rest msg)

  -- The proof of work of an object: if some nonce from 1 on and below 2 ^ 64 passes `Check` for the
  -- target of the object and the hash of all of it but its nonce, then `DoSequential` on the two
  -- returns a nonce, within as many rounds, and the object with that nonce passes `CheckPow`, at
  -- the same time and for the same difficulty.
  pub check_pow-do_sequential :
      (msg : MsgObject) (difficulty : Data) (out_of_range ref_time target n fuel : ℕ)
      → target_of out_of_range msg difficulty ref_time ≡ some target
      → 1 ≤ n
      → n < 2 ^ 64
      → n ≤ fuel
      → check sha512 target n (msg_hash sha512 msg) ≡ true
      → (m : ℕ) × (do_sequential sha512 fuel target (msg_hash sha512 msg) ≡ some m)
        × (check_pow sha512 out_of_range (with_nonce m msg) difficulty ref_time ≡ some true)
  unfolding check_pow against
  check_pow-do_sequential msg difficulty out_of_range ref_time target n fuel e p b f hit =
      let hash = msg_hash sha512 msg in
      let found = do_sequential_returns sha512 n fuel target hash p b f hit in
      let passed = do_sequential_sound sha512 fuel target found.0 hash found.1 in
      (
        found.0,
        found.1,
        rw (target_of-with_nonce out_of_range found.0 msg difficulty ref_time, e)
            (ap some (rw (msg_hash-with_nonce found.0 msg) passed)),
      )
