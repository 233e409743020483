-- ===== src/Tests/Work.antt =====
-- wire/msgobject.go and pow/pow.go: the target and the proof of work of an object, with a function
-- in place of SHA-512.
use bmutil.Common.{ℕ, ◌*◌, ◌/◌, ◌%◌, ◌^◌, ◌-◌, ◌≡◌, refl, true, some, [], ◌∷◌, Bytes, arith, length}
use bmutil.Types.VarInt.{var_int}
use bmutil.Binary.{be_value, put_be}
use bmutil.Pow.Data.{Data}
use bmutil.Pow.Target.{calculate_target, calculate_target_exact, padded_length}
use bmutil.Pow.Search.{check, do_sequential, double_sha512}
use bmutil.Wire.ObjectHeader.{signing_text}
use bmutil.Wire.ObjectHeader
use bmutil.Wire.MsgObject.{MsgObject}
use bmutil.Wire.MsgObject
use bmutil.Wire.MsgObject.CheckPow.{
  check_pow, check_pow-do_sequential, encoded, encoded-text, life_time, msg_hash, target_of,
  with_nonce,
}

-- Ten times the number of the bytes, modulo 251
abbrev stirred : Bytes → Bytes
stirred b = put_be 8 (be_value b * 10 % 251)

abbrev letter_object : MsgObject
letter_object = record {
  header = record { nonce = 0; expiration = 600; object_type = 2; version = 1; stream_number = 1 };
  payload = 7 ∷ 9 ∷ [];
}

abbrev hard : Data
hard = record { nonce_trials_per_byte = 2 ^ 48; extra_bytes = 1000 }

calculate_target_exact_example :
    calculate_target 0 24 600 hard ≡ some ((2 ^ 64 - 1) / (2 ^ 48 * padded_length 24 600 1000))
calculate_target_exact_example =
    calculate_target_exact 0 24 600 hard (omega arith) (omega arith) (omega arith) (omega arith)
      (omega arith)

letter_life : life_time letter_object 0 ≡ 600
unfolding life_time
letter_life = refl

letter_length : length (encoded letter_object) ≡ 24
unfolding MsgObject.text ObjectHeader.text signing_text var_int put_be
letter_length = rw (encoded-text letter_object) refl

letter_target : target_of 0 letter_object hard 0 ≡ some 63
unfolding target_of
letter_target =
    rw (letter_length, letter_life)
      (calculate_target_exact 0 24 600 hard (omega arith) (omega arith) (omega arith) (omega arith)
        (omega arith))

letter_check : check stirred 63 2 (msg_hash stirred letter_object) ≡ true
unfolding check double_sha512 msg_hash be_value put_be MsgObject.text ObjectHeader.text signing_text
    var_int
letter_check = rw (encoded-text letter_object) refl

check_pow-do_sequential_example :
    (m : ℕ) × (do_sequential stirred 2 63 (msg_hash stirred letter_object) ≡ some m)
    × (check_pow stirred 0 (with_nonce m letter_object) hard 0 ≡ some true)
check_pow-do_sequential_example =
    check_pow-do_sequential stirred letter_object hard 0 0 63 2 2 letter_target (omega arith)
      (omega arith) (omega arith) letter_check
