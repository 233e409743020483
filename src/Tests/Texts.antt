-- ===== src/Tests/Texts.antt =====
-- format/encoding.go and wif.go, with functions in place of SHA-256, base58 and btcec.
use bmutil.Common.{
  ◌≡◌, ◌↔◌, refl, [], ◌∷◌, ◌++◌, Bytes, arith, codes, copy_zeroed, length-copy_zeroed,
  copy_zeroed-IsByte, length, All, IsByte,
}
use bmutil.Error.{returned}
use bmutil.Binary.{put_be, put_be-IsByte}
use bmutil.Stream.Emits.{Emits}
use bmutil.Stream.Parses.{Parses}
use bmutil.Address.{trim_left}
use bmutil.Format.{Encoding, encoding2, message, encode, decode, read}
use bmutil.Format.RoundTrip.{encoding_round_trip, read_iff, text, IsOneLine}
use bmutil.Wif.{encode_wif, decode_wif}
use bmutil.Wif.RoundTrip.{decode_wif-encode_wif, decode_wif_exact, checksum}
use bmutil.Tests.Addresses.{itself}

abbrev note : Encoding
note = encoding2 (codes "Hello") (codes "Two\nlines")

note-IsOneLine : IsOneLine note
note-IsOneLine = ground arith

encoding_round_trip_example : Emits (encode note) (text note) × Parses decode (text note) note
unfolding message
encoding_round_trip_example = encoding_round_trip note note-IsOneLine (omega arith)

read_iff_example : (read 2 (message note) ≡ returned note) ↔ IsOneLine note
read_iff_example = read_iff note

-- A function with the sizes of SHA-256
abbrev digest32 : Bytes → Bytes
digest32 b = copy_zeroed 32 (put_be 8 (length b))

digest32_sized : (b : Bytes) → length (digest32 b) ≡ 32
digest32_sized b = length-copy_zeroed 32 (put_be 8 (length b))

digest32_bytes : (b : Bytes) → All IsByte (digest32 b)
digest32_bytes b = copy_zeroed-IsByte 32 (put_be 8 (length b)) (put_be-IsByte 8 (length b))

-- The bytes of a number without zeros before it, in place of a key
abbrev wif : Bytes
wif = encode_wif digest32 itself itself (5 ∷ 6 ∷ [])

decode_wif-encode_wif_example : decode_wif digest32 itself trim_left wif ≡ returned (5 ∷ 6 ∷ [])
unfolding trim_left
decode_wif-encode_wif_example =
    decode_wif-encode_wif digest32 digest32_sized trim_left digest32_bytes itself itself
      (λ b h. refl) itself (5 ∷ 6 ∷ []) (omega arith) (ground arith) refl

decode_wif_exact_example :
    (key : Bytes) × (length key ≡ 32)
    × (wif ≡ (0x80 ∷ key) ++ checksum digest32 digest32_sized (0x80 ∷ key))
    × (trim_left key ≡ 5 ∷ 6 ∷ [])
decode_wif_exact_example =
    decode_wif_exact digest32 digest32_sized trim_left itself wif (5 ∷ 6 ∷ [])
      decode_wif-encode_wif_example
