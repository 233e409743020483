-- ===== src/Address/RoundTrip.antt =====
-- `String` and `DecodeAddress`, for any ripe of 20 bytes.
use bmutil.Common.{
  ℕ, ◌≡◌, ◌+◌, refl, [], ◌∷◌, Bytes, length, arith, All, IsByte, false, ◌||◌, ◌==◌, if◌then◌else◌,
  ltb, leb, length-append, ◌≤◌, ◌++◌, ◌⊎◌, inl, inr, true,
}
use bmutil.Error.{
  Result, returned, failed, unknown_address_type, ripe_length_invalid, index_out_of_range,
}
use bmutil.Types.{IsU64, var_int_serialize_size}
use bmutil.Types.VarInt.{var_int, length-var_int}
use bmutil.Address.{
  Address, address_v4, depricated_address, binary_form, trim_left, pad, by_version, to_string,
  decode_address, decode_v4, decode_depricated, exclude_nulls,
}
use bmutil.Address.Ripe.{
  IsTrimmed, trim_left_lem, pad-IsTail, IsTail-IsByte, exclude_nulls-IsTail, length-exclude_nulls,
}
use bmutil.Address.Text.{data_text, binary_data_lem}
use bmutil.Address.Checked.{decode_address-text}

-- What comes back of an address of version 4 whose ripe has `n` bytes behind its null bytes
abbrev pub v4_outcome : ℕ → ℕ → Bytes → Result Address
v4_outcome n s ripe =
    if leb (n + var_int_serialize_size s) 7
    then failed unknown_address_type
    else if n == 0
    then failed index_out_of_range
    else if ltb 19 n || ltb n 4
    then failed ripe_length_invalid
    else returned (address_v4 s ripe)

-- What comes back of a deprecated address whose ripe starts with a byte
abbrev pub depricated_outcome : ℕ → ℕ → Bytes → Result Address
depricated_outcome v s [] = failed ripe_length_invalid
depricated_outcome v s (b ∷ bs) =
    if b == 0 then returned (depricated_address v s (b ∷ bs)) else failed ripe_length_invalid

decode_v4_lem :
    (s : ℕ) (ripe t : Bytes)
    → IsTrimmed t
    → pad t ≡ ripe
    → decode_v4 s t ≡ (
        if length t == 0
        then failed index_out_of_range
        else if ltb 19 (length t) || ltb (length t) 4
        then failed ripe_length_invalid
        else returned (address_v4 s ripe))
unfolding decode_v4
decode_v4_lem s ripe [] h e = refl
decode_v4_lem s ripe (b ∷ bs) h e =
    let ne : (length (b ∷ bs) == 0) ≡ false = ground arith in rw (h, e, ne) refl

length-version : length (var_int 4) ≡ 1
unfolding var_int
length-version = refl

short_v4 :
    (s : ℕ) (t : Bytes)
    → leb (length (data_text 4 s t)) 8 ≡ leb (length t + var_int_serialize_size s) 7
short_v4 s t = ground (
  arith,
  length-version,
  length-append (var_int 4) (var_int s ++ t),
  length-var_int s,
  length-append (var_int s) t,
)

depricated_long : (v s : ℕ) (t : Bytes) → 18 ≤ length t → leb (length (data_text v s t)) 8 ≡ false
depricated_long v s t h =
    ground (arith, length-append (var_int v) (var_int s ++ t), length-append (var_int s) t)

decode_depricated_lem :
    (v s b : ℕ) (bs : Bytes)
    → length (b ∷ bs) ≡ 20
    → decode_depricated v s (exclude_nulls (b ∷ bs)) ≡ depricated_outcome v s (b ∷ bs)
unfolding decode_depricated
decode_depricated_lem v s b bs n =
    rw (pad-IsTail (b ∷ bs) (exclude_nulls (b ∷ bs)) n (exclude_nulls-IsTail (b ∷ bs)))
      (ground (arith, length-exclude_nulls b bs))

module _ (sha512 : Bytes → Bytes) (sha512_sized : (b : Bytes) → length (sha512 b) ≡ 64)
    (sha512_bytes : (b : Bytes) → All IsByte (sha512 b))
    (base58_encode base58_decode : Bytes → Bytes)
    (decode_encode : (b : Bytes) → All IsByte b → base58_decode (base58_encode b) ≡ b) where
  -- What `DecodeAddress` returns for the text that `String` makes of an address of version 4, where
  -- `n` is the length of its ripe without the null bytes at its front, and `m` the length of its
  -- stream as a variable length integer: the error for an unknown address if `n + m` is at most 7;
  -- else a panic if `n` is 0; else an error of the ripe's length if `n` is over 19 or below 4; else
  -- the address. Base58 is to decode what it encodes, and SHA-512 to give 64 bytes.
  pub decode_address-to_string_v4 :
      (s : ℕ) (ripe : Bytes)
      → IsU64 s
      → length ripe ≡ 20
      → All IsByte ripe
      → decode_address sha512 base58_decode (to_string sha512 base58_encode (address_v4 s ripe))
        ≡ v4_outcome (length (trim_left ripe)) s ripe
  unfolding to_string binary_form by_version
  decode_address-to_string_v4 s ripe hs n hr =
      let t = trim_left ripe in
      let lem = trim_left_lem ripe in
      let u : IsU64 4 = omega arith in
      rw
        (
          binary_data_lem 4 s t,
          decode_address-text sha512 sha512_sized sha512_bytes base58_encode base58_decode
              decode_encode 4 s t u hs (IsTail-IsByte ripe t lem.0 hr),
          short_v4 s t,
          decode_v4_lem s ripe t lem.1 (pad-IsTail ripe t n lem.0),
        )
        refl

  -- A deprecated address, of version 2 or 3 and any stream, comes back from its text if its ripe
  -- starts with a null byte, and else `DecodeAddress` refuses the length of the ripe. Base58 is to
  -- decode what it encodes, and SHA-512 to give 64 bytes.
  pub decode_address-to_string_depricated :
      (v s : ℕ) (ripe : Bytes)
      → (v ≡ 2) ⊎ (v ≡ 3)
      → IsU64 s
      → length ripe ≡ 20
      → All IsByte ripe
      → decode_address sha512 base58_decode
          (to_string sha512 base58_encode (depricated_address v s ripe))
        ≡ depricated_outcome v s ripe
  unfolding to_string binary_form by_version
  decode_address-to_string_depricated v s [] hv hs n hr = absurd (omega arith)
  decode_address-to_string_depricated v s (b ∷ bs) hv hs n hr =
      let t = exclude_nulls (b ∷ bs) in
      let u : IsU64 v = elim hv [ inl e ↦ omega arith | inr e ↦ omega arith ] in
      let old : (v == 2 || v == 3) ≡ true = elim hv [ inl e ↦ rw e refl | inr e ↦ rw e refl ] in
      rw
        (
          binary_data_lem v s t,
          decode_address-text sha512 sha512_sized sha512_bytes base58_encode base58_decode
              decode_encode v s t u hs
              (IsTail-IsByte (b ∷ bs) t (exclude_nulls-IsTail (b ∷ bs)) hr),
          depricated_long v s t (omega (arith, length-exclude_nulls b bs)),
          old,
        )
        (decode_depricated_lem v s b bs n)
