-- ===== src/Wif/RoundTrip.antt =====
-- `EncodeWIF` and `DecodeWIF`.
use bmutil.Common.{
  ℕ, zero, suc, ◌-◌, ◌≤◌, ◌≡◌, refl, sym, [], ◌∷◌, ◌++◌, Bytes, length, take, drop, replicate,
  equal, equal_iff, not, ◌||◌, ◌==◌, All, IsByte, All-append, All-take, append_assoc, append-nil,
  arith, true, false, length-append, length-replicate, take-append, drop-append, replicate-IsByte,
  length-take, if_either, take-append-drop, Bool, ap,
}
use bmutil.Error.{Result, returned, failed}
use bmutil.Types.{first_byte}
use bmutil.Wif.{append_zeros, padded_append, double_sha256, encode_wif, decode_key, decode_wif}

-- The loop of `paddedAppend` appends its count of zeros.
append_zeros_lem : (n : ℕ) (dst : Bytes) → append_zeros n dst ≡ dst ++ replicate n 0
unfolding append_zeros
append_zeros_lem zero dst = sym (append-nil dst)
append_zeros_lem (suc n) dst =
    rw (append_zeros_lem n (dst ++ (0 ∷ [])), append_assoc dst (0 ∷ []) (replicate n 0)) refl

-- A key of 32 bytes, the number of the key behind zeros
abbrev pub padded : Bytes → Bytes
padded d = replicate (32 - length d) 0 ++ d

padded_append_lem : (d : Bytes) → padded_append 32 (0x80 ∷ []) d ≡ 0x80 ∷ padded d
unfolding padded_append
padded_append_lem d = rw (append_zeros_lem (32 - length d) (0x80 ∷ [])) refl

length-padded : (d : Bytes) → length d ≤ 32 → length (padded d) ≡ 32
length-padded d h =
    omega (
      arith,
      length-append (replicate (32 - length d) zero) d,
      length-replicate (32 - length d) zero,
    )

not-not : (b : Bool) → not b ≡ false → b ≡ true
not-not true h = refl
not-not false h = absurd (cc)

module _ (sha256 : Bytes → Bytes) (sha256_sized : (b : Bytes) → length (sha256 b) ≡ 32) where
  abbrev pub checksum : Bytes → Bytes
  checksum a = take 4 (double_sha256 sha256 a)

  length-checksum : (a : Bytes) → length (checksum a) ≡ 4
  unfolding double_sha256
  length-checksum a = omega (arith, length-take 4 (sha256 (sha256 a)), sha256_sized (sha256 a))

  checksum_bytes : ((b : Bytes) → All IsByte (sha256 b)) → (a : Bytes) → All IsByte (checksum a)
  unfolding double_sha256
  checksum_bytes sha256_bytes a =
      All-take IsByte 4 (double_sha256 sha256 a) (sha256_bytes (sha256 a))

  module _ {PrivateKey : Type 0} (priv_key_from_bytes : Bytes → PrivateKey) where
    decode_key-text :
        (key : Bytes)
        → length key ≡ 32
        → decode_key sha256 priv_key_from_bytes ((0x80 ∷ key) ++ checksum (0x80 ∷ key))
          ≡ returned (priv_key_from_bytes key)
    unfolding decode_key first_byte
    decode_key-text key n =
        let a : Bytes = 0x80 ∷ key in
        let c = checksum a in
        let size : length (a ++ c) ≡ 37 = omega (arith, length-append key c, length-checksum a) in
        let front : take 32 (key ++ c) ≡ key = rw n at (take-append key c) in
        let back : drop 32 (key ++ c) ≡ c = rw n at (drop-append key c) in
        rw (size, front, back, (equal_iff c c).1 refl) refl

    abbrev Exact : Bytes → Result PrivateKey → Type 0
    Exact d (failed e) = Unit
    Exact d (returned k) =
        (key : Bytes) × (length key ≡ 32)
        × (d ≡ (0x80 ∷ key) ++ checksum (0x80 ∷ key))
        × (priv_key_from_bytes key ≡ k)

    accepted :
        (d : Bytes)
        → (not (length d == 37) || not (first_byte d == 0x80)) ≡ false
        → not (equal (checksum (take 33 d)) (drop (length d - 4) d)) ≡ false
        → Exact d (returned (priv_key_from_bytes (take 32 (drop 1 d))))
    unfolding first_byte
    accepted [] h k = absurd (ground (arith, h))
    accepted (x ∷ d) h k =
        let size : length d ≡ 36 = ground (arith, h) in
        let mark : x ≡ 0x80 = ground (arith, h) in
        let tail : length (x ∷ d) - 4 ≡ 33 = omega arith in
        let same : checksum (x ∷ take 32 d) ≡ drop 32 d =
          (equal_iff (checksum (x ∷ take 32 d)) (drop 32 d)).0 (not-not _ (rw tail at k)) in
        (
          take 32 d,
          omega (arith, length-take 32 d),
          rw (mark, rw mark at same) (ap (◌∷◌ 0x80) (sym (take-append-drop 32 d))),
          refl,
        )

    Exact-decode_key : (d : Bytes) → Exact d (decode_key sha256 priv_key_from_bytes d)
    unfolding decode_key
    Exact-decode_key d =
        if_either (Exact d) (not (length d == 37) || not (first_byte d == 0x80)) (λ _. tt)
          (λ h.
            if_either (Exact d) (not (equal (checksum (take 33 d)) (drop (length d - 4) d)))
              (λ _. tt) (accepted d h))

    -- The text of a key is decoded to the key, where base58 decodes what it encodes, SHA-256 gives 32
    -- bytes, the number of the key has 32 bytes at most, and btcec makes the key again of that
    -- number with zeros before it.
    pub decode_wif-encode_wif :
        (sha256_bytes : (b : Bytes) → All IsByte (sha256 b))
        (base58_encode base58_decode : Bytes → Bytes)
        (decode_encode : (b : Bytes) → All IsByte b → base58_decode (base58_encode b) ≡ b)
        (d_bytes : PrivateKey → Bytes) (priv_key : PrivateKey)
        → length (d_bytes priv_key) ≤ 32
        → All IsByte (d_bytes priv_key)
        → priv_key_from_bytes (padded (d_bytes priv_key)) ≡ priv_key
        → decode_wif sha256 base58_decode priv_key_from_bytes
            (encode_wif sha256 base58_encode d_bytes priv_key)
          ≡ returned priv_key
    unfolding decode_wif encode_wif
    decode_wif-encode_wif sha256_bytes base58_encode base58_decode decode_encode d_bytes priv_key
          short bytes again =
        let d = d_bytes priv_key in
        let a : Bytes = 0x80 ∷ padded d in
        let text_bytes : All IsByte (a ++ checksum a) =
          All-append IsByte a (checksum a)
            (omega arith, All-append IsByte _ d (replicate-IsByte (32 - length d)) bytes)
            (checksum_bytes sha256_bytes a) in
        rw (padded_append_lem d, decode_encode (a ++ checksum a) text_bytes)
          (rw again at (decode_key-text (padded d) (length-padded d short)))

    -- What `DecodeWIF` accepts is, behind base58, the prefix, 32 bytes and their checksum, and the key
    -- that it returns is that of the 32 bytes.
    pub decode_wif_exact :
        (base58_decode : Bytes → Bytes) (wif : Bytes) (priv_key : PrivateKey)
        → decode_wif sha256 base58_decode priv_key_from_bytes wif ≡ returned priv_key
        → (key : Bytes) × (length key ≡ 32)
          × (base58_decode wif ≡ (0x80 ∷ key) ++ checksum (0x80 ∷ key))
          × (priv_key_from_bytes key ≡ priv_key)
    unfolding decode_wif
    decode_wif_exact base58_decode wif priv_key e = rw e at (Exact-decode_key (base58_decode wif))
