-- ===== src/Wif.antt =====
-- wif.go: private keys as text. `crypto/sha256`, the base58 package, and the private keys of btcec,
-- with the bytes of their number and `PrivKeyFromBytes`, are parameters.
pub mod RoundTrip
use bmutil.Common.{
  ℕ, zero, suc, ◌+◌, ◌-◌, [], ◌∷◌, ◌++◌, Bytes, length, take, drop, replicate, equal, not, ◌||◌,
  ◌==◌, if◌then◌else◌,
}
use bmutil.Error.{Result, returned, failed, malformed_private_key, checksum_mismatch}
use bmutil.Types.{first_byte}

abbrev pub wif_prefix : ℕ
wif_prefix = 0x80

-- `btcec.PrivKeyBytesLen`
abbrev pub priv_key_bytes_len : ℕ
priv_key_bytes_len = 32

-- the loop of `paddedAppend`
unfoldable pub append_zeros : ℕ → Bytes → Bytes
append_zeros zero dst = dst
append_zeros (suc n) dst = append_zeros n (dst ++ (0 ∷ []))

unfoldable pub padded_append : ℕ → Bytes → Bytes → Bytes
padded_append size dst src = append_zeros (size - length src) dst ++ src

module _ (sha256 : Bytes → Bytes) where
  unfoldable pub double_sha256 : Bytes → Bytes
  double_sha256 b = sha256 (sha256 b)

  module _ {PrivateKey : Type 0} where
    unfoldable pub encode_wif : (Bytes → Bytes) → (PrivateKey → Bytes) → PrivateKey → Bytes
    encode_wif base58_encode d_bytes priv_key =
        let a = padded_append priv_key_bytes_len (wif_prefix ∷ []) (d_bytes priv_key) in
        base58_encode (a ++ take 4 (double_sha256 a))

    unfoldable pub decode_key : (Bytes → PrivateKey) → Bytes → Result PrivateKey
    decode_key priv_key_from_bytes decoded =
        let tosum = take (1 + priv_key_bytes_len) decoded in
        let cksum = take 4 (double_sha256 tosum) in
        if not (length decoded == 1 + priv_key_bytes_len + 4)
          || not (first_byte decoded == wif_prefix)
        then failed malformed_private_key
        else if not (equal cksum (drop (length decoded - 4) decoded))
        then failed checksum_mismatch
        else returned (priv_key_from_bytes (take priv_key_bytes_len (drop 1 decoded)))

    unfoldable pub decode_wif : (Bytes → Bytes) → (Bytes → PrivateKey) → Bytes → Result PrivateKey
    decode_wif base58_decode priv_key_from_bytes wif =
        decode_key priv_key_from_bytes (base58_decode wif)
