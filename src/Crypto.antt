-- ===== src/Crypto.antt =====
-- What the program takes from other code: btcec's keys of the curve secp256k1, its signatures and its
-- ECIES, the hash functions and base58. They are the fields of one record, and the documented
-- behaviour of theirs that the program relies on is a record of laws.
use bmutil.Common.{ℕ, ◌≡◌, ◌≤◌, Bytes, All, IsByte, Bool, true, length, ◌∷◌, replicate, ◌++◌}
use bmutil.Error.{Result, returned}

pub record Library : Type 1 where
  -- `btcec.PrivateKey`, `btcec.PublicKey` and `btcec.Signature`
  pub PrivKey : Type 0
  pub PubKey : Type 0
  pub Signature : Type 0
  pub pub_key : PrivKey → PubKey
  -- `PrivKeyFromBytes`, and the bytes of the number `D`
  pub priv_key_from_bytes : Bytes → PrivKey
  pub d_bytes : PrivKey → Bytes
  pub serialize_uncompressed : PubKey → Bytes
  pub parse_pub_key : Bytes → Result PubKey
  pub sign : PrivKey → Bytes → Result Signature
  pub serialize : Signature → Bytes
  pub parse_signature : Bytes → Result Signature
  pub verify : Signature → Bytes → PubKey → Bool
  -- `Encrypt`, whose first argument is the randomness that it reads
  pub encrypt : Bytes → PubKey → Bytes → Result Bytes
  pub decrypt : PrivKey → Bytes → Result Bytes
  -- crypto/sha512, crypto/sha256, crypto/sha1 and golang.org/x/crypto/ripemd160
  pub sha512 : Bytes → Bytes
  pub sha256 : Bytes → Bytes
  pub sha1 : Bytes → Bytes
  pub ripemd160 : Bytes → Bytes
  -- btcutil/base58
  pub base58_encode : Bytes → Bytes
  pub base58_decode : Bytes → Bytes

-- What the documents of that code say, and the program relies on
pub record IsLawful (L : Library) : Type 0 where
  pub sha512_sized : (b : Bytes) → length (L.sha512 b) ≡ 64
  pub sha512_bytes : (b : Bytes) → All IsByte (L.sha512 b)
  pub sha256_sized : (b : Bytes) → length (L.sha256 b) ≡ 32
  pub sha256_bytes : (b : Bytes) → All IsByte (L.sha256 b)
  pub ripemd160_sized : (b : Bytes) → length (L.ripemd160 b) ≡ 20
  pub ripemd160_bytes : (b : Bytes) → All IsByte (L.ripemd160 b)
  pub base58_decode_encode : (b : Bytes) → All IsByte b → L.base58_decode (L.base58_encode b) ≡ b
  -- A key is serialized as 0x04 and 64 bytes, and parsed again.
  pub serialized :
      (k : L.PubKey)
      → (coordinates : Bytes) × (L.serialize_uncompressed k ≡ 4 ∷ coordinates)
        × (length coordinates ≡ 64)
        × All IsByte coordinates
  pub parse_serialize : (k : L.PubKey) → L.parse_pub_key (L.serialize_uncompressed k) ≡ returned k
  -- The number of a private key has 32 bytes at most, and the key is that of the number.
  pub d_short : (k : L.PrivKey) → length (L.d_bytes k) ≤ 32
  pub d_IsByte : (k : L.PrivKey) → All IsByte (L.d_bytes k)
  pub from_d_bytes :
      (k : L.PrivKey) (n : ℕ) → L.priv_key_from_bytes (replicate n 0 ++ L.d_bytes k) ≡ k
  -- A signature that was made is verified, and its serialization has 72 bytes at most.
  pub verify_sign :
      (k : L.PrivKey) (hash : Bytes) (s : L.Signature)
      → L.sign k hash ≡ returned s
      → L.verify s hash (L.pub_key k) ≡ true
  pub parse_signed :
      (k : L.PrivKey) (hash : Bytes) (s : L.Signature)
      → L.sign k hash ≡ returned s
      → L.parse_signature (L.serialize s) ≡ returned s
  pub serialize_short :
      (k : L.PrivKey) (hash : Bytes) (s : L.Signature)
      → L.sign k hash ≡ returned s
      → length (L.serialize s) ≤ 72
  -- What was encrypted to a key is decrypted with its private key.
  pub decrypt_encrypt :
      (random : Bytes) (k : L.PrivKey) (plain encrypted : Bytes)
      → L.encrypt random (L.pub_key k) plain ≡ returned encrypted
      → L.decrypt k encrypted ≡ returned plain
