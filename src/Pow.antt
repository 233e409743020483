-- ===== src/Pow.antt =====
-- The package pow. pow/nonce.go: the nonce at the head of an object message, a uint64.
pub mod Data
pub mod Target
pub mod Search
pub mod Parallel
use bmutil.Common.{ℕ, Bytes}
use bmutil.Stream.{Reader, Writer, write}
use bmutil.Stream.Parses.{Parses}
use bmutil.Stream.Emits.{Emits, Emits-write}
use bmutil.Stream.Yields.{Yields}
use bmutil.Binary.{put_be, read_be, Parses-read_be, Yields-read_be}
use bmutil.Types.{IsU64}

-- `Nonce.Bytes`
abbrev pub nonce_bytes : ℕ → Bytes
nonce_bytes n = put_be 8 n

-- `Nonce.Encode`
pub encode_nonce : ℕ → Writer
encode_nonce n = write (nonce_bytes n)

pub decode_nonce : Reader ℕ
decode_nonce = read_be 8

pub Emits-nonce : (n : ℕ) → Emits (encode_nonce n) (nonce_bytes n)
unfolding encode_nonce
Emits-nonce n = Emits-write (nonce_bytes n)

pub Parses-nonce : (n : ℕ) → IsU64 n → Parses decode_nonce (nonce_bytes n) n
unfolding decode_nonce
Parses-nonce n h = Parses-read_be 8 n h

pub Yields-nonce : Yields decode_nonce IsU64
unfolding decode_nonce
Yields-nonce = Yields-read_be 8
