-- ===== src/Address.antt =====
-- address.go: addresses of version 4 and the deprecated ones of versions 2 and 3. A ripe is its 20
-- bytes. `crypto/sha512`, the base58 package and btcec's `PrivKeyFromBytes` are parameters.
pub mod Ripe
pub mod Text
pub mod Checked
pub mod RoundTrip
pub mod Decoded
use bmutil.Common.{
  ℕ, [], ◌∷◌, ◌++◌, ◌-◌, Bool, ◌&&◌, ◌||◌, Bytes, codes, equal, length, take, drop, replicate, ltb,
  leb, ◌==◌, if◌then◌else◌, copy_zeroed,
}
use bmutil.Error.{
  Result, returned, failed, checksum_mismatch, unknown_address_type, depricated_address_version,
  invalid_stream, ripe_length_invalid, ripe_has_null_bytes, index_out_of_range, negative_length,
}
use bmutil.Stream.{Outcome, ok, err, ◌>>=◌, ◌>>◌, Reader, Writer, write, buffer, state, written}
use bmutil.Types.{read_var_int, write_var_int}
use bmutil.Pow.Search.{double_sha512}

abbrev pub default_address_version : ℕ
default_address_version = 4

abbrev pub default_stream : ℕ
default_stream = 1

-- The two implementations of the interface `Address`
pub data Address : Type 0 where
  address_v4 : (stream : ℕ) (ripe : Bytes) → Address
  depricated_address : (version stream : ℕ) (ripe : Bytes) → Address

abbrev pub version : Address → ℕ
version (address_v4 s r) = 4
version (depricated_address v s r) = v

abbrev pub stream : Address → ℕ
stream (address_v4 s r) = s
stream (depricated_address v s r) = s

abbrev pub ripe_hash : Address → Bytes
ripe_hash (address_v4 s r) = r
ripe_hash (depricated_address v s r) = r

unfoldable pub new_address : ℕ → ℕ → Bytes → Result Address
new_address version stream ripe =
    if ltb default_address_version version
    then failed unknown_address_type
    else if ltb version default_address_version
    then failed depricated_address_version
    else if stream == default_stream
    then returned (address_v4 stream ripe)
    else failed invalid_stream

unfoldable pub new_depricated_address : ℕ → ℕ → Bytes → Result Address
new_depricated_address version stream ripe =
    if ltb version 2 || ltb 3 version
    then failed unknown_address_type
    else returned (depricated_address version stream ripe)

-- `bytes.TrimLeft(ripe, "\x00")`
unfoldable pub trim_left : Bytes → Bytes
trim_left [] = []
trim_left (b ∷ bs) = let rest = trim_left bs in if b == 0 then rest else b ∷ bs

-- `if ripe[0] == 0x00 { ripe = ripe[1:] }`, on a slice that is not empty
unfoldable pub exclude_null : Bytes → Bytes
exclude_null [] = []
exclude_null (b ∷ bs) = if b == 0 then bs else b ∷ bs

-- the two tests on the front of the ripe, the second inside the first
unfoldable pub exclude_nulls : Bytes → Bytes
unfolding exclude_null
exclude_nulls [] = []
exclude_nulls (b ∷ bs) = if b == 0 then exclude_null bs else b ∷ bs

-- `binaryData` when the ripe is written
unfoldable pub binary_data : ℕ → ℕ → Bytes → Bytes
binary_data version stream ripe =
    written (state ((do write_var_int version; write_var_int stream; write ripe) (buffer [])))

-- The bytes before the text in base58, by the receiver's type
unfoldable pub binary_form : Address → Bytes
unfolding binary_data trim_left exclude_nulls
binary_form (address_v4 stream ripe) = binary_data 4 stream (trim_left ripe)
binary_form (depricated_address version stream ripe) =
    binary_data version stream (exclude_nulls ripe)

-- `append(make([]byte, 20-lenRipe), ripe...)`, copied into the array
unfoldable pub pad : Bytes → Bytes
pad ripe = copy_zeroed 20 (replicate (20 - length ripe) 0 ++ ripe)

-- the cases 2 and 3 of the `switch`
unfoldable pub decode_depricated : ℕ → ℕ → Bytes → Result Address
unfolding pad
decode_depricated version stream ripe =
    if ltb 19 (length ripe) || ltb (length ripe) 18
    then failed ripe_length_invalid
    else returned (depricated_address version stream (pad ripe))

-- the case 4
unfoldable pub decode_v4 : ℕ → Bytes → Result Address
unfolding pad
decode_v4 stream [] = failed index_out_of_range
decode_v4 stream (b ∷ bs) =
    if b == 0
    then failed ripe_has_null_bytes
    else if ltb 19 (length (b ∷ bs)) || ltb (length (b ∷ bs)) 4
    then failed ripe_length_invalid
    else returned (address_v4 stream (pad (b ∷ bs)))

unfoldable pub by_version : ℕ → ℕ → Bytes → Result Address
unfolding decode_depricated decode_v4
by_version version stream ripe =
    if version == 2 || version == 3
    then decode_depricated version stream ripe
    else if version == 4
    then decode_v4 stream ripe
    else failed unknown_address_type

-- The ripe is what is left before the checksum.
unfoldable pub read_ripe : ℕ → ℕ → Bytes → Result Address
unfolding by_version
read_ripe version stream buf =
    if ltb (length buf) 4
    then failed negative_length
    else by_version version stream (take (length buf - 4) buf)

unfoldable pub then_ripe : Outcome Bytes (ℕ × ℕ) → Result Address
unfolding read_ripe
then_ripe (ok v buf) = read_ripe v.0 v.1 buf
then_ripe (err e buf) = failed e

unfoldable pub read_front : Reader (ℕ × ℕ)
read_front = do version ← read_var_int; stream ← read_var_int; (λ r. ok (version, stream) r)

unfoldable pub without_prefix : Bytes → Bytes
without_prefix addr =
    if leb 3 (length addr) && equal (take 3 addr) (codes "BM-") then drop 3 addr else addr

module _ (sha512 : Bytes → Bytes) where
  -- `String`
  unfoldable pub to_string : (Bytes → Bytes) → Address → Bytes
  unfolding binary_form
  to_string base58_encode addr =
      let data_bytes = binary_form addr in
      let checksum = take 4 (double_sha512 sha512 data_bytes) in
      codes "BM-" ++ base58_encode (data_bytes ++ checksum)

  unfoldable pub decode_data : Bytes → Result Address
  unfolding then_ripe read_front
  decode_data bytes =
      let hash_data = take (length bytes - 4) bytes in
      let checksum = drop (length bytes - 4) bytes in
      if leb (length bytes) 12
      then failed unknown_address_type
      else if equal checksum (take 4 (double_sha512 sha512 hash_data))
      then then_ripe (read_front bytes)
      else failed checksum_mismatch

  unfoldable pub decode_address : (Bytes → Bytes) → Bytes → Result Address
  unfolding decode_data without_prefix
  decode_address base58_decode addr = decode_data (base58_decode (without_prefix addr))

  -- `Sha512`
  unfoldable pub address_sha512 : Address → Bytes
  unfolding binary_data
  address_sha512 addr = sha512 (binary_data (version addr) (stream addr) (ripe_hash addr))

  -- `DoubleSha512`
  unfoldable pub address_double_sha512 : Address → Bytes
  unfolding address_sha512
  address_double_sha512 addr = sha512 (address_sha512 addr)

  unfoldable pub tag : Address → Bytes
  unfolding address_double_sha512
  tag addr = copy_zeroed 32 (drop 32 (address_double_sha512 addr))

  module _ {PrivateKey : Type 0} (priv_key_from_bytes : Bytes → PrivateKey) where
    unfoldable pub v4_broadcast_decryption_key : Address → PrivateKey
    unfolding address_sha512
    v4_broadcast_decryption_key addr = priv_key_from_bytes (take 32 (address_sha512 addr))

    unfoldable pub v5_broadcast_decryption_key : Address → PrivateKey
    unfolding address_double_sha512
    v5_broadcast_decryption_key addr = priv_key_from_bytes (take 32 (address_double_sha512 addr))
