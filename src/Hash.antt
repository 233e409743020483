-- ===== src/Hash.antt =====
-- hash/sha.go and hash/ripe.go: the arrays of 32 and of 20 bytes, which have the same methods, and
-- their text in hexadecimal digits, of `encoding/hex`. The size is an argument.
pub mod Hex
pub mod RoundTrip
use bmutil.Common.{
  ℕ, ◌+◌, ◌*◌, ◌-◌, ◌/◌, ◌%◌, [], ◌∷◌, Bytes, length, take, ltb, leb, equal, not, Bool, false, ◌&&◌,
  ◌==◌, if◌then◌else◌, Option, none, some, copy_zeroed,
}
use bmutil.Error.{Result, returned, failed, invalid_hash_length, hash_str_size, invalid_hex}
use bmutil.Pow.Search.{double_sha512}

abbrev pub sha_size : ℕ
sha_size = 32

abbrev pub ripe_size : ℕ
ripe_size = 20

-- `hex.EncodeToString`
unfoldable pub hex_digit : ℕ → ℕ
hex_digit n = if ltb n 10 then n + 48 else n + 87

-- `String`
unfoldable pub to_string : Bytes → Bytes
unfolding hex_digit
to_string [] = []
to_string (b ∷ bs) = hex_digit (b / 16) ∷ hex_digit (b % 16) ∷ to_string bs

-- `hex.DecodeString`
unfoldable pub hex_value : ℕ → Option ℕ
hex_value c =
    if leb 48 c && leb c 57
    then some (c - 48)
    else if leb 97 c && leb c 102
    then some (c - 87)
    else if leb 65 c && leb c 70
    then some (c - 55)
    else none

abbrev pub with_byte : Option ℕ → Option ℕ → Option Bytes → Option Bytes
with_byte (some a) (some b) (some rest) = some ((a * 16 + b) ∷ rest)
with_byte _ _ _ = none

unfoldable pub hex_decode : Bytes → Option Bytes
unfolding hex_value
hex_decode [] = some []
hex_decode (a ∷ []) = none
hex_decode (a ∷ b ∷ s) = with_byte (hex_value a) (hex_value b) (hex_decode s)

-- `SetBytes`, with the array that it leaves
unfoldable pub set_bytes : ℕ → Bytes → Result Bytes
set_bytes size new_hash =
    if not (length new_hash == size)
    then failed invalid_hash_length
    else returned (copy_zeroed size new_hash)

-- `NewSha` and `NewRipe`
unfoldable pub new_hash : ℕ → Bytes → Result Bytes
unfolding set_bytes
new_hash size bytes = set_bytes size bytes

unfoldable pub new_decoded : ℕ → Option Bytes → Result Bytes
unfolding new_hash
new_decoded size none = failed invalid_hex
new_decoded size (some buf) = new_hash size buf

-- `NewShaFromStr` and `NewRipeFromStr`
unfoldable pub new_from_str : ℕ → Bytes → Result Bytes
unfolding new_decoded
new_from_str size hash =
    if not (length hash == size * 2)
    then failed hash_str_size
    else new_decoded size (hex_decode hash)

-- `IsEqual`, where a nil target is `none`
unfoldable pub is_equal : Bytes → Option Bytes → Bool
is_equal hash none = false
is_equal hash (some target) = equal hash target

-- `InventoryHash`, where `NewSha` does not fail
unfoldable pub inventory_hash : (Bytes → Bytes) → Bytes → Result Bytes
unfolding new_hash
inventory_hash sha512 stuff = new_hash sha_size (take 32 (double_sha512 sha512 stuff))
