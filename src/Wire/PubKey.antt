-- ===== src/Wire/PubKey.antt =====
-- wire/pubkey.go: the 64 bytes of a public key. `btcec.ParsePubKey` is a parameter.
use bmutil.Common.{
  ℕ, ◌*◌, ◌≡◌, refl, ◌∷◌, Bytes, Bool, length, not, ◌==◌, if◌then◌else◌, Option, none, some,
  copy_zeroed, equal, All, IsByte, ==_iff, equal_iff, copy_zeroed_all, true,
}
use bmutil.Error.{Result, returned, failed, invalid_pub_key_length, pub_key_str_size, invalid_hex}
use bmutil.Hash.{to_string, hex_decode}
use bmutil.Hash.Hex.{hex_decode-to_string, length-to_string}

abbrev pub pub_key_size : ℕ
pub_key_size = 64

-- `setBytes`, with the array that it leaves
unfoldable pub set_bytes : Bytes → Result Bytes
set_bytes new_pubkey =
    if not (length new_pubkey == pub_key_size)
    then failed invalid_pub_key_length
    else returned (copy_zeroed pub_key_size new_pubkey)

unfoldable pub new_pub_key : Bytes → Result Bytes
unfolding set_bytes
new_pub_key new_hash = set_bytes new_hash

unfoldable pub from_hex : Option Bytes → Result Bytes
unfolding new_pub_key
from_hex none = failed invalid_hex
from_hex (some buf) = new_pub_key buf

unfoldable pub new_pub_key_from_str : Bytes → Result Bytes
unfolding from_hex
new_pub_key_from_str pubkey =
    if not (length pubkey == pub_key_size * 2)
    then failed pub_key_str_size
    else from_hex (hex_decode pubkey)

unfoldable pub is_equal : Bytes → Bytes → Bool
is_equal pubkey target = equal pubkey target

unfoldable pub to_btcec : {PubKey : Type 0} → (Bytes → Result PubKey) → Bytes → Result PubKey
to_btcec parse_pub_key pubkey = parse_pub_key (4 ∷ copy_zeroed pub_key_size pubkey)

pub new_pub_key-sized : (bs : Bytes) → length bs ≡ 64 → new_pub_key bs ≡ returned bs
unfolding new_pub_key set_bytes
new_pub_key-sized bs n = rw ((==_iff (length bs) 64).1 n, copy_zeroed_all 64 bs n) refl

-- The 64 bytes of a key are read back from their text in hexadecimal digits, and are equal to what is
-- read.
pub pub_key_round_trip :
    (bs : Bytes)
    → length bs ≡ 64
    → All IsByte bs
    → (new_pub_key_from_str (to_string bs) ≡ returned bs) × (is_equal bs bs ≡ true)
unfolding new_pub_key_from_str from_hex is_equal
pub_key_round_trip bs n h =
    let fits : (length (to_string bs) == 64 * 2) ≡ true =
      (==_iff (length (to_string bs)) 128).1 (rw (length-to_string bs, n) refl) in
    (rw (fits, hex_decode-to_string bs h) (new_pub_key-sized bs n), (equal_iff bs bs).1 refl)
