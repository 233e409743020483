-- ===== src/Hash/RoundTrip.antt =====
-- Hashes and their texts.
use bmutil.Common.{
  ℕ, ◌*◌, ◌≡◌, refl, Bytes, All, IsByte, length, ◌==◌, ==_iff, some, copy_zeroed_all, true,
  equal_iff, take, arith, length-take,
}
use bmutil.Error.{returned}
use bmutil.Pow.Search.{double_sha512}
use bmutil.Hash.{
  to_string, set_bytes, new_hash, new_decoded, new_from_str, is_equal, inventory_hash,
}
use bmutil.Hash.Hex.{hex_decode-to_string, length-to_string}

pub new_hash-sized : (size : ℕ) (bs : Bytes) → length bs ≡ size → new_hash size bs ≡ returned bs
unfolding new_hash set_bytes
new_hash-sized size bs n = rw ((==_iff (length bs) size).1 n, copy_zeroed_all size bs n) refl

-- A hash, bytes of the size of its array, is read back from its text, and is equal to what is read.
hash_round_trip :
    (size : ℕ) (bs : Bytes)
    → length bs ≡ size
    → All IsByte bs
    → (new_from_str size (to_string bs) ≡ returned bs) × (is_equal bs (some bs) ≡ true)
unfolding new_from_str new_decoded is_equal
hash_round_trip size bs n h =
    let fits : (length (to_string bs) == size * 2) ≡ true =
      (==_iff (length (to_string bs)) (size * 2)).1 (rw (length-to_string bs, n) refl) in
    (rw (fits, hex_decode-to_string bs h) (new_hash-sized size bs n), (equal_iff bs bs).1 refl)

-- `InventoryHash` never fails: it is the first half of the double hash, if SHA-512 gives 64 bytes.
pub inventory_hash_lem :
    (sha512 : Bytes → Bytes)
    → ((b : Bytes) → length (sha512 b) ≡ 64)
    → (stuff : Bytes)
    → inventory_hash sha512 stuff ≡ returned (take 32 (double_sha512 sha512 stuff))
unfolding inventory_hash double_sha512
inventory_hash_lem sha512 sized stuff =
    new_hash-sized 32 (take 32 (sha512 (sha512 stuff)))
      (omega (arith, length-take 32 (sha512 (sha512 stuff)), sized (sha512 stuff)))
