-- ===== src/Identity/PrivateAddress/Readable.antt =====
-- The addresses whose text `DecodeAddress` reads back.
use bmutil.Common.{
  ℕ, ◌≡◌, ◌≤◌, ◌+◌, refl, Bytes, take, length, All, IsByte, [], ◌∷◌, arith, false, ◌==◌, ltb, leb,
  ◌||◌,
}
use bmutil.Error.{returned}
use bmutil.Types.{IsU64, var_int_serialize_size}
use bmutil.Crypto.{Library, IsLawful}
use bmutil.Address.{
  Address, address_v4, depricated_address, ripe_hash, stream, to_string, decode_address, trim_left,
}
use bmutil.Address.Decoded.{IsVersion}
use bmutil.Address.RoundTrip.{
  v4_outcome, depricated_outcome, decode_address-to_string_v4, decode_address-to_string_depricated,
}

-- Of the 20 bytes, 7 to 19 stand behind null bytes, for version 4; for the other versions one byte at
-- least is null.
abbrev pub IsReadable : Address → Type 0
IsReadable (address_v4 s r) = (7 ≤ length (trim_left r)) × (length (trim_left r) ≤ 19)
IsReadable (depricated_address v s r) = take 1 r ≡ 0 ∷ []

size_ge : (s : ℕ) → 1 ≤ var_int_serialize_size s
unfolding var_int_serialize_size
size_ge s = ground arith

v4_read : (n s : ℕ) (r : Bytes) → 7 ≤ n → n ≤ 19 → v4_outcome n s r ≡ returned (address_v4 s r)
v4_read n s r h k =
    let long : leb (n + var_int_serialize_size s) 7 ≡ false = ground (arith, size_ge s) in
    let some_left : (n == 0) ≡ false = ground arith in
    let fits : (ltb 19 n || ltb n 4) ≡ false = ground arith in rw (long, some_left, fits) refl

depricated_read :
    (v s : ℕ) (r : Bytes)
    → take 1 r ≡ 0 ∷ []
    → depricated_outcome v s r ≡ returned (depricated_address v s r)
depricated_read v s [] h = absurd (cc)
depricated_read v s (b ∷ bs) h = let null : b ≡ 0 = cc in rw null refl

pub decode_address-to_string :
    (L : Library)
    → IsLawful L
    → (a : Address) → IsVersion a
    → IsU64 (stream a)
    → length (ripe_hash a) ≡ 20
    → All IsByte (ripe_hash a)
    → IsReadable a
    → decode_address L.sha512 L.base58_decode (to_string L.sha512 L.base58_encode a) ≡ returned a
decode_address-to_string L lawful (address_v4 s r) v fits sized bytes h =
    rw
      (decode_address-to_string_v4 L.sha512 lawful.sha512_sized lawful.sha512_bytes L.base58_encode
        L.base58_decode lawful.base58_decode_encode s r fits sized bytes)
      (v4_read (length (trim_left r)) s r h.0 h.1)
decode_address-to_string L lawful (depricated_address n s r) v fits sized bytes h =
    rw
      (decode_address-to_string_depricated L.sha512 lawful.sha512_sized lawful.sha512_bytes
        L.base58_encode L.base58_decode lawful.base58_decode_encode n s r v fits sized bytes)
      (depricated_read n s r h)
