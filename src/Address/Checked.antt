-- ===== src/Address/Checked.antt =====
-- `DecodeAddress` on a text with the right checksum: only the fields are left to judge.
use bmutil.Common.{
  ℕ, ◌≡◌, ◌-◌, refl, ◌++◌, Bytes, length, take, arith, All, IsByte, length-append, length-take,
  take-append, drop-append, leb, if◌then◌else◌, equal, equal_iff, All-append, All-take, codes,
  le→leb,
}
use bmutil.Error.{failed, unknown_address_type}
use bmutil.Types.{IsU64}
use bmutil.Types.VarInt.{var_int-IsByte}
use bmutil.Pow.Search.{double_sha512}
use bmutil.Address.{by_version, then_ripe, without_prefix, decode_data, decode_address}
use bmutil.Address.Text.{data_text, read_front-text, read_ripe-text}

without_prefix_lem : (s : Bytes) → without_prefix (codes "BM-" ++ s) ≡ s
unfolding without_prefix equal
without_prefix_lem s = rw (le→leb 3 (length (codes "BM-" ++ s)) (omega arith)) refl

module _ (sha512 : Bytes → Bytes) (sha512_sized : (b : Bytes) → length (sha512 b) ≡ 64)
    (sha512_bytes : (b : Bytes) → All IsByte (sha512 b)) where
  abbrev checksum : Bytes → Bytes
  checksum d = take 4 (double_sha512 sha512 d)

  length-checksum : (d : Bytes) → length (checksum d) ≡ 4
  unfolding double_sha512
  length-checksum d = omega (arith, length-take 4 (sha512 (sha512 d)), sha512_sized (sha512 d))

  decode_data_lem :
      (v s : ℕ) (ripe : Bytes)
      → IsU64 v
      → IsU64 s
      → decode_data sha512 (data_text v s ripe ++ checksum (data_text v s ripe)) ≡ (
          if leb (length (data_text v s ripe)) 8
          then failed unknown_address_type
          else by_version v s ripe)
  unfolding decode_data then_ripe
  decode_data_lem v s ripe hv hs =
      let d = data_text v s ripe in
      let c = checksum d in
      let size : length (d ++ c) - 4 ≡ length d =
        omega (arith, length-append d c, length-checksum d) in
      let same : leb (length (d ++ c)) 12 ≡ leb (length d) 8 =
        ground (arith, length-append d c, length-checksum d) in
      rw
        (
          size,
          same,
          take-append d c,
          drop-append d c,
          (equal_iff c c).1 refl,
          read_front-text v s ripe c hv hs,
          read_ripe-text v s ripe c (length-checksum d),
        )
        refl

  module _ (base58_encode base58_decode : Bytes → Bytes)
      (decode_encode : (b : Bytes) → All IsByte b → base58_decode (base58_encode b) ≡ b) where
    pub decode_address-text :
        (v s : ℕ) (ripe : Bytes)
        → IsU64 v
        → IsU64 s
        → All IsByte ripe
        → decode_address sha512 base58_decode
            (codes "BM-" ++ base58_encode (data_text v s ripe ++ checksum (data_text v s ripe)))
          ≡ (if leb (length (data_text v s ripe)) 8
              then failed unknown_address_type
              else by_version v s ripe)
    unfolding decode_address double_sha512
    decode_address-text v s ripe hv hs hr =
        let d = data_text v s ripe in
        rw
          (
            without_prefix_lem (base58_encode (d ++ checksum d)),
            decode_encode (d ++ checksum d) (
                All-append IsByte d (checksum d)
                  (All-append IsByte _ _ (var_int-IsByte v hv)
                    (All-append IsByte _ _ (var_int-IsByte s hs) hr))
                  (All-take IsByte 4 (double_sha512 sha512 d) (sha512_bytes (sha512 d)))),
          )
          (decode_data_lem v s ripe hv hs)
