-- ===== src/Tests/Addresses.antt =====
-- address.go and hash, with a function in place of SHA-512 and the identity in place of base58.
use bmutil.Common.{◌++◌, copy_zeroed, equal, ◌≡◌, refl, [], ◌∷◌, Bytes, arith, replicate, inr}
use bmutil.Error.{returned, failed, index_out_of_range}
use bmutil.Binary.{put_be}
use bmutil.Stream.{read_full}
use bmutil.Pow.Search.{double_sha512}
use bmutil.Types.{read_var_int, by_discriminant, first_byte, var_int_serialize_size}
use bmutil.Address.{
  address_v4, depricated_address, to_string, decode_address, new_address, new_depricated_address,
  trim_left, without_prefix, decode_data, then_ripe, read_front, read_ripe, by_version, decode_v4,
  pad,
}
use bmutil.Address.RoundTrip.{decode_address-to_string_v4, decode_address-to_string_depricated}
use bmutil.Address.Decoded.{decode_address-IsValid}
use bmutil.Address.Decoded as Decoded
use bmutil.Tests.Inputs.{digest, digest_sized, digest_bytes}

abbrev pub itself : Bytes → Bytes
itself b = b

abbrev ripe : Bytes
ripe = 0 ∷ replicate 19 5

new_ones :
    (new_address 4 1 ripe ≡ returned (address_v4 1 ripe))
    × (new_depricated_address 3 1 ripe ≡ returned (depricated_address 3 1 ripe))
unfolding new_address new_depricated_address
new_ones = (refl, refl)

decode_address-to_string_v4_example :
    decode_address digest itself (to_string digest itself (address_v4 1 ripe))
    ≡ returned (address_v4 1 ripe)
unfolding trim_left var_int_serialize_size
decode_address-to_string_v4_example =
    decode_address-to_string_v4 digest digest_sized digest_bytes itself itself (λ b h. refl) 1 ripe
      (omega arith) refl (ground arith)

decode_address-to_string_depricated_example :
    decode_address digest itself (to_string digest itself (depricated_address 3 1 ripe))
    ≡ returned (depricated_address 3 1 ripe)
decode_address-to_string_depricated_example =
    decode_address-to_string_depricated digest digest_sized digest_bytes itself itself (λ b h. refl)
      3 1 ripe (inr refl) (omega arith) refl (ground arith)

-- A ripe of null bytes and a stream of nine bytes make a text that stops the decoder.
null_ripe :
    decode_address digest itself
      (to_string digest itself (address_v4 0x1_0000_0000 (replicate 20 0)))
    ≡ failed index_out_of_range
unfolding trim_left var_int_serialize_size
null_ripe =
    decode_address-to_string_v4 digest digest_sized digest_bytes itself itself (λ b h. refl)
      0x1_0000_0000 (replicate 20 0) (omega arith) refl (ground arith)

-- In place of base58, what the text of an address decodes to
abbrev decoded : Bytes → Bytes
decoded text = 4 ∷ 1 ∷ (replicate 19 5 ++ replicate 4 0)

decoded_address : decode_address digest decoded [] ≡ returned (address_v4 1 ripe)
unfolding decode_address decode_data then_ripe read_front read_ripe by_version decode_v4 pad
    copy_zeroed read_var_int by_discriminant first_byte read_full without_prefix equal double_sha512
    put_be
decoded_address = refl

decode_address-IsValid_example : Decoded.IsValid (address_v4 1 ripe)
decode_address-IsValid_example =
    decode_address-IsValid digest decoded (λ b. ground arith) [] (address_v4 1 ripe) decoded_address
