-- ===== src/Tests/Library.antt =====
-- A library in place of btcec and the hash functions, which is lawful: there are two keys, a signature is
-- the mark of its key and the hash, and so is an encrypted text the mark of its key and the text.
use bmutil.Common.{
  ℕ, zero, suc, ◌≡◌, refl, [], ◌∷◌, ◌++◌, Bytes, Bool, true, false, ◌||◌, ◌==◌, if◌then◌else◌, All,
  IsByte, length, take, replicate, equal, equal_iff, copy_zeroed, length-copy_zeroed,
  copy_zeroed-IsByte, length-take, arith, ap,
}
use bmutil.Error.{Result, returned, failed, invalid_mac, library_error}
use bmutil.Binary.{put_be, put_be-IsByte}
use bmutil.Crypto.{Library, IsLawful}
use bmutil.Tests.Inputs.{digest, digest_sized, digest_bytes}

abbrev pub mark : Bool → ℕ
mark true = 1
mark false = 2

abbrev pub has_one : Bytes → Bool
has_one [] = false
has_one (b ∷ bs) = (b == 1) || has_one bs

abbrev pub sealed : Bool → Bytes → Result Bytes
sealed k [] = failed (library_error 1)
sealed k (b ∷ plain) = if b == mark k then returned plain else failed invalid_mac

abbrev pub short_digest : Bytes → Bytes
short_digest b = copy_zeroed 32 (put_be 8 (length b))

abbrev pub ripe_of : Bytes → Bytes
ripe_of b = 0 ∷ copy_zeroed 19 (7 ∷ put_be 8 (length b))

abbrev pub two_keys : Library
two_keys = record {
  PrivKey = Bool;
  PubKey = Bool;
  Signature = Bytes;
  pub_key = λ k. k;
  priv_key_from_bytes = has_one;
  d_bytes = λ k. mark k ∷ [];
  serialize_uncompressed = λ k. 4 ∷ (mark k ∷ replicate 63 0);
  parse_pub_key = λ b. returned (has_one b);
  sign = λ k hash. returned (mark k ∷ take 32 hash);
  serialize = λ s. s;
  parse_signature = λ b. returned b;
  verify = λ s hash k. equal s (mark k ∷ take 32 hash);
  encrypt = λ random k plain. returned (mark k ∷ plain);
  decrypt = sealed;
  sha512 = digest;
  sha256 = short_digest;
  sha1 = short_digest;
  ripemd160 = ripe_of;
  base58_encode = λ b. b;
  base58_decode = λ b. b;
}

key_coordinates :
    (k : Bool)
    → (coordinates : Bytes) × (4 ∷ (mark k ∷ replicate 63 0) ≡ 4 ∷ coordinates)
      × (length coordinates ≡ 64)
      × All IsByte coordinates
key_coordinates true = (1 ∷ replicate 63 0, refl, refl, ground arith)
key_coordinates false = (2 ∷ replicate 63 0, refl, refl, ground arith)

parsed : (k : Bool) → has_one (4 ∷ (mark k ∷ replicate 63 0)) ≡ k
parsed true = refl
parsed false = refl

behind_zeros : (k : Bool) (n : ℕ) → has_one (replicate n 0 ++ (mark k ∷ [])) ≡ k
behind_zeros true zero = refl
behind_zeros false zero = refl
behind_zeros k (suc n) = behind_zeros k n

mark-IsByte : (k : Bool) → All IsByte (mark k ∷ [])
mark-IsByte true = ground arith
mark-IsByte false = ground arith

signed :
    (k : Bool) (hash s : Bytes)
    → returned (mark k ∷ take 32 hash) ≡ returned s
    → mark k ∷ take 32 hash ≡ s
signed k hash s e = cc

opened :
    (k : Bool) (plain encrypted : Bytes)
    → returned (mark k ∷ plain) ≡ returned encrypted
    → sealed k encrypted ≡ returned plain
opened true plain encrypted e = rw (← same) refl
  where
    same : 1 ∷ plain ≡ encrypted
    same = cc
opened false plain encrypted e = rw (← same) refl
  where
    same : 2 ∷ plain ≡ encrypted
    same = cc

pub two_keys-IsLawful : IsLawful two_keys
two_keys-IsLawful = record {
  sha512_sized = digest_sized;
  sha512_bytes = digest_bytes;
  sha256_sized = λ b. length-copy_zeroed 32 (put_be 8 (length b));
  sha256_bytes = λ b. copy_zeroed-IsByte 32 _ (put_be-IsByte 8 (length b));
  ripemd160_sized = λ b. ap suc (length-copy_zeroed 19 (7 ∷ put_be 8 (length b)));
  ripemd160_bytes =
      λ b. (omega arith, copy_zeroed-IsByte 19 _ (omega arith, put_be-IsByte 8 (length b)));
  base58_decode_encode = λ b h. refl;
  serialized = key_coordinates;
  parse_serialize = λ k. ap returned (parsed k);
  d_short = λ k. omega arith;
  d_IsByte = mark-IsByte;
  from_d_bytes = behind_zeros;
  verify_sign = λ k hash s e. (equal_iff s (mark k ∷ take 32 hash)).1 (rw (signed k hash s e) refl);
  parse_signed = λ k hash s e. refl;
  serialize_short = λ k hash s e. rw (← signed k hash s e) (omega (arith, length-take 32 hash));
  decrypt_encrypt = λ random k plain encrypted e. opened k plain encrypted e;
}
