-- ===== src/Identity.antt =====
-- The package identity. Here are the keys of identity/pubkey.go and identity/publickey.go; the
-- elliptic curve and the hash functions are those of a `Library`.
pub mod PublicAddress
pub mod PublicId
pub mod PrivateKey
pub mod PrivateAddress
pub mod PrivateId
pub mod Hd
use bmutil.Common.{
  ℕ, ◌≡◌, refl, ◌∷◌, ◌++◌, [], Bytes, drop, copy_zeroed, length, All, IsByte, copy_zeroed_all, ap,
  ◌∙◌,
}
use bmutil.Error.{Result, returned, failed}
use bmutil.Error.Results.{◌>>=◌}
use bmutil.Crypto.{Library, IsLawful}
use bmutil.Hash.{new_hash, ripe_size}
use bmutil.Wire.PubKey.{pub_key_size, new_pub_key-sized}
use bmutil.Wire.PubKey as WirePubKey
use bmutil.Hash.RoundTrip.{new_hash-sized}

-- A pointer to an array, where `[]` stands for the nil pointer that comes with an error
abbrev pub or_nil : Result Bytes → Bytes
or_nil (returned a) = a
or_nil (failed e) = []

module _ (L : Library) where
  -- The struct `PublicKey`
  pub record PublicKey : Type 0 where
    pub verification : L.PubKey
    pub encryption : L.PubKey

  -- `PubKey.Bytes`
  unfoldable pub key_bytes : L.PubKey → Bytes
  key_bytes pubkey = drop 1 (L.serialize_uncompressed pubkey)

  -- `PubKey.Wire`
  unfoldable pub wire : L.PubKey → Bytes
  unfolding key_bytes
  wire pubkey = or_nil (WirePubKey.new_pub_key (key_bytes pubkey))

  unfoldable pub new_pub_key : Bytes → Result L.PubKey
  new_pub_key pub_bytes = L.parse_pub_key (4 ∷ copy_zeroed pub_key_size pub_bytes)

  -- `PublicKey.Hash`
  unfoldable pub hash : PublicKey → Bytes
  hash k = or_nil (
      new_hash ripe_size (
        L.ripemd160 (
          L.sha512
            (L.serialize_uncompressed k.verification ++ L.serialize_uncompressed k.encryption))))

  unfoldable pub new_public_key : Bytes → Bytes → Result PublicKey
  unfolding new_pub_key
  new_public_key vk ek = do
    vpk ← new_pub_key vk
    epk ← new_pub_key ek
    returned (record { verification = vpk; encryption = epk })

module _ (L : Library) (lawful : IsLawful L) where
  pub wire-coordinates :
      (k : L.PubKey)
      → (L.serialize_uncompressed k ≡ 4 ∷ wire L k)
        × (length (wire L k) ≡ 64)
        × All IsByte (wire L k)
  unfolding wire key_bytes
  wire-coordinates k =
      let s = lawful.serialized k in
      let same : or_nil (WirePubKey.new_pub_key (drop 1 (L.serialize_uncompressed k))) ≡ s.0 =
        rw (s.1, new_pub_key-sized s.0 s.2) refl in
      rw same (s.1, s.2, s.3)

  pub new_pub_key-wire : (k : L.PubKey) → new_pub_key L (wire L k) ≡ returned k
  unfolding new_pub_key
  new_pub_key-wire k =
      let c = wire-coordinates k in
      let parsed : L.parse_pub_key (4 ∷ wire L k) ≡ returned k =
        rw c.0 at (lawful.parse_serialize k) in
      ap (λ b. L.parse_pub_key (4 ∷ b)) (copy_zeroed_all 64 (wire L k) c.1) ∙ parsed

  -- The keys are made again of their 64 bytes.
  pub new_public_key-wire :
      (k : PublicKey L)
      → new_public_key L (wire L k.verification) (wire L k.encryption) ≡ returned k
  unfolding new_public_key
  new_public_key-wire k = rw (new_pub_key-wire k.verification, new_pub_key-wire k.encryption) refl

  hash_sized : (b : Bytes) → new_hash ripe_size (L.ripemd160 b) ≡ returned (L.ripemd160 b)
  hash_sized b = new_hash-sized 20 (L.ripemd160 b) (lawful.ripemd160_sized b)

  -- The ripe of an identity is 20 bytes.
  pub hash-IsByte : (k : PublicKey L) → (length (hash L k) ≡ 20) × All IsByte (hash L k)
  unfolding hash
  hash-IsByte k = rw hash_sized (lawful.ripemd160_sized _, lawful.ripemd160_bytes _)
