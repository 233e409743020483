-- ===== src/Identity/Hd.antt =====
-- `NewHD` of identity/privatekey.go. The extended keys of hdkeychain are a parameter.
use bmutil.Common.{ℕ, zero, suc, ◌+◌, ◌%◌, ◌^◌, Bool, not, Option, none, some, ◌==◌, if◌then◌else◌}
use bmutil.Error.{Result, returned, failed, not_private, nil_pointer}
use bmutil.Error.Results.{and_then}
use bmutil.Types.{first_byte}
use bmutil.Crypto.{Library}
use bmutil.Identity.PrivateKey.{PrivateKey, private_hash}

abbrev pub bm_purpose_code : ℕ
bm_purpose_code = 0x8000_0052

-- `hdkeychain.ExtendedKey`, where `ECPrivKey` returns no key with an error
pub record Hierarchy (PrivKey : Type 0) : Type 1 where
  pub ExtendedKey : Type 0
  pub is_private : ExtendedKey → Bool
  pub child : ExtendedKey → ℕ → Result ExtendedKey
  pub ec_priv_key : ExtendedKey → Option PrivKey
  pub hardened_key_start : ℕ

module _ (L : Library) (H : Hierarchy L.PrivKey) where
  -- the sum of two uint32
  abbrev pub hardened : ℕ → ℕ
  hardened n = (H.hardened_key_start + n) % 2 ^ 32

  -- the pair of keys, where `Hash` panics on one that is nil
  abbrev pub both : Option L.PrivKey → Option L.PrivKey → Result (PrivateKey L)
  both (some s) (some d) = returned (record { signing = s; decryption = d })
  both _ _ = failed nil_pointer

  abbrev pub test_first :
      Result (PrivateKey L) → Option (Result (PrivateKey L)) → Option (Result (PrivateKey L))
  test_first (failed e) rest = some (failed e)
  test_first (returned pk) rest =
      if first_byte (private_hash L pk) == 0 then some (returned pk) else rest

  -- A child that cannot be derived is passed over.
  abbrev pub with_child :
      Option L.PrivKey
      → Result H.ExtendedKey
      → Option (Result (PrivateKey L))
      → Option (Result (PrivateKey L))
  with_child signing (failed e) rest = rest
  with_child signing (returned enc_key) rest =
      test_first (both signing (H.ec_priv_key enc_key)) rest

  -- The loop, from the child `i` on; `none` is out of fuel.
  unfoldable pub hd_loop : Option L.PrivKey → H.ExtendedKey → ℕ → ℕ → Option (Result (PrivateKey L))
  hd_loop signing a zero i = none
  hd_loop signing a (suc fuel) i =
      let rest = hd_loop signing a fuel ((i + 1) % 2 ^ 32) in with_child signing (H.child a i) rest

  -- The address key below the master key
  unfoldable pub address_key : H.ExtendedKey → ℕ → ℕ → Result H.ExtendedKey
  address_key master_key n stream = and_then (H.child master_key bm_purpose_code) (λ p.
      and_then (H.child p (hardened n))
        (λ i. and_then (H.child i (hardened (stream % 2 ^ 32))) (λ s. H.child s (hardened 0))))

  abbrev pub from_address_key : ℕ → Result H.ExtendedKey → Option (Result (PrivateKey L))
  from_address_key fuel (failed e) = some (failed e)
  from_address_key fuel (returned a) = from_sign_key fuel a (H.child a 0)
    where
      from_sign_key : ℕ → H.ExtendedKey → Result H.ExtendedKey → Option (Result (PrivateKey L))
      from_sign_key fuel a (failed e) = some (failed e)
      from_sign_key fuel a (returned sign_key) = hd_loop (H.ec_priv_key sign_key) a fuel 1

  unfoldable pub new_hd : ℕ → H.ExtendedKey → ℕ → ℕ → Option (Result (PrivateKey L))
  unfolding hd_loop address_key
  new_hd fuel master_key n stream =
      if not (H.is_private master_key)
      then some (failed not_private)
      else from_address_key fuel (address_key master_key n stream)
