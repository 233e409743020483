-- ===== src/Identity/PrivateId.antt =====
-- identity/privateid.go: a private address with what its public identity asks for.
use bmutil.Common.{ℕ, Option}
use bmutil.Crypto.{Library}
use bmutil.Pow.Data as PowData
use bmutil.Wire.Obj.PubKeyData.{PubKeyData, pow_or_default}
use bmutil.Address.{Address}
use bmutil.Identity.PrivateAddress.{PrivateAddress, public_address}
use bmutil.Identity.PrivateAddress
use bmutil.Identity.PublicId.{PublicId}
use bmutil.Identity.PublicId

module _ (L : Library) where
  pub record PrivateId : Type 0 where
    pub private_address : PrivateAddress L
    pub behavior : ℕ
    pub pow : Option PowData.Data

  -- `Public`
  unfoldable pub public_id : PrivateId → PublicId L
  public_id id = record {
    public_address = public_address L id.private_address;
    behavior = id.behavior;
    pow = id.pow;
  }

  -- `Address`, of the embedded private address
  unfoldable pub address : PrivateId → Option Address
  address id = PrivateAddress.address L id.private_address

  -- `Data`
  unfoldable pub pub_key_data : PrivateId → PubKeyData
  unfolding public_id
  pub_key_data id = PublicId.pub_key_data L (public_id id)

  -- `Pow`
  unfoldable pub pow_data : PrivateId → PowData.Data
  pow_data id = pow_or_default id.pow

  unfoldable pub new_private_id : PrivateAddress L → ℕ → Option PowData.Data → PrivateId
  new_private_id id behavior pd = record { private_address = id; behavior = behavior; pow = pd }

  -- `NewPublicFromWIF`
  unfoldable pub new_public_from_wif : ℕ → PrivateAddress L → ℕ → Option PowData.Data → PublicId L
  new_public_from_wif out_of_range address behavior pd =
      PublicId.new_public_id L out_of_range (public_address L address) behavior pd
