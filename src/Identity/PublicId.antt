-- ===== src/Identity/PublicId.antt =====
-- identity/publicid.go and identity/public.go: a public identity, and its codec. `publicID` is the one
-- implementation of the interface `Public`, which is not nil here.
pub mod RoundTrip
pub mod Stable
pub mod Lowered
use bmutil.Common.{ℕ, ◌≡◌, refl, leb, if◌then◌else◌, Option, none, some, Bytes}
use bmutil.Error.{Result, returned, failed, nil_pointer}
use bmutil.Error.Results.{and_then}
use bmutil.Crypto.{Library}
use bmutil.Stream.{◌>>=◌, ◌>>◌, pure, fail, M, Reader, Writer}
use bmutil.Stream.Run.{lift}
use bmutil.Types.{read_var_int, write_var_int}
use bmutil.Pow.Data as PowData
use bmutil.Wire.Obj.PubKeyData.{PubKeyData, no_data}
use bmutil.Wire.Obj.PubKeyData
use bmutil.Address.{Address}
use bmutil.Address
use bmutil.Identity.{PublicKey, wire, new_public_key}
use bmutil.Identity.PublicAddress.{PublicAddress, full_address, new_public_address}
use bmutil.Float.{max_uint64}

-- A method of an address that may be nil
abbrev pub deref {ℓ κ} : {S : Type κ} {A : Type ℓ} → Option A → M S A
deref (some a) = pure a
deref none = fail nil_pointer

module _ (L : Library) where
  -- The struct `publicID`
  pub record PublicId : Type 0 where
    pub public_address : PublicAddress L
    pub behavior : ℕ
    pub pow : Option PowData.Data

  unfoldable pub key : PublicId → PublicKey L
  key id = id.public_address.public_key

  -- `Address`
  unfoldable pub address : PublicId → Option Address
  address id = full_address L id.public_address

  -- `Data`
  unfoldable pub pub_key_data : PublicId → PubKeyData
  unfolding key
  pub_key_data id = record {
    behavior = id.behavior;
    verification = wire L (key id).verification;
    encryption = wire L (key id).encryption;
    pow = id.pow;
  }

  -- `Pow`
  unfoldable pub pow_data : PublicId → PowData.Data
  pow_data id = PubKeyData.pow_or_default id.pow

  -- `Encode`
  unfoldable pub encode : PublicId → Writer
  unfolding address
  encode pub_id = do
    addr ← deref (address pub_id)
    write_var_int (Address.version addr)
    write_var_int (Address.stream addr)
    if leb 3 (Address.version addr)
        then PubKeyData.encode (pub_key_data pub_id)
        else PubKeyData.encode_simple (pub_key_data pub_id)

-- the two ways to read the key data, into a new `PubKeyData`
unfoldable pub read_key_data : ℕ → Reader PubKeyData
read_key_data version =
    if leb 3 version then PubKeyData.decode no_data else PubKeyData.decode_simple no_data

-- The difficulty that an identity keeps, where `out_of_range` is what the implementation of Go makes of
-- a float64 that no uint64 has
unfoldable pub raised : ℕ → Option PowData.Data → PowData.Data
raised out_of_range none = PowData.default_data
raised out_of_range (some pd) = record {
  nonce_trials_per_byte =
      max_uint64 out_of_range PowData.default_nonce_trials_per_byte pd.nonce_trials_per_byte;
  extra_bytes = max_uint64 out_of_range PowData.default_extra_bytes pd.extra_bytes;
}

module _ (L : Library) (out_of_range : ℕ) where
  unfoldable pub new_public_id : PublicAddress L → ℕ → Option PowData.Data → PublicId L
  unfolding raised
  new_public_id public_address behavior pd = record {
    public_address = public_address;
    behavior = behavior;
    pow = some (raised out_of_range pd);
  }

  unfoldable pub new_public : PublicKey L → ℕ → ℕ → ℕ → Option PowData.Data → Result (PublicId L)
  new_public public version stream behavior pd =
      and_then (new_public_address L public version stream)
        (λ a. returned (new_public_id a behavior pd))

  -- `Decode`
  unfoldable pub decode : Reader (PublicId L)
  unfolding read_key_data
  decode = do
    version ← read_var_int
    stream ← read_var_int
    key_data ← read_key_data version
    pk ← lift (new_public_key L key_data.verification key_data.encryption)
    pa ← lift (new_public_address L pk version stream)
    pure (new_public_id pa key_data.behavior key_data.pow)
