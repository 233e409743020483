-- ===== src/Identity/PrivateAddress.antt =====
-- identity/privateaddress.go: private keys with the version and the stream of their address, and
-- their texts.
pub mod Import
pub mod Readable
use bmutil.Common.{ℕ, ◌≡◌, refl, Bytes, not, equal, if◌then◌else◌, Option, none, some}
use bmutil.Error.{
  Result, returned, failed, nil_pointer, signing_key_undecoded, encryption_key_undecoded,
  other_private_keys,
}
use bmutil.Error.Results.{◌>>=◌}
use bmutil.Crypto.{Library}
use bmutil.Address.{Address, ripe_hash, to_string, decode_address}
use bmutil.Address
use bmutil.Wif.{decode_wif}
use bmutil.Identity.PrivateKey.{PrivateKey, public, export_wif}
use bmutil.Identity.PublicAddress.{PublicAddress, full_address}

module _ (L : Library) where
  pub record PrivateAddress : Type 0 where
    pub private_key : PrivateKey L
    pub version : ℕ
    pub stream : ℕ

  unfoldable pub new_private_address : PrivateKey L → ℕ → ℕ → PrivateAddress
  new_private_address key version stream = record {
    private_key = key;
    version = version;
    stream = stream;
  }

  -- `public`
  unfoldable pub public_address : PrivateAddress → PublicAddress L
  public_address id = record {
    public_key = public L id.private_key;
    version = id.version;
    stream = id.stream;
  }

  -- `Address`
  unfoldable pub address : PrivateAddress → Option Address
  unfolding public_address
  address id = full_address L (public_address id)

  -- a method of an address that may be nil
  abbrev pub non_nil : Option Address → Result Address
  non_nil none = failed nil_pointer
  non_nil (some a) = returned a

  -- `ExportWIF`, which panics where the address is nil
  unfoldable pub export : PrivateAddress → Result (Bytes × (Bytes × Bytes))
  unfolding address
  export id = do
    a ← non_nil (address id)
    returned (to_string L.sha512 L.base58_encode a, export_wif L id.private_key)

  -- `DecodeWIF`, with the error that is made of its error
  abbrev key_of : Bytes → Result L.PrivKey
  key_of text = decode_wif L.sha256 L.base58_decode L.priv_key_from_bytes text

  abbrev pub signing_key : Result L.PrivKey → Result L.PrivKey
  signing_key (returned k) = returned k
  signing_key (failed e) = failed signing_key_undecoded

  abbrev pub decryption_key : Result L.PrivKey → Result L.PrivKey
  decryption_key (returned k) = returned k
  decryption_key (failed e) = failed encryption_key_undecoded

  -- the comparison at the end of `ImportWIF`
  unfoldable pub consistent : Address → PrivateAddress → Result PrivateAddress
  unfolding address
  consistent addr priv = do
    own ← non_nil (address priv)
    if not (equal (ripe_hash own) (ripe_hash addr))
        then failed other_private_keys
        else returned priv

  unfoldable pub import_wif : Bytes → Bytes → Bytes → Result PrivateAddress
  unfolding consistent
  import_wif addr_str signing_key_wif decryption_key_wif = do
    addr ← decode_address L.sha512 L.base58_decode addr_str
    priv_signing_key ← signing_key (key_of signing_key_wif)
    priv_decryption_key ← decryption_key (key_of decryption_key_wif)
    consistent addr (record {
      private_key = record { signing = priv_signing_key; decryption = priv_decryption_key };
      version = Address.version addr;
      stream = Address.stream addr;
    })
