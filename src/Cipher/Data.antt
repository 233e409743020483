-- ===== src/Cipher/Data.antt =====
-- cipher/bitmessage.go: the type `Data`, which holds the public part of an identity. A key is a type
-- of its own, and its `Wire` method, which calls btcec, is a parameter.
use bmutil.Common.{
  ℕ, ◌≡◌, ◌≤◌, refl, ◌++◌, Bytes, Option, leb, if◌then◌else◌, le→leb, append_assoc, arith, ◌<◌,
  false, true, Bool, ap,
}
use bmutil.Stream.{◌>>=◌, ◌>>◌, pure, Reader, Writer}
use bmutil.Stream.Emits.{Emits, Emits-bind}
use bmutil.Stream.Parses.{Parses, Parses-bind, Parses-map}
use bmutil.Types.{IsU64, read_var_int, write_var_int}
use bmutil.Types.VarInt.{var_int, Emits-var_int, Parses-var_int}
use bmutil.Pow.Data as PowData
use bmutil.Wire.Obj.PubKeyData as PubKeyData
use bmutil.Wire.Obj.PubKeyData.{no_data}

-- the structs `Data` and `PublicKey`
pub record Data (PubKey : Type 0) : Type 0 where
  pub verification : PubKey
  pub encryption : PubKey
  pub version : ℕ
  pub stream : ℕ
  pub behavior : ℕ
  pub pow : Option PowData.Data

module _ {PubKey : Type 0} (wire : PubKey → Bytes) where
  -- `PubKeyData`
  unfoldable pub pub_key_data : Data PubKey → PubKeyData.PubKeyData
  pub_key_data d = record {
    behavior = d.behavior;
    verification = wire d.verification;
    encryption = wire d.encryption;
    pow = d.pow;
  }

  unfoldable pub encode : Data PubKey → Writer
  encode d = do write_var_int d.version; write_var_int d.stream; PubKeyData.encode (pub_key_data d)

-- the two ways to read the key data, into a new `PubKeyData`
unfoldable pub read_data : ℕ → Reader PubKeyData.PubKeyData
read_data version =
    if leb 3 version then PubKeyData.decode no_data else PubKeyData.decode_simple no_data

unfoldable pub decode : {PubKey : Type 0} → Data PubKey → Reader (Data PubKey)
unfolding read_data
decode d = do
  version ← read_var_int
  stream ← read_var_int
  key_data ← read_data version
  pure (record d { version = version; stream = stream })

module _ {PubKey : Type 0} (wire : PubKey → Bytes) (d : Data PubKey) where
  -- What `Encode` writes
  abbrev pub text : Bytes
  text = var_int d.version ++ (var_int d.stream ++ PubKeyData.text (pub_key_data wire d))

  -- What `Decode` reads of it for the versions below 3
  abbrev pub simple_text : Bytes
  simple_text =
      var_int d.version ++ (var_int d.stream ++ PubKeyData.simple_text (pub_key_data wire d))

module _ {PubKey : Type 0} (wire : PubKey → Bytes) (d start : Data PubKey)
    (version_fits : IsU64 d.version) (stream_fits : IsU64 d.stream)
    (data_valid : PubKeyData.IsValid (pub_key_data wire d)) where
  Emits-data : Emits (encode wire d) (text wire d)
  unfolding encode
  Emits-data =
      Emits-bind _ (Emits-var_int d.version)
        (Emits-bind _ (Emits-var_int d.stream) (PubKeyData.Emits-encode (pub_key_data wire d)))

  Parses-data :
      {bs : Bytes} {pk : PubKeyData.PubKeyData} (p : Reader PubKeyData.PubKeyData)
      → read_data d.version ≡ p
      → Parses p bs pk
      → Parses
          (decode start)
          (var_int d.version ++ (var_int d.stream ++ bs))
          (record start { version = d.version; stream = d.stream })
  unfolding decode
  Parses-data {bs} {pk} p e P =
      let Q : Parses (read_data d.version) bs pk = rw e P in
      Parses-bind _ (Parses-var_int d.version version_fits)
        (Parses-bind _ (Parses-var_int d.stream stream_fits) (Parses-map _ Q (λ r. refl)))

  form :
      (c : Bool)
      → leb 3 d.version ≡ c
      → read_data d.version
        ≡ (if c then PubKeyData.decode no_data else PubKeyData.decode_simple no_data)
  unfolding read_data
  form c e = ap (λ b. if b then PubKeyData.decode no_data else PubKeyData.decode_simple no_data) e

  -- Of valid data with a version from 3 on, `Decode` reads all that `Encode` writes, but it stores
  -- the version and the stream alone: the keys, the behavior and the difficulty stay those that the
  -- receiver had.
  pub data_decode_drops :
      3 ≤ d.version
      → Emits (encode wire d) (text wire d)
        × Parses
            (decode start)
            (text wire d)
            (record start { version = d.version; stream = d.stream })
  data_decode_drops new = (
    Emits-data,
    Parses-data (PubKeyData.decode no_data) (form true (le→leb 3 d.version new))
        (PubKeyData.Parses-decode (pub_key_data wire d) no_data data_valid),
  )

  -- Of valid data with a version below 3, `Encode` writes the difficulty too, and `Decode` leaves it
  -- unread: it reads the simple form.
  data_decode_leaves :
      d.version < 3
      → Emits (encode wire d) (text wire d)
        × Parses
            (decode start)
            (simple_text wire d)
            (record start { version = d.version; stream = d.stream })
        × (text wire d ≡ simple_text wire d ++ PowData.text (PubKeyData.pow_or_default d.pow))
  unfolding PubKeyData.text pub_key_data
  data_decode_leaves old =
      let simple : leb 3 d.version ≡ false = ground arith in
      (
        Emits-data,
        Parses-data (PubKeyData.decode_simple no_data) (form false simple)
            (PubKeyData.Parses-simple (pub_key_data wire d) no_data data_valid),
        rw (append_assoc (var_int d.version), append_assoc (var_int d.stream)) refl,
      )
