-- ===== src/Identity/PublicId/RoundTrip.antt =====
-- A public identity on the wire and back.
use bmutil.Common.{
  ℕ, ◌^◌, ◌<◌, ◌≡◌, refl, leb, if◌then◌else◌, Option, none, some, Bytes, ◌++◌, arith, Bool, true,
  false,
}
use bmutil.Crypto.{Library, IsLawful}
use bmutil.Stream.{◌>>◌}
use bmutil.Stream.Emits.{Emits, Emits-bind}
use bmutil.Stream.Parses.{Parses, Parses-bind, Parses-map}
use bmutil.Types.{IsU64, write_var_int}
use bmutil.Types.VarInt.{var_int, Emits-var_int, Parses-var_int}
use bmutil.Pow.Data as PowData
use bmutil.Wire.Obj.PubKeyData.{PubKeyData, no_data, pow_or_default}
use bmutil.Wire.Obj.PubKeyData
use bmutil.Address.{Address}
use bmutil.Address
use bmutil.Identity.{wire-coordinates, new_public_key-wire}
use bmutil.Identity.PublicAddress.{address-Fields, new_public_address-again}
use bmutil.Identity.PublicId.{
  PublicId, address, pub_key_data, encode, decode, read_key_data, new_public_id, raised,
}

-- What is read of the key data, by its version
abbrev pub read_pow : ℕ → Option PowData.Data → Option PowData.Data
read_pow version pow = if leb 3 version then some (pow_or_default pow) else none

abbrev pub data_text : ℕ → PubKeyData → Bytes
data_text version pk = if leb 3 version then PubKeyData.text pk else PubKeyData.simple_text pk

pub Parses-key_data :
    (c : Bool) (version : ℕ) (pk : PubKeyData)
    → leb 3 version ≡ c
    → PubKeyData.IsValid pk
    → Parses
        (read_key_data version)
        (data_text version pk)
        (record pk { pow = read_pow version pk.pow })
unfolding read_key_data
Parses-key_data true version pk e v = rw e (PubKeyData.Parses-decode pk no_data v)
Parses-key_data false version pk e v = rw e (PubKeyData.Parses-simple pk no_data v)

Emits-key_data :
    (c : Bool) (version : ℕ) (pk : PubKeyData)
    → leb 3 version ≡ c
    → Emits
        (if leb 3 version then PubKeyData.encode pk else PubKeyData.encode_simple pk)
        (data_text version pk)
Emits-key_data true version pk e = rw e (PubKeyData.Emits-encode pk)
Emits-key_data false version pk e = rw e (PubKeyData.Emits-simple pk)

module _ (L : Library) where
  -- The identity has an address, and its fields are in range.
  pub record IsValid (id : PublicId L) : Type 0 where
    pub its_address : Address
    pub has_address : address L id ≡ some its_address
    pub stream_fits : IsU64 id.public_address.stream
    pub behavior_fits : id.behavior < 256 ^ 4
    pub pow_valid : PowData.IsValid (pow_or_default id.pow)

  -- What `Encode` writes
  unfoldable pub text : PublicId L → Bytes
  text id =
      var_int id.public_address.version
      ++ (var_int id.public_address.stream
          ++ data_text id.public_address.version (pub_key_data L id))

  -- What `Decode` makes of it
  unfoldable pub received : ℕ → PublicId L → PublicId L
  received out_of_range id = record id {
    pow = some (raised out_of_range (read_pow id.public_address.version id.pow));
  }

  pub Emits-encode : (id : PublicId L) → IsValid id → Emits (encode L id) (text id)
  unfolding encode text address
  Emits-encode id v =
      let f = address-Fields L id.public_address v.its_address v.has_address in
      let a = v.its_address in
      let body : Emits
          (do
            write_var_int (Address.version a)
            write_var_int (Address.stream a)
            if leb 3 (Address.version a)
                then PubKeyData.encode (pub_key_data L id)
                else PubKeyData.encode_simple (pub_key_data L id))
          (text id) =
        rw (f.version_is, f.stream_is)
          (Emits-bind _ (Emits-var_int id.public_address.version) (
            Emits-bind _ (Emits-var_int id.public_address.stream)
              (Emits-key_data _ id.public_address.version (pub_key_data L id) refl))) in
      rw v.has_address body

  module _ (lawful : IsLawful L) (out_of_range : ℕ) where
    pub data-IsValid : (id : PublicId L) → IsValid id → PubKeyData.IsValid (pub_key_data L id)
    unfolding pub_key_data
    data-IsValid id v =
        let a = wire-coordinates L lawful id.public_address.public_key.verification in
        let b = wire-coordinates L lawful id.public_address.public_key.encryption in
        record {
          behavior_fits = v.behavior_fits;
          verification_sized = (a.1, a.2);
          encryption_sized = (b.1, b.2);
          pow_valid = v.pow_valid;
        }

    pub Parses-decode :
        (id : PublicId L)
        → IsValid id
        → Parses (decode L out_of_range) (text id) (received out_of_range id)
    unfolding decode text received address new_public_id pub_key_data
    Parses-decode id v =
        let pa = id.public_address in
        let f = address-Fields L pa v.its_address v.has_address in
        let version_fits : IsU64 pa.version = omega (arith, f.version_le) in
        Parses-bind _ (Parses-var_int pa.version version_fits) (
          Parses-bind _ (Parses-var_int pa.stream v.stream_fits) (
            Parses-map _ (Parses-key_data _ pa.version (pub_key_data L id) refl (data-IsValid id v))
              (λ r.
                rw
                  (
                    new_public_key-wire L lawful pa.public_key,
                    new_public_address-again L pa v.its_address v.has_address,
                  )
                  refl)))
