-- ===== src/Wire/Obj/PubKeyData.antt =====
-- wire/obj/pubkeydata.go: what a public key object carries. The two keys are not nil.
use bmutil.Common.{
  ℕ, ◌^◌, ◌<◌, ◌≡◌, [], ◌∷◌, ◌++◌, Bytes, IsByte, All, length, Option, none, some, refl,
}
use bmutil.Stream.{◌>>=◌, ◌>>◌, pure, Reader, Writer}
use bmutil.Pow.Data as PowData
use bmutil.Wire.Element.{uint32, pub_key, read_elements, write_elements}
use bmutil.Wire.Element.RoundTrip.{elements, Emits-elements, Parses-elements}
use bmutil.Stream.Parses.{Parses, Parses-map, Parses-bind}
use bmutil.Stream.Emits.{Emits, Emits-bind}

pub record PubKeyData : Type 0 where
  pub behavior : ℕ
  pub verification : Bytes
  pub encryption : Bytes
  pub pow : Option PowData.Data

-- `&PubKeyData{}`, where `DecodeSimple` makes the two keys before it reads them
abbrev pub no_data : PubKeyData
no_data = record { behavior = 0; verification = []; encryption = []; pow = none }

unfoldable pub encode_simple : PubKeyData → Writer
encode_simple pk =
    write_elements (uint32 ∷ pub_key ∷ pub_key ∷ [])
      (pk.behavior, (pk.verification, (pk.encryption, tt)))

-- `pk.Pow`, or the default for a nil one
unfoldable pub pow_or_default : Option PowData.Data → PowData.Data
pow_or_default (some pd) = pd
pow_or_default none = PowData.default_data

unfoldable pub encode : PubKeyData → Writer
encode pk = do encode_simple pk; PowData.encode (pow_or_default pk.pow)

-- `DecodeSimple` keeps the `Pow` that was there.
pub decode_simple : PubKeyData → Reader PubKeyData
decode_simple pk = do
  es ← read_elements (uint32 ∷ pub_key ∷ pub_key ∷ [])
  pure (record pk { behavior = es.0; verification = es.1.0; encryption = es.1.1.0 })

pub decode : PubKeyData → Reader PubKeyData
decode pk = do
  simple ← decode_simple pk
  pd ← PowData.decode
  pure (record simple { pow = some pd })

pub record IsValid (pk : PubKeyData) : Type 0 where
  pub behavior_fits : pk.behavior < 256 ^ 4
  pub verification_sized : (length pk.verification ≡ 64) × All IsByte pk.verification
  pub encryption_sized : (length pk.encryption ≡ 64) × All IsByte pk.encryption
  pub pow_valid : PowData.IsValid (pow_or_default pk.pow)

unfoldable pub simple_text : PubKeyData → Bytes
simple_text pk =
    elements (uint32 ∷ pub_key ∷ pub_key ∷ []) (pk.behavior, (pk.verification, (pk.encryption, tt)))

pub Parses-simple :
    (pk start : PubKeyData)
    → IsValid pk
    → Parses (decode_simple start) (simple_text pk) (record pk { pow = start.pow })
unfolding decode_simple simple_text
Parses-simple pk start v =
    Parses-map _
      (Parses-elements (uint32 ∷ pub_key ∷ pub_key ∷ [])
        (pk.behavior, (pk.verification, (pk.encryption, tt)))
        (v.behavior_fits, (v.verification_sized, (v.encryption_sized, tt))))
      (λ r. refl)

pub Emits-simple : (pk : PubKeyData) → Emits (encode_simple pk) (simple_text pk)
unfolding encode_simple simple_text
Emits-simple pk = Emits-elements _ _

unfoldable pub text : PubKeyData → Bytes
text pk = simple_text pk ++ PowData.text (pow_or_default pk.pow)

pub Emits-encode : (pk : PubKeyData) → Emits (encode pk) (text pk)
unfolding encode text
Emits-encode pk = Emits-bind _ (Emits-simple pk) (PowData.Emits-encode (pow_or_default pk.pow))

pub Parses-decode :
    (pk start : PubKeyData)
    → IsValid pk
    → Parses (decode start) (text pk) (record pk { pow = some (pow_or_default pk.pow) })
unfolding decode text
Parses-decode pk start v =
    Parses-bind _ (Parses-simple pk start v)
      (Parses-map _ (PowData.Parses-decode (pow_or_default pk.pow) v.pow_valid) (λ r. refl))

-- Key data with its fields in range is written in the simple form, and read back from it with the
-- difficulty that the receiver had; in the full form it is written with its difficulty, the default
-- if it has none, and read back with that. Either is read whatever follows, and each proper prefix
-- gives the end of the input.
pub_key_data_round_trip :
    (pk start : PubKeyData)
    → IsValid pk
    → Emits (encode_simple pk) (simple_text pk)
      × Parses (decode_simple start) (simple_text pk) (record pk { pow = start.pow })
      × Emits (encode pk) (text pk)
      × Parses (decode start) (text pk) (record pk { pow = some (pow_or_default pk.pow) })
pub_key_data_round_trip pk start v =
    (Emits-simple pk, Parses-simple pk start v, Emits-encode pk, Parses-decode pk start v)
