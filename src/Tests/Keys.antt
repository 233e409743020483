-- ===== src/Tests/Keys.antt =====
-- The package identity, over a library of two keys.
use bmutil.Common.{
  ◌≡◌, ◌≢◌, refl, [], ◌∷◌, Bytes, some, true, false, arith, inl, length, All, copy_zeroed, List,
  codes, ◌+◌, ◌^◌, equal,
}
use bmutil.Error.{returned}
use bmutil.Binary.{put_be}
use bmutil.Stream.{ok}
use bmutil.Stream.Run.{text_by}
use bmutil.Stream.Emits.{Emits}
use bmutil.Stream.Parses.{Parses}
use bmutil.Pow.Data as PowData
use bmutil.Wire.Obj.PubKeyData.{pow_or_default}
use bmutil.Address.{address_v4, new_address, trim_left}
use bmutil.Hash.{new_hash}
use bmutil.Identity.{hash}
use bmutil.Identity.PublicAddress.{full_address, new_public_address}
use bmutil.Identity.PublicId.{PublicId, new_public, new_public_id, raised, encode, decode}
use bmutil.Identity.PublicId as PublicId
use bmutil.Identity.PublicId.RoundTrip.{IsValid, text}
use bmutil.Identity.PublicId.Stable.{public_round_trip}
use bmutil.Identity.PublicId.Lowered.{low_difficulty_changes}
use bmutil.Float.{float64, max_uint64}
use bmutil.Identity.PrivateKey.{
  PrivateKey, public, found_hash, derived, new_deterministic, new_random,
}
use bmutil.Identity.PrivateKey.Search.{AreOfRounds, HasZeros, new_deterministic_lem}
use bmutil.Identity.PrivateKey.Random.{new_random_lem}
use bmutil.Identity.PrivateAddress.{PrivateAddress, public_address, export, import_wif}
use bmutil.Identity.PrivateAddress as PrivateAddress
use bmutil.Identity.PrivateAddress.Import.{import_wif-export}
use bmutil.Tests.Library.{two_keys, two_keys-IsLawful}

abbrev pub pair : PrivateKey two_keys
pair = record { signing = true; decryption = false }

-- The ripe of every pair of keys: only the length of what is hashed goes into it.
abbrev pub its_ripe : Bytes
its_ripe = 0 ∷ copy_zeroed 19 (7 ∷ put_be 8 64)

abbrev pub private_address : PrivateAddress two_keys
private_address = record { private_key = pair; version = 4; stream = 1 }

pub has_address : PrivateAddress.address two_keys private_address ≡ some (address_v4 1 its_ripe)
unfolding PrivateAddress.address full_address new_address hash new_hash copy_zeroed put_be
has_address = refl

import_wif-export_example :
    (texts : Bytes × (Bytes × Bytes)) × (export two_keys private_address ≡ returned texts)
    × (import_wif two_keys texts.0 texts.1.0 texts.1.1 ≡ returned private_address)
unfolding trim_left copy_zeroed put_be
import_wif-export_example =
    import_wif-export two_keys two_keys-IsLawful private_address (address_v4 1 its_ripe) has_address
      (omega arith) (omega arith, omega arith)

abbrev hard : PowData.Data
hard = record { nonce_trials_per_byte = 2000; extra_bytes = 3000 }

abbrev made : PublicId two_keys
made = record {
  public_address = record { public_key = public two_keys pair; version = 4; stream = 1 };
  behavior = 1;
  pow = some hard;
}

new_made : new_public two_keys 0 (public two_keys pair) 4 1 1 (some hard) ≡ returned made
unfolding new_public new_public_address new_address new_public_id max_uint64
new_made = refl

public_round_trip_example :
    Emits (encode two_keys made) (text two_keys made)
    × Parses (decode two_keys 0) (text two_keys made) made
public_round_trip_example =
    public_round_trip two_keys two_keys-IsLawful 0 (public two_keys pair) 4 1 1 (some hard) made
      new_made (omega arith) (omega arith) (omega arith, omega arith)

-- A number of 54 bits is rounded to an even one.
rounded : float64 (2 ^ 53 + 1) ≡ 2 ^ 53
unfolding float64
rounded = refl

abbrev easy : PublicId two_keys
easy = record made { pow = some (record { nonce_trials_per_byte = 320; extra_bytes = 14000 }) }

easy-IsValid : IsValid two_keys easy
unfolding PublicId.address PrivateAddress.address pow_or_default
easy-IsValid = record {
  its_address = address_v4 1 its_ripe;
  has_address = has_address;
  stream_fits = omega arith;
  behavior_fits = omega arith;
  pow_valid = record { trials_fit = omega arith; extra_fit = omega arith };
}

low_difficulty_changes_example :
    (sent : Bytes) × (back : PublicId two_keys) × (again : Bytes) × (text_by (encode two_keys easy)
      ≡ returned sent)
    × (decode two_keys 0 sent ≡ ok back [])
    × (text_by (encode two_keys back) ≡ returned again)
    × (again ≢ sent)
unfolding pow_or_default
low_difficulty_changes_example =
    low_difficulty_changes two_keys two_keys-IsLawful 0 easy easy-IsValid (omega arith)
      (omega arith) (omega arith)

all_found : (k : PrivateKey two_keys) → found_hash two_keys 1 k ≡ true
unfolding found_hash equal hash new_hash copy_zeroed put_be
all_found k = refl

new_deterministic_lem_example :
    (pks : List (PrivateKey two_keys)) × (new_deterministic two_keys 1 (codes "secret") 1 3
      ≡ some (returned pks))
    × (length pks ≡ 3)
    × All (HasZeros two_keys two_keys-IsLawful 1) pks
    × AreOfRounds two_keys two_keys-IsLawful (codes "secret") 0 pks
new_deterministic_lem_example =
    new_deterministic_lem two_keys two_keys-IsLawful 1 (codes "secret") 1 3 (omega arith)
      (omega arith) (λ s d. inl (all_found (derived two_keys (codes "secret") s d)))

new_random_lem_example :
    (pk : PrivateKey two_keys) × (new_random two_keys (λ i. returned true) 1 1 ≡ some (returned pk))
    × (pk.signing ≡ true)
    × HasZeros two_keys two_keys-IsLawful 1 pk
new_random_lem_example =
    new_random_lem two_keys two_keys-IsLawful (λ i. returned true) 1 (omega arith) true 1
      (omega arith) refl
      (true, refl, inl (all_found (record { signing = true; decryption = true })))
