-- ===== src/Tests/Objects.antt =====
-- wire/obj
use bmutil.Common.{refl, arith, replicate, some, none, ℕ}
use bmutil.Wire.ObjectHeader.{ObjectHeader}
use bmutil.Wire.ObjectHeader as Header
use bmutil.Wire.Obj.PubKeyData as KeyData
use bmutil.Wire.Obj.PubKeyData.{PubKeyData}
use bmutil.Wire.Obj.GetPubKey.{GetPubKey}
use bmutil.Tests.Inputs.{sha}
use bmutil.Types.{IsU64}

abbrev pub key_data : PubKeyData
key_data = record {
  behavior = 1;
  verification = replicate 64 5;
  encryption = replicate 64 6;
  pow = none;
}

pub key_data-IsValid : KeyData.IsValid key_data
unfolding KeyData.pow_or_default
key_data-IsValid = record {
  behavior_fits = omega arith;
  verification_sized = (refl, ground arith);
  encryption_sized = (refl, ground arith);
  pow_valid = record { trials_fit = omega arith; extra_fit = omega arith };
}

abbrev pub request_header : ℕ → ObjectHeader
request_header v = record {
  nonce = 9;
  expiration = 1400000000;
  object_type = 0;
  version = v;
  stream_number = 1;
}

pub request_header-IsValid : (v : ℕ) → IsU64 v → Header.IsValid (request_header v)
request_header-IsValid v h = record {
  nonce_fits = omega arith;
  expiration_fits = omega arith;
  object_type_fits = omega arith;
  version_fits = h;
  stream_fits = omega arith;
}

abbrev pub by_tag : GetPubKey
by_tag = record { header = request_header 4; ripe_hash = none; tag = some sha }
