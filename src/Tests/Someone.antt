-- ===== src/Tests/Someone.antt =====
-- An identity over a library of two keys, and what it has to say.
use bmutil.Common.{◌≡◌, Bytes, Option, none, some, arith, codes}
use bmutil.Address.{Address, address_v4}
use bmutil.Address
use bmutil.Format.{encoding1, message}
use bmutil.Identity.PublicId.{PublicId}
use bmutil.Identity.PublicId as PublicId
use bmutil.Identity.PublicId.RoundTrip as PublicText
use bmutil.Identity.PrivateAddress.{public_address, address}
use bmutil.Identity.PrivateId.{PrivateId, public_id}
use bmutil.Identity.PrivateId as PrivateId
use bmutil.Cipher.Bitmessage.{Bitmessage, received}
use bmutil.Cipher.Bitmessage as Bitmessage
use bmutil.Tests.Library.{two_keys}
use bmutil.Tests.Keys.{private_address, its_ripe, has_address}
use bmutil.Wire.Obj.PubKeyData.{pow_or_default}
use bmutil.Identity.PublicAddress.{full_address}

-- Sender and recipient at once
abbrev pub someone : PrivateId two_keys
someone = record { private_address = private_address; behavior = 1; pow = none }

pub someones_own : PrivateId.address two_keys someone ≡ some (address_v4 1 its_ripe)
unfolding PrivateId.address
someones_own = has_address

pub senders_own :
    PublicId.address two_keys (public_id two_keys someone) ≡ some (address_v4 1 its_ripe)
unfolding PublicId.address public_id full_address address
senders_own = has_address

abbrev pub letter : Option Bytes → Bitmessage two_keys
letter destination = record {
  public = public_id two_keys someone;
  destination = destination;
  content = encoding1 (codes "hello");
}

pub someone-IsValid : PublicText.IsValid two_keys (public_id two_keys someone)
unfolding public_id public_address pow_or_default
someone-IsValid = record {
  its_address = address_v4 1 its_ripe;
  has_address = senders_own;
  stream_fits = omega arith;
  behavior_fits = omega arith;
  pow_valid = record { trials_fit = omega arith; extra_fit = omega arith };
}

pub letter-IsValid : (destination : Option Bytes) → Bitmessage.IsValid two_keys (letter destination)
unfolding public_id pow_or_default message
letter-IsValid destination = record {
  public_valid = someone-IsValid;
  public_raised = record {
    trials_ge = omega arith;
    trials_lt = omega arith;
    extra_ge = omega arith;
    extra_lt = omega arith;
  };
  one_line = tt;
  content_short = omega arith;
}

abbrev pub where_from : Address
where_from = address_v4 1 its_ripe

abbrev pub tag : Bytes
tag = Address.tag two_keys.sha512 where_from
