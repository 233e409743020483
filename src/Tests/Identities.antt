-- ===== src/Tests/Identities.antt =====
-- cipher/bitmessage.go, with the 64 bytes of a key in place of the key.
use bmutil.Common.{Bytes, none, replicate, arith, ℕ}
use bmutil.Stream.Emits.{Emits}
use bmutil.Stream.Parses.{Parses}
use bmutil.Wire.Obj.PubKeyData as PubKeyData
use bmutil.Cipher.Data.{Data, pub_key_data, encode, decode, text, data_decode_drops}
use bmutil.Tests.Objects.{key_data-IsValid}
use bmutil.Tests.Addresses.{itself}

abbrev sent : ℕ → Data Bytes
sent version = record {
  verification = replicate 64 5;
  encryption = replicate 64 6;
  version = version;
  stream = 1;
  behavior = 1;
  pow = none;
}

abbrev start : Data Bytes
start = record {
  verification = replicate 64 0;
  encryption = replicate 64 0;
  version = 0;
  stream = 0;
  behavior = 0;
  pow = none;
}

sent-IsValid : (version : ℕ) → PubKeyData.IsValid (pub_key_data itself (sent version))
unfolding pub_key_data
sent-IsValid version = key_data-IsValid

data_decode_drops_example :
    Emits (encode itself (sent 4)) (text itself (sent 4))
    × Parses (decode start) (text itself (sent 4)) (record start { version = 4; stream = 1 })
data_decode_drops_example =
    data_decode_drops itself (sent 4) start (omega arith) (omega arith) (sent-IsValid 4)
      (omega arith)
