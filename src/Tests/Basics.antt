-- ===== src/Tests/Basics.antt =====
-- types.go, wire/common.go, wire/netaddress.go, wire/objectheader.go and pow/data.go
use bmutil.Types.{
  read_var_int, by_discriminant, first_byte, write_var_int, var_int_serialize_size,
  max_var_int_size,
}
use bmutil.Types.VarInt.{var_int, var_int_round_trip}
use bmutil.Wire.ObjectHeader.{ObjectHeader}
use bmutil.Common.{◌≡◌, refl, [], ◌∷◌, arith, length, ◌≤◌}
use bmutil.Stream.{ok, read_full}
use bmutil.Stream.Emits.{Emits}
use bmutil.Stream.Parses.{Parses}
use bmutil.Binary.{read_be, be_value}

-- `ReadVarInt` accepts longer forms than `WriteVarInt` makes.
long_form : read_var_int (0xfd ∷ 0 ∷ 5 ∷ []) ≡ ok 5 []
unfolding read_var_int by_discriminant first_byte read_full read_be be_value
long_form = refl

var_int_round_trip_example :
    Emits (write_var_int 0x10000) (var_int 0x10000)
    × Parses read_var_int (var_int 0x10000) 0x10000
    × (length (var_int 0x10000) ≡ var_int_serialize_size 0x10000)
    × (var_int_serialize_size 0x10000 ≤ max_var_int_size)
var_int_round_trip_example = var_int_round_trip 0x10000 (omega arith)

abbrev msg_header : ObjectHeader
msg_header = record {
  nonce = 9;
  expiration = 1400000000;
  object_type = 2;
  version = 1;
  stream_number = 1;
}
