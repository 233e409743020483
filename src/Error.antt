-- ===== src/Error.antt =====
-- The errors that the modelled functions return: those of `io`, and the program's own. An error
-- of the program stands for the place that makes it; the formatted text is left out.
pub mod Results
use bmutil.Common.{ℕ, Bool, true, false}

pub data Error : Type 0 where
  eof unexpected_eof short_write : Error
  -- types.go: `ReadVarString` and `ReadVarBytes`
  var_string_too_long var_bytes_too_long : Error
  -- wire/message.go
  unhandled_command command_too_long payload_too_large payload_exceeds_max : Error
  other_network invalid_command checksum_failed : Error
  -- wire/msgaddr.go, wire/msginv.go, wire/msggetdata.go, wire/msgversion.go, wire/netaddress.go
  too_many_addresses too_many_invvect user_agent_too_long too_many_streams invalid_net_addr : Error
  -- wire/obj, with the panic of a nil pointer
  wrong_object_type wrong_object_version unsupported_version invalid_version : Error
  signature_too_long nil_pointer : Error
  -- address.go, with the panics of an index out of range and of `make` with a negative length
  checksum_mismatch unknown_address_type depricated_address_version invalid_stream : Error
  ripe_length_invalid ripe_has_null_bytes index_out_of_range negative_length : Error
  -- wif.go and format/encoding.go
  malformed_private_key message_too_long invalid_format unsupported_encoding : Error
  -- hash/sha.go and hash/ripe.go
  invalid_hash_length hash_str_size invalid_hex : Error
  -- wire/pubkey.go
  invalid_pub_key_length pub_key_str_size : Error
  -- btcec: `ErrInvalidMAC`, and any other error of a library, by a number
  invalid_mac : Error
  library_error : ℕ → Error
  -- identity
  few_initial_zeros signing_key_undecoded encryption_key_undecoded other_private_keys : Error
  not_private : Error
  -- cipher
  unsupported_op invalid_signature invalid_identity invalid_object_type no_destination : Error
  has_destination ripes_differ addresses_differ ack_too_long signing_failed encryption_failed :
      Error

-- wire/error.go: which errors are a `*MessageError`
pub is_message_error : Error → Bool
is_message_error unhandled_command = true
is_message_error command_too_long = true
is_message_error payload_too_large = true
is_message_error payload_exceeds_max = true
is_message_error other_network = true
is_message_error invalid_command = true
is_message_error checksum_failed = true
is_message_error too_many_addresses = true
is_message_error too_many_invvect = true
is_message_error user_agent_too_long = true
is_message_error wrong_object_type = true
is_message_error unsupported_version = true
is_message_error wrong_object_version = true
is_message_error signature_too_long = true
is_message_error message_too_long = true
is_message_error ack_too_long = true
is_message_error _ = false

-- What a function returns beside its `error`
pub data Result {ℓ} (A : Type ℓ) : Type ℓ where
  returned : A → Result A
  failed : Error → Result A
