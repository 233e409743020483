-- ===== src/Wire/Limits.antt =====
-- The constants of wire/message.go that the messages share.
use bmutil.Common.{ℕ}

abbrev pub message_header_size : ℕ
message_header_size = 24

abbrev pub command_size : ℕ
command_size = 12

abbrev pub max_message_payload : ℕ
max_message_payload = 1600100
