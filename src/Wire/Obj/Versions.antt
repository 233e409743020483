-- ===== src/Wire/Obj/Versions.antt =====
-- The constants of wire/obj/pubkey.go, wire/obj/getpubkey.go and wire/obj/broadcast.go.
use bmutil.Common.{ℕ}

abbrev pub tag_get_pub_key_version : ℕ
tag_get_pub_key_version = 4

abbrev pub simple_pub_key_version : ℕ
simple_pub_key_version = 2

abbrev pub extended_pub_key_version : ℕ
extended_pub_key_version = 3

abbrev pub encrypted_pub_key_version : ℕ
encrypted_pub_key_version = 4

abbrev pub signature_max_length : ℕ
signature_max_length = 80

abbrev pub tagless_broadcast_version : ℕ
tagless_broadcast_version = 4

abbrev pub tagged_broadcast_version : ℕ
tagged_broadcast_version = 5
