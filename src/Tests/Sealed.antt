-- ===== src/Tests/Sealed.antt =====
-- cipher/message.go, over a library of two keys.
use bmutil.Common.{◌≡◌, refl, [], ◌∷◌, Bytes, some, arith, take}
use bmutil.Error.{returned}
use bmutil.Address.{address_v4}
use bmutil.Wire.ObjectHeader.{object_type_msg, new_object_header}
use bmutil.Wire.Obj.Encrypted.{EncryptedMessage, new_message}
use bmutil.Identity.PublicId.{PublicId}
use bmutil.Identity.PublicId as PublicId
use bmutil.Identity.PrivateKey.{public}
use bmutil.Identity.PrivateAddress.{public_address}
use bmutil.Identity.PrivateId.{public_id}
use bmutil.Cipher.Bitmessage.{received}
use bmutil.Cipher.Message.{Message}
use bmutil.Cipher.Message.Codec.{signing_text, encryption_text, Emits-signing, Emits-encryption}
use bmutil.Cipher.Message.Check.{
  sign_and_encrypt_message, try_decrypt_and_verify_message, sign_and_encrypt,
}
use bmutil.Cipher.Message.Accepted.{message_accepted}
use bmutil.Cipher.Message.Checked.{IsAuthentic, message_checked}
use bmutil.Tests.Library.{two_keys, two_keys-IsLawful}
use bmutil.Tests.Keys.{private_address, its_ripe}
use bmutil.Cipher.Signing.{sign_text, encrypt_text}
use bmutil.Stream.Run.{text_by-Emits}
use bmutil.Tests.Someone.{someone, someones_own, letter, letter-IsValid}

abbrev unsigned : Message two_keys
unsigned = record {
  msg = new_message 0 1500000000 1 [];
  bm = letter (some its_ripe);
  ack = 1 ∷ 2 ∷ [];
  sig = [];
}

abbrev signature : Bytes
signature = 1 ∷ take 32 (two_keys.sha256 (signing_text two_keys unsigned its_ripe))

abbrev sent : Message two_keys
sent = record unsigned {
  msg =
      new_message 0 1500000000 1
        (2 ∷ encryption_text two_keys (record unsigned { sig = signature }) its_ripe);
  sig = signature;
}

sent_made :
    sign_and_encrypt_message two_keys [] 1500000000 1
      (letter (some its_ripe))
      (1 ∷ 2 ∷ [])
      private_address.private_key
      (public two_keys private_address.private_key)
    ≡ returned sent
unfolding sign_and_encrypt_message sign_and_encrypt sign_text encrypt_text public
sent_made =
    let valid = letter-IsValid (some its_ripe) in
    let signing = text_by-Emits _ (Emits-signing two_keys unsigned its_ripe valid refl) in
    let plain =
      text_by-Emits _
        (Emits-encryption two_keys (record unsigned { sig = signature }) its_ripe valid refl) in
    rw (signing, plain) refl

abbrev blank : EncryptedMessage
blank = new_message 0 0 0 []

message_accepted_example :
    try_decrypt_and_verify_message two_keys 0 blank sent.msg someone
    ≡ returned (record sent { bm = received two_keys 0 sent.bm })
unfolding PublicId.key public_id public_address public
message_accepted_example =
    message_accepted two_keys two_keys-IsLawful 0 [] 1500000000 1 (letter (some its_ripe))
      (1 ∷ 2 ∷ []) blank private_address.private_key someone (address_v4 1 its_ripe) sent
      (omega arith) (omega arith) (letter-IsValid (some its_ripe)) refl someones_own refl
      (omega arith) sent_made

abbrev back : Message two_keys
back = record sent { bm = received two_keys 0 sent.bm }

message_checked_example :
    (back.msg ≡ sent.msg)
    × (back.msg.header.object_type ≡ object_type_msg)
    × (back.msg.header.version ≡ 1)
    × IsAuthentic two_keys someone back
unfolding new_message new_object_header
message_checked_example =
    message_checked two_keys 0 blank sent.msg someone back
      (record {
        nonce_fits = omega arith;
        expiration_fits = omega arith;
        object_type_fits = omega arith;
        version_fits = omega arith;
        stream_fits = omega arith;
      })
      message_accepted_example
