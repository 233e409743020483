-- ===== src/Tests/Broadcasts.antt =====
-- cipher/broadcast.go, over a library of two keys.
use bmutil.Common.{◌≡◌, refl, [], ◌∷◌, Bytes, none, some, take}
use bmutil.Error.{returned}
use bmutil.Wire.Obj.Broadcast as Obj
use bmutil.Wire.Obj.Broadcast.{tagless, tagged}
use bmutil.Identity.PublicId.{PublicId}
use bmutil.Identity.PublicId as PublicId
use bmutil.Identity.PrivateKey.{public}
use bmutil.Identity.PrivateAddress.{public_address}
use bmutil.Identity.PrivateId.{public_id}
use bmutil.Cipher.Bitmessage.{Bitmessage, received}
use bmutil.Cipher.Bitmessage as Bitmessage
use bmutil.Cipher.Broadcast.{
  Broadcast, complete, incomplete_tagged, Incomplete, v5_key, encrypt_incomplete, broadcast_key,
}
use bmutil.Cipher.Broadcast.Codec as BroadcastText
use bmutil.Cipher.Broadcast.Check.{
  sign_and_encrypt_broadcast, try_decrypt_and_verify_broadcast, create_by_version,
  create_tagged_broadcast,
}
use bmutil.Cipher.Broadcast.Accepted.{broadcast_accepted}
use bmutil.Cipher.Broadcast.Checked as BroadcastChecked
use bmutil.Cipher.Broadcast.Check as BroadcastCheck
use bmutil.Cipher.Broadcast.Checked.{broadcast_checked}
use bmutil.Tests.Library.{two_keys, two_keys-IsLawful, mark}
use bmutil.Cipher.Signing.{sign_text, encrypt_text}
use bmutil.Stream.Run.{text_by-Emits}
use bmutil.Tests.Someone.{
  someone, someones_own, senders_own, letter, letter-IsValid, where_from, tag,
}

abbrev incomplete : Incomplete
incomplete = incomplete_tagged 1500000000 1 (some tag)

abbrev news : Bitmessage two_keys
news = letter none

news-IsValid : Bitmessage.IsValid two_keys news
news-IsValid = letter-IsValid none

abbrev news_signature : Bytes
news_signature =
    1 ∷ take 32 (two_keys.sha256 (BroadcastText.signing_text two_keys news news-IsValid incomplete))

abbrev news_object : Obj.Broadcast
news_object = complete incomplete (
    mark (v5_key two_keys where_from)
    ∷ BroadcastText.encryption_text two_keys news news-IsValid news_signature)

abbrev news_sent : Broadcast two_keys
news_sent = record { msg = some news_object; bm = news; sig = news_signature }

news_made :
    sign_and_encrypt_broadcast two_keys [] 1500000000 news (some tag) someone ≡ returned news_sent
unfolding sign_and_encrypt_broadcast create_by_version create_tagged_broadcast
    BroadcastCheck.sign_and_encrypt sign_text encrypt_incomplete encrypt_text broadcast_key
news_made =
    let signing =
      text_by-Emits _ (BroadcastText.Emits-signing two_keys news news-IsValid incomplete tt) in
    let plain = text_by-Emits _ (
      BroadcastText.Emits-encryption two_keys news news-IsValid
        (record { msg = none; bm = news; sig = news_signature }) refl) in
    rw (senders_own, someones_own, signing, plain) refl

broadcast_accepted_example :
    (msg : Obj.Broadcast) × (news_sent.msg ≡ some msg)
    × (try_decrypt_and_verify_broadcast two_keys 0 msg where_from
        ≡ returned (record news_sent { bm = received two_keys 0 news_sent.bm }))
unfolding PublicId.key public_id public_address public
broadcast_accepted_example =
    broadcast_accepted two_keys two_keys-IsLawful 0 [] news news-IsValid where_from senders_own
      someone 1500000000 news_sent refl refl someones_own (some tag) refl news_made

abbrev IsAccepted : Obj.Broadcast → Type 0
IsAccepted msg =
    try_decrypt_and_verify_broadcast two_keys 0 msg where_from
    ≡ returned (record news_sent { bm = received two_keys 0 news })

moved : (x y : Obj.Broadcast) → some x ≡ some y → IsAccepted y → IsAccepted x
moved x y e h = let same : y ≡ x = cc in rw same at h

news_object-IsAccepted : IsAccepted news_object
news_object-IsAccepted =
    moved news_object broadcast_accepted_example.0 broadcast_accepted_example.1
      broadcast_accepted_example.2

broadcast_checked_example :
    BroadcastChecked.IsTagged two_keys where_from news_object
    × (news_sent.msg ≡ some news_object)
    × BroadcastChecked.IsAuthentic two_keys where_from
        (record news_sent { bm = received two_keys 0 news })
broadcast_checked_example =
    broadcast_checked two_keys where_from 0 news_object
      (record news_sent { bm = received two_keys 0 news }) news_object-IsAccepted
