-- ===== src/Wire/Obj/Dispatch/RoundTrip.antt =====
-- `DecodeObject` on the text of each kind of object, against the view of an object as a header and a
-- payload.
use bmutil.Common.{ℕ, ◌≡◌, refl, [], ◌==◌, true, false, append-nil, ==_iff}
use bmutil.Stream.{ok, read_all}
use bmutil.Stream.Emits.{Emits}
use bmutil.Stream.Parses.{Parses, Parses-end}
use bmutil.Wire.ObjectHeader.{
  ObjectHeader, object_type_get_pub_key, object_type_pub_key, object_type_msg,
  object_type_broadcast,
}
use bmutil.Wire.ObjectHeader
use bmutil.Wire.MsgObject
use bmutil.Wire.MsgObject.{MsgObject, new_msg_object}
use bmutil.Wire.Obj.Payload.{object_text, Emits-object, payload_of-Emits}
use bmutil.Wire.Obj.GetPubKey
use bmutil.Wire.Obj.SimplePubKey
use bmutil.Wire.Obj.ExtendedPubKey
use bmutil.Wire.Obj.EncryptedPubKey
use bmutil.Wire.Obj.Encrypted
use bmutil.Wire.Obj.Broadcast
use bmutil.Wire.Obj.Dispatch.{
  Object, get_pub_key, simple, extended, encrypted_key, message, tagged, tagless, other, decodable,
  decode_payload, decode_object, encode, msg_object, generic,
}
use bmutil.Wire.Obj.Dispatch.Valid.{header_of, IsValid, body, received}

-- The tests of the two switches, at a header of a type and a version
is : (n k : ℕ) → n ≡ k → (n == k) ≡ true
is n k e = (==_iff n k).1 e

isnt : (n k m : ℕ) → n ≡ k → (k == m) ≡ false → (n == m) ≡ false
isnt n k m e q = rw e q

generic-text : (o : MsgObject) → generic o.header o.payload ≡ ok (other o) []
unfolding generic new_msg_object read_all
generic-text o = refl

-- `decodePayload` reads the payload of each kind.
dispatched :
    (o : Object)
    → IsValid o
    → decode_payload (header_of o) (decodable (header_of o)) (body o) ≡ ok (received o) []
unfolding decode_payload decodable body received
dispatched (get_pub_key o) v =
    rw
      (
        is o.header.object_type 0 v.is_get_pub_key,
        Parses-end (GetPubKey.Payload.Parses-payload o v.is_request),
      )
      refl
dispatched (simple o) v =
    rw
      (
        isnt o.header.object_type 1 0 v.is_pub_key refl,
        is o.header.object_type 1 v.is_pub_key,
        is o.header.version 2 v.is_simple,
        Parses-end (SimplePubKey.Parses-payload o v),
      )
      refl
dispatched (extended o) v =
    rw
      (
        isnt o.header.object_type 1 0 v.is_pub_key refl,
        is o.header.object_type 1 v.is_pub_key,
        isnt o.header.version 3 2 v.is_extended refl,
        is o.header.version 3 v.is_extended,
        rw (append-nil (ExtendedPubKey.text o)) at (ExtendedPubKey.decode_payload-text o [] v),
      )
      refl
dispatched (encrypted_key o) v =
    rw
      (
        isnt o.header.object_type 1 0 v.is_pub_key refl,
        is o.header.object_type 1 v.is_pub_key,
        isnt o.header.version 4 2 v.is_encrypted refl,
        isnt o.header.version 4 3 v.is_encrypted refl,
        is o.header.version 4 v.is_encrypted,
        EncryptedPubKey.decode_payload-text o v,
      )
      refl
dispatched (message o) v =
    rw
      (
        isnt o.header.object_type 2 0 v.is_msg refl,
        isnt o.header.object_type 2 1 v.is_msg refl,
        is o.header.object_type 2 v.is_msg,
        Encrypted.decode_payload-text o,
      )
      refl
dispatched (tagged o) v =
    rw
      (
        isnt o.header.object_type 3 0 v.is_broadcast refl,
        isnt o.header.object_type 3 1 v.is_broadcast refl,
        isnt o.header.object_type 3 2 v.is_broadcast refl,
        is o.header.object_type 3 v.is_broadcast,
        is o.header.version 5 v.is_tagged,
        Broadcast.Codec.tagged_decode_payload-text o v.tag_bytes v.has_tag v.tag_sized,
      )
      refl
dispatched (tagless o) v =
    rw
      (
        isnt o.header.object_type 3 0 v.is_broadcast refl,
        isnt o.header.object_type 3 1 v.is_broadcast refl,
        isnt o.header.object_type 3 2 v.is_broadcast refl,
        is o.header.object_type 3 v.is_broadcast,
        isnt o.header.version 4 5 v.is_tagless refl,
        is o.header.version 4 v.is_tagless,
        Broadcast.Codec.tagless_decode_payload-text o,
      )
      refl
dispatched (other o) v = rw (v.unknown, generic-text o)

header-IsValid : (o : Object) → IsValid o → ObjectHeader.IsValid (header_of o)
header-IsValid (get_pub_key o) v = v.header_valid
header-IsValid (simple o) v = v.header_valid
header-IsValid (extended o) v = v.header_valid
header-IsValid (encrypted_key o) v = v.header_valid
header-IsValid (message o) v = v.header_valid
header-IsValid (tagged o) v = v.header_valid
header-IsValid (tagless o) v = v.header_valid
header-IsValid (other o) v = v.header_valid

Emits-encode : (o : Object) → IsValid o → Emits (encode o) (object_text (header_of o) (body o))
unfolding encode body GetPubKey.encode SimplePubKey.encode ExtendedPubKey.encode
    Broadcast.tagged_encode Broadcast.tagless_encode ObjectHeader.text MsgObject.text
Emits-encode (get_pub_key o) v =
    Emits-object o.header _ (GetPubKey.Payload.Emits-payload o v.is_request)
Emits-encode (simple o) v = Emits-object o.header _ (SimplePubKey.Emits-payload o)
Emits-encode (extended o) v = Emits-object o.header _ (ExtendedPubKey.Emits-payload o)
Emits-encode (encrypted_key o) v = (EncryptedPubKey.encrypted_lem o v).0
Emits-encode (message o) v = Encrypted.Emits-encode o
Emits-encode (tagged o) v = Emits-object o.header _ (Broadcast.Codec.Emits-tagged o v)
Emits-encode (tagless o) v = Emits-object o.header _ (Broadcast.Codec.Emits-tagless o)
Emits-encode (other o) v = MsgObject.Emits-encode o

-- The view of an object as a header and a payload has the text that `Encode` makes.
view-text :
    (o : Object) → IsValid o → msg_object o ≡ record { header = header_of o; payload = body o }
unfolding msg_object body GetPubKey.msg_object GetPubKey.payload SimplePubKey.msg_object
    ExtendedPubKey.msg_object EncryptedPubKey.msg_object Encrypted.msg_object
    Broadcast.tagged_msg_object Broadcast.tagless_msg_object
view-text (get_pub_key o) v =
    rw (payload_of-Emits _ (GetPubKey.Payload.Emits-payload o v.is_request))
view-text (simple o) v = rw (payload_of-Emits _ (SimplePubKey.Emits-payload o))
view-text (extended o) v = rw (payload_of-Emits _ (ExtendedPubKey.Emits-payload o))
view-text (encrypted_key o) v = rw (payload_of-Emits _ (EncryptedPubKey.Emits-payload o v))
view-text (message o) v = refl
view-text (tagged o) v = rw (payload_of-Emits _ (Broadcast.Codec.Emits-tagged o v))
view-text (tagless o) v = rw (payload_of-Emits _ (Broadcast.Codec.Emits-tagless o))
view-text (other o) v = refl

-- Each valid object is written as its header and its payload, and `DecodeObject` reads it back, as
-- the other side sees it. To a peer that knows only headers and payloads it is the object that its
-- `MsgObject` method makes: that is written as the same bytes, and `MsgObject.Decode` reads it.
pub object_refines :
    (o : Object)
    → IsValid o
    → Emits (encode o) (object_text (header_of o) (body o))
      × (decode_object (object_text (header_of o) (body o)) ≡ ok (received o) [])
      × Emits (MsgObject.encode (msg_object o)) (object_text (header_of o) (body o))
      × (MsgObject.decode (object_text (header_of o) (body o)) ≡ ok (msg_object o) [])
unfolding decode_object MsgObject.text
object_refines o v = (
  Emits-encode o v,
  rw (Parses.whole (ObjectHeader.Parses-decode (header_of o) (header-IsValid o v)) (body o))
      (dispatched o v),
  rw (view-text o v) (MsgObject.Emits-encode (record { header = header_of o; payload = body o })),
  rw (view-text o v) (
      MsgObject.decode-text (record { header = header_of o; payload = body o })
        (header-IsValid o v)),
)
