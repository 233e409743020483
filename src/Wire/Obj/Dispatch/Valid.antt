-- ===== src/Wire/Obj/Dispatch/Valid.antt =====
-- The objects that `DecodeObject` reads back: their headers, their payloads, and what the other
-- side sees of them.
use bmutil.Common.{◌≡◌, none, Bytes}
use bmutil.Wire.ObjectHeader.{
  ObjectHeader, object_type_get_pub_key, object_type_pub_key, object_type_msg,
  object_type_broadcast,
}
use bmutil.Wire.ObjectHeader
use bmutil.Wire.MsgObject.{MsgObject}
use bmutil.Wire.Obj.GetPubKey
use bmutil.Wire.Obj.PubKeyData
use bmutil.Wire.Obj.SimplePubKey
use bmutil.Wire.Obj.ExtendedPubKey
use bmutil.Wire.Obj.EncryptedPubKey
use bmutil.Wire.Obj.Encrypted
use bmutil.Wire.Obj.Broadcast
use bmutil.Wire.Obj.Dispatch.{
  Object, get_pub_key, simple, extended, encrypted_key, message, tagged, tagless, other, decodable,
}

abbrev pub header_of : Object → ObjectHeader
header_of (get_pub_key o) = o.header
header_of (simple o) = o.header
header_of (extended o) = o.header
header_of (encrypted_key o) = o.header
header_of (message o) = o.header
header_of (tagged o) = o.header
header_of (tagless o) = o.header
header_of (other o) = o.header

-- A request for a public key
pub record IsGetPubKey (o : GetPubKey.GetPubKey) : Type 0 where
  pub header_valid : ObjectHeader.IsValid o.header
  pub is_get_pub_key : o.header.object_type ≡ object_type_get_pub_key
  pub is_request : GetPubKey.Payload.IsRequest o

pub record IsMessage (o : Encrypted.EncryptedMessage) : Type 0 where
  pub header_valid : ObjectHeader.IsValid o.header
  pub is_msg : o.header.object_type ≡ object_type_msg

-- An object of no type and version that `DecodeObject` knows
pub record IsOther (o : MsgObject) : Type 0 where
  pub header_valid : ObjectHeader.IsValid o.header
  pub unknown : decodable o.header ≡ none

abbrev pub IsValid : Object → Type 0
IsValid (get_pub_key o) = IsGetPubKey o
IsValid (simple o) = SimplePubKey.IsValid o
IsValid (extended o) = ExtendedPubKey.IsValid o
IsValid (encrypted_key o) = EncryptedPubKey.IsValid o
IsValid (message o) = IsMessage o
IsValid (tagged o) = Broadcast.Codec.IsTagged o
IsValid (tagless o) = Broadcast.Codec.IsTagless o
IsValid (other o) = IsOther o

-- The payload of an object
unfoldable pub body : Object → Bytes
body (get_pub_key o) = GetPubKey.Payload.text o
body (simple o) = PubKeyData.simple_text o.key_data
body (extended o) = ExtendedPubKey.text o
body (encrypted_key o) = EncryptedPubKey.text o
body (message o) = o.encrypted
body (tagged o) = Broadcast.Codec.tagged_text o
body (tagless o) = o.encrypted
body (other o) = o.payload

-- What the other side sees of an object
unfoldable pub received : Object → Object
received (get_pub_key o) = get_pub_key (GetPubKey.Payload.received o)
received (simple o) = simple (SimplePubKey.received o)
received (extended o) = extended (ExtendedPubKey.received o)
received (encrypted_key o) = encrypted_key o
received (message o) = message o
received (tagged o) = tagged o
received (tagless o) = tagless o
received (other o) = other o
