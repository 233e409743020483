-- ===== src/Wire/Obj/Dispatch.antt =====
-- wire/obj/object.go: `DecodeObject`, and the dispatch on versions of `DecodePubKey`.
pub mod Valid
pub mod RoundTrip
pub mod Fallback
pub mod Inventory
use bmutil.Common.{ℕ, none, some, Option, [], ◌==◌, if◌then◌else◌, Bytes}
use bmutil.Error.{wrong_object_type, invalid_version, Result}
use bmutil.Hash.{inventory_hash}
use bmutil.Wire.Obj.Payload.{payload_of}
use bmutil.Stream.{Outcome, ok, err, ◌>>=◌, pure, fail, Reader, Writer, read_all}
use bmutil.Wire.ObjectHeader.{
  ObjectHeader, decode_object_header, object_type_get_pub_key, object_type_pub_key, object_type_msg,
  object_type_broadcast,
}
use bmutil.Wire.MsgObject.{MsgObject, new_msg_object}
use bmutil.Wire.MsgObject
use bmutil.Wire.Obj.Versions.{
  simple_pub_key_version, extended_pub_key_version, encrypted_pub_key_version,
  tagless_broadcast_version, tagged_broadcast_version,
}
use bmutil.Wire.Obj.GetPubKey
use bmutil.Wire.Obj.GetPubKey.{GetPubKey}
use bmutil.Wire.Obj.SimplePubKey
use bmutil.Wire.Obj.SimplePubKey.{SimplePubKey}
use bmutil.Wire.Obj.ExtendedPubKey
use bmutil.Wire.Obj.ExtendedPubKey.{ExtendedPubKey}
use bmutil.Wire.Obj.EncryptedPubKey
use bmutil.Wire.Obj.EncryptedPubKey.{EncryptedPubKey}
use bmutil.Wire.Obj.Encrypted
use bmutil.Wire.Obj.Encrypted.{EncryptedMessage}
use bmutil.Wire.Obj.Broadcast
use bmutil.Wire.Obj.Broadcast.{TaglessBroadcast, TaggedBroadcast}

-- The dynamic types of the interface `Object`
pub data Object : Type 0 where
  get_pub_key : GetPubKey → Object
  simple : SimplePubKey → Object
  extended : ExtendedPubKey → Object
  encrypted_key : EncryptedPubKey → Object
  message : EncryptedMessage → Object
  tagged : TaggedBroadcast → Object
  tagless : TaglessBroadcast → Object
  other : MsgObject → Object

-- `decodePayload` of the key that the `switch` on the version makes, and the error of its default
pub read_pub_key : ObjectHeader → Option (Reader Object)
read_pub_key header =
    if header.version == simple_pub_key_version
    then some (do p ← SimplePubKey.decode_payload header; pure (simple p))
    else if header.version == extended_pub_key_version
    then some (do p ← ExtendedPubKey.decode_payload header; pure (extended p))
    else if header.version == encrypted_pub_key_version
    then some (do p ← EncryptedPubKey.decode_payload header; pure (encrypted_key p))
    else none

pub read_broadcast : ObjectHeader → Option (Reader Object)
read_broadcast header =
    if header.version == tagged_broadcast_version
    then some (do b ← Broadcast.tagged_decode_payload header; pure (tagged b))
    else if header.version == tagless_broadcast_version
    then some (do b ← Broadcast.tagless_decode_payload header; pure (tagless b))
    else none

-- `decodePayload` of the object that the `switch` on the type makes, if it makes one
pub decodable : ObjectHeader → Option (Reader Object)
unfolding read_pub_key read_broadcast
decodable header =
    if header.object_type == object_type_get_pub_key
    then some (do
      o ← GetPubKey.decode_payload (record { header = header; ripe_hash = none; tag = none })
      pure (get_pub_key o))
    else if header.object_type == object_type_pub_key
    then read_pub_key header
    else if header.object_type == object_type_msg
    then some (do
      o ← Encrypted.decode_payload (record { header = header; encrypted = [] })
      pure (message o))
    else if header.object_type == object_type_broadcast
    then read_broadcast header
    else none

-- The end of `DecodeObject`: an object of no special type, with what is left to read
pub generic : ObjectHeader → Reader Object
generic header = do payload ← read_all; pure (other (new_msg_object header payload))

-- `if err == nil { return obj, nil }`
pub recover : ObjectHeader → Outcome Bytes Object → Outcome Bytes Object
unfolding generic
recover header (ok obj rest) = ok obj rest
recover header (err e rest) = generic header rest

-- `if obj != nil { … }`, and the end
pub decode_payload : ObjectHeader → Option (Reader Object) → Reader Object
unfolding generic recover
decode_payload header none r = generic header r
decode_payload header (some p) r = recover header (p r)

pub decode_object : Reader Object
unfolding decodable decode_payload
decode_object = do header ← decode_object_header; decode_payload header (decodable header)

-- `DecodePubKey`. The key that it returns beside an error is left out.
pub decode_pub_key : Reader Object
unfolding read_pub_key
decode_pub_key = do
  header ← decode_object_header
  if header.object_type == object_type_pub_key
      then elim (read_pub_key header) [ some p ↦ p | none ↦ fail invalid_version ]
      else fail wrong_object_type

-- the `Encode` methods
pub encode : Object → Writer
encode (get_pub_key o) = GetPubKey.encode o
encode (simple o) = SimplePubKey.encode o
encode (extended o) = ExtendedPubKey.encode o
encode (encrypted_key o) = EncryptedPubKey.encode o
encode (message o) = Encrypted.encode o
encode (tagged o) = Broadcast.tagged_encode o
encode (tagless o) = Broadcast.tagless_encode o
encode (other o) = MsgObject.encode o

-- the `MsgObject` methods
pub msg_object : Object → MsgObject
msg_object (get_pub_key o) = GetPubKey.msg_object o
msg_object (simple o) = SimplePubKey.msg_object o
msg_object (extended o) = ExtendedPubKey.msg_object o
msg_object (encrypted_key o) = EncryptedPubKey.msg_object o
msg_object (message o) = Encrypted.msg_object o
msg_object (tagged o) = Broadcast.tagged_msg_object o
msg_object (tagless o) = Broadcast.tagless_msg_object o
msg_object (other o) = o

-- `InventoryHash`
unfoldable pub inventory_hash_of : (Bytes → Bytes) → Object → Result Bytes
inventory_hash_of sha512 obj = inventory_hash sha512 (payload_of (encode obj))
