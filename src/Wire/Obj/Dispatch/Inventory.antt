-- ===== src/Wire/Obj/Dispatch/Inventory.antt =====
-- `InventoryHash` of an object.
use bmutil.Common.{◌≡◌, Bytes, length, take}
use bmutil.Error.{returned}
use bmutil.Pow.Search.{double_sha512}
use bmutil.Hash.RoundTrip.{inventory_hash_lem}
use bmutil.Wire.MsgObject
use bmutil.Wire.Obj.Payload.{object_text, payload_of-Emits}
use bmutil.Wire.Obj.Dispatch.{Object, msg_object, encode, other, inventory_hash_of}
use bmutil.Wire.Obj.Dispatch.RoundTrip.{object_refines}
use bmutil.Wire.Obj.Dispatch.Valid.{IsValid, header_of, body}

-- The inventory hash of a valid object is the first half of the double hash of its header and
-- payload, if SHA-512 gives 64 bytes, and so is that of the object that its `MsgObject` method
-- makes.
inventory_hash-msg_object :
    (sha512 : Bytes → Bytes)
    → ((b : Bytes) → length (sha512 b) ≡ 64)
    → (o : Object) → IsValid o
    → (inventory_hash_of sha512 o
        ≡ returned (take 32 (double_sha512 sha512 (object_text (header_of o) (body o)))))
      × (inventory_hash_of sha512 (other (msg_object o)) ≡ inventory_hash_of sha512 o)
unfolding inventory_hash_of encode
inventory_hash-msg_object sha512 sized o v =
    let all = object_refines o v in
    let bytes = payload_of-Emits (encode o) all.0 in
    let view = payload_of-Emits (MsgObject.encode (msg_object o)) all.2 in
    (rw bytes (inventory_hash_lem sha512 sized _), rw (bytes, view))
