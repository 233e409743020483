-- ===== src/Wire/Obj.antt =====
-- The package wire/obj: the payloads of objects. `Decode` fills a message that its caller made; it
-- is an argument here, since a field that `Decode` does not set keeps its value.
pub mod Versions
pub mod Payload
pub mod SimplePubKey
pub mod ExtendedPubKey
pub mod EncryptedPubKey
pub mod Broadcast
pub mod PubKeyData
pub mod GetPubKey
pub mod Encrypted
pub mod Dispatch
