-- ===== src/Wire.antt =====
-- The package wire: the messages of the peer to peer protocol and their encoding.
pub mod Element
pub mod ObjectHeader
pub mod PubKey
pub mod NetAddress
pub mod Limits
pub mod Loops
pub mod MsgVersion
pub mod MsgAddr
pub mod InvVect
pub mod MsgInv
pub mod MsgGetData
pub mod MsgObject
pub mod Empty
pub mod Utf8
pub mod Known
pub mod Message
pub mod Obj
