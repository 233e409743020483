-- ===== src/Cipher.antt =====
-- The package cipher: the objects that are signed and encrypted, and what is inside them.
pub mod Data
pub mod Signing
pub mod Bitmessage
pub mod Message
pub mod Broadcast
pub mod PubKey
