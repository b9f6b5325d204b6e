-- ===== src/Native.antt =====
-- engine/nativestore.go: the age-encrypted file store.
pub mod Key
pub mod Closed
pub mod Crypto
pub mod Store
pub mod Init
pub mod Items
pub mod Roundtrip
pub mod Isolation
pub mod Kept
pub mod Toy
pub mod Unlock
mod Examples
pub mod Fresh
pub mod Locked
pub mod Identity
pub mod Session
pub mod Unprompted
