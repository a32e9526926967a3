-- ===== src/KeyStore.antt =====
-- src/gpg.c, but for `gpg_store_verify`, which stands in Crypto.antt.
pub mod Library
pub mod Cipher
pub mod File
pub mod Text
pub mod Sign
pub mod Sound
pub mod Accepted
pub mod Padding
pub mod Stored
pub mod Sealed
pub mod KeyFile
pub mod RoundTrip
pub mod Missing
pub mod Ledgers
pub mod Create
pub mod Check
pub mod Load
