-- ===== src/Ledger.antt =====
-- src/ledger.c and src/ledger.h: a ledger between two parties, its items and their signatures.
pub mod Asn1
pub mod Types
pub mod Items
pub mod Serialize
pub mod Keys
pub mod Verify
pub mod Monad
pub mod Parse
pub mod Sign
pub mod Outcome
pub mod Balances
pub mod Accepted
pub mod VerifyChain
pub mod SignVerify
pub mod Resolve
pub mod Store
pub mod Stored
