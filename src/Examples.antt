-- ===== src/Examples.antt =====
-- Concrete surroundings and data, and the theorems of the other modules at them.
pub mod Surroundings
pub mod Ledgers
pub mod Verifying
pub mod Parsing
pub mod Menus
pub mod Sending
pub mod Keyring
pub mod Keys
pub mod Listing
pub mod Resolving
pub mod Storing
pub mod Compiling
pub mod Exchanging
pub mod Confirming
pub mod Naming
pub mod Loading
