-- ===== src/Database.antt =====
-- lib/database: the databases of the schemes.
pub mod Keys
pub mod Bytes
pub mod Padding
pub mod Fields
pub mod Size
pub mod Merkle
pub mod Pgp
