-- ===== src/Client.antt =====
-- lib/client: the clients of the schemes.
pub mod Predicate
pub mod Wire
