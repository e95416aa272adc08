-- ===== src/Server.antt =====
-- lib/server: the servers of the schemes.
pub mod Predicate
