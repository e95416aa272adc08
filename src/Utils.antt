-- ===== src/Utils.antt =====
-- lib/utils: what the schemes compute with.
pub mod Encoding
