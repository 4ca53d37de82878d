-- ===== src/Nush.antt =====
-- The shell of chal1/challenge01, a module for each of its files.
pub mod Svec
pub mod Tokens
pub mod Astree
pub mod Implement
