-- ===== src/Lang.antt =====
-- The service language: its syntax tree and its parser (crates/lang).
pub mod Ast
pub mod Errors
pub mod Tokens
pub mod Actions
pub mod Modules
