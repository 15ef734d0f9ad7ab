-- ===== src/Bpt/Cow.antt =====
-- Copy on write: what a step of a transaction leaves alone.
pub mod Keeps
pub mod Steps
pub mod Parent
pub mod Insert
pub mod Edit
