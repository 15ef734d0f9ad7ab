-- ===== src/Cache/Laws.antt =====
-- What lib/cache.c keeps true of objects in the slab.
pub mod Layout
pub mod Get
pub mod Expiry
pub mod Reserve
pub mod Write
