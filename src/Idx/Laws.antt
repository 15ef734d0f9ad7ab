-- ===== src/Idx/Laws.antt =====
-- What lib/idx.c keeps true of the header and its connections.
pub mod Xmin
pub mod Open
pub mod Repair
pub mod Snapshot
pub mod Reuse
pub mod Slots
