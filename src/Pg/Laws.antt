-- ===== src/Pg/Laws.antt =====
-- What the operations on gc pages do to the freed pages.
pub mod Fill
pub mod Push
pub mod Next
pub mod Move
pub mod Round
pub mod Freed
pub mod Fills
pub mod Free
pub mod Mark
pub mod Take
pub mod Collect
pub mod Alloc
