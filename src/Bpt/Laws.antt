-- ===== src/Bpt/Laws.antt =====
-- What the operations on single pages do to the entries and keys of the pages.
pub mod Leaf
pub mod SplitPoint
pub mod Separator
pub mod Search
pub mod Find
pub mod Located
pub mod Snapshot
pub mod Verify
pub mod Verified
pub mod Checked
pub mod Moves
pub mod Order
pub mod Visit
pub mod Mark
