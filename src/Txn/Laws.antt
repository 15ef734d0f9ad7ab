-- ===== src/Txn/Laws.antt =====
-- What `ed_txn_open`, `ed_txn_commit` and `ed_txn_close` do to the lists of pages.
pub mod Lists
pub mod Close
pub mod Open
