-- ===== src/Lib.antt =====
-- Eddy: a cache index in one mapped file (lib/) and its command-line tools (bin/).
--
-- An index file holds b+trees of entries with 64-bit keys. A transaction reads a tree through
-- mapped pages and changes it by copy on write: a page that an earlier transaction has written is
-- cloned, the changed nodes are linked up to the root, and the pages replaced are discarded for
-- the page allocator. Readers of an earlier snapshot keep the old pages.
--
-- Bpt: lib/bpt.c over the pages `struct EdBpt` (lib/eddy-private.h). A page is a record whose data
-- segment is a function from the slot; the segment of a leaf and that of a branch are separate
-- fields. Page size and entry size are parameters, as in the code's macros.
--   Bpt/Leaf: the memmove's of a leaf, split_point and its scans.
--   Bpt/Txn: what lib/txn.c gives a tree: ed_txn_alloc, ed_txn_clone, ed_txn_discard, with errors as
--     values. What a step changed before it failed stays changed, as in the code.
--   Bpt/Parent: set_node and insert_into_parent, by recursion on the list of parents.
--   Bpt/Insert: set_leaf, split_leaf, insert_into_leaf. Bpt/Edit: ed_bpt_set and ed_bpt_del.
--   Bpt/Find: ed_bpt_find. Bpt/Tree: what a tree over pages is.
--   Bpt/Verify: ed_bpt_verify. Bpt/Mark: ed_bpt_mark.
--   Bpt/Move, Bpt/Step: the moves of a cursor, ed_bpt_first, _last, _next and _prev. Bpt/Order: the
--     order of a tree's entries, by which the moves are specified.
--   Bpt/Cow: what changes leave alone. Bpt/Laws: what they do to entries and keys.
-- Pg: lib/pg.c. A gc page's data segment is an array of 4-byte words, and offsets are in bytes as in
-- the code.
--   Pg/Gc: the lists of one page, gc_list_*. Pg/Alloc: ed_alloc, with the outcomes of mapping and of
--     truncation as parameters. Pg/Free: ed_free_pgno. Pg/Mark: ed_pg_mark_gc.
--   Pg/Lists: what a page and a chain of pages list.
--   Pg/Laws: that no page is lost.
-- Cache: lib/cache.c. The layout of an object in the slab. Cache/Write: ed_write. Cache/Reserve: the search
--   of obj_reserve, over the tree of blocks as an interface. Cache/Get: ed_open for a key,
--   and Cache/Expiry: update_expiry, over the tree of keys as an interface.
-- Idx: lib/idx.c. What the system answers is a record of outcomes, and locks of slots are outcomes.
--   Idx: the header with the connections, and its checks. Idx/Config, Idx/Open: ed_idx_open.
--   Idx/Slots: conn_acquire, conn_release and the snapshots. Idx/Xmin: ed_idx_xmin, whose result is the
--     `xmin` of ed_alloc. Idx/Repair: ed_idx_repair_leaks, over Stat and Pg/Free.
-- Lck: lib/lck.c.
-- Stat: lib/stat.c, the page marks and the tests for leaks, over the bits of the vector. Stat/New:
--   ed_stat_new, over Idx, Pg/Mark and Bpt/Mark.
-- Time: lib/time.c.
-- Txn: lib/txn.c, a transaction from ed_txn_open to ed_txn_close: its page lists, the header and the
--   connection. Bpt/Txn has the pages of a tree that it changes. Txn/Open, Txn/Close: the code.
--
-- Loops are by structural recursion on the keys left or on the list of parents. The walk of
-- ed_bpt_find and the check of ed_bpt_verify have fuel for the levels of the tree, one more than
-- the branches above a leaf, and the loop of ed_alloc has fuel for the lists of the gc pages. That
-- of ed_free_pgno has one round more than there are new pages, and its search for their number two.
-- The search of obj_reserve has fuel for the attempts at a lock, and ed_flck for the calls of fcntl.
-- Not modelled: the creation, closing and lists of objects (lib/cache.c), hashing,
-- MIME, and the tools. `Bpt.Txn` takes the pages that the allocator would give as a list.
pub mod Base
pub mod Bpt
pub mod Cache
pub mod Idx
pub mod Lck
pub mod Pg
pub mod Stat
pub mod Time
pub mod Txn
