-- ===== src/Pg.antt =====
-- lib/pg.c: the page allocator, with the garbage collector's pages (`EdPgGc`, lib/eddy-private.h).
--
-- The data segment of a gc page is an array of 4-byte words, little-endian, and holds lists of freed
-- pages one behind the other: the transaction's id in two words, the number of pages, the pages.
-- Offsets are in bytes, as in the code; a list starts at a multiple of 8.
pub mod Gc
pub mod Lists
pub mod Alloc
pub mod Free
pub mod Mark
pub mod Laws
pub mod Tests
mod FreeTests
pub mod MarkTests
use eddy.Base.{ℕ, ◌+◌, ◌-◌, ◌*◌, ◌/◌, ◌^◌}
use eddy.Base.Mem.{Mem}

-- `ED_PG_GC`
abbrev pub pg_gc : ℕ
pg_gc = 0x4c4c4347

-- `struct EdPgGcState`
pub record GcState : Type 0 where
  pub head : ℕ
  pub tail : ℕ
  pub nlists : ℕ
  pub nskip : ℕ

-- `struct EdPgGc`
pub record GcPage : Type 0 where
  pub no : ℕ
  pub type : ℕ
  pub state : GcState
  pub next : ℕ
  pub words : Mem ℕ

-- `ED_GC_DATA`, from `PAGESIZE`
abbrev pub gc_data : ℕ → ℕ
gc_data page_size = page_size - 8 - 8 - 4 - 4

-- `ED_COUNT_SIZE` and `ED_ALIGN_SIZE`
abbrev pub count_size : ℕ → ℕ → ℕ
count_size n size = (n + (size - 1)) / size

abbrev pub align_size : ℕ → ℕ → ℕ
align_size n size = count_size n size * size

-- `ED_GC_LIST_MAX`
abbrev pub gc_list_max : ℕ → ℕ
gc_list_max page_size = (gc_data page_size - 16) / 4 + 1

-- `ED_GC_LIST_SIZE`
abbrev pub gc_list_size : ℕ → ℕ
gc_list_size npages = align_size (12 + npages * 4) 8

-- The fields of the list at offset `off`, `struct EdPgGcList`, and the word of its first page.
abbrev pub list_xid : Mem ℕ → ℕ → ℕ
list_xid words off = words (off / 4) + 2 ^ 32 * words (off / 4 + 1)

abbrev pub list_npages : Mem ℕ → ℕ → ℕ
list_npages words off = words (off / 4 + 2)

abbrev pub list_pages : ℕ → ℕ
list_pages off = off / 4 + 3

-- What the allocator keeps of the index (`EdPgIdx`), with the file's pages as gc pages by number.
-- `gc_head` and `gc_tail` are pages from the creation of the index on.
pub record Index : Type 0 where
  pub pages : Mem GcPage
  pub gc_head : ℕ
  pub gc_tail : ℕ
  pub tail_start : ℕ
  pub tail_count : ℕ

-- `ED_ALLOC_COUNT`
abbrev pub alloc_count : ℕ
alloc_count = 16
