-- ===== src/Idx.antt =====
-- lib/idx.c: the header of the index, with the connections of the processes that use it.
--
-- The lock of a slot is the system's: the outcome of each attempt is a parameter. Flags are a function
-- from the bit's number. A `pid` is not negative.
pub mod Slots
pub mod Xmin
pub mod Config
pub mod Open
pub mod Repair
pub mod Laws
mod Tests
mod OpenTests
use eddy.Base.{
  ℕ, zero, suc, ◌+◌, ◌-◌, ◌*◌, ◌/◌, ◌%◌, ◌^◌, Bool, true, false, not, ◌&&◌, ◌||◌, ltb, leb, ◌==◌,
  if◌then◌else◌, Option, none, some, List, [], ◌∷◌,
}
use eddy.Base.Int.{ℤ, pos}
use eddy.Base.Mem.{Mem}
use eddy.Base.Result.{
  Error, index_size, index_magic, index_endian, index_mark, index_version, index_page_size,
  eslab_block_count, eslab_inode,
}
use eddy.Bpt.{pg_none}
use eddy.Pg.{count_size}

abbrev pub Flags : Type 0
Flags = Mem Bool

-- `struct EdConn`
pub record Conn : Type 0 where
  pub pid : ℕ
  pub active : ℕ
  pub xid : ℕ
  pub npending : ℕ
  pub pending : Mem ℕ

-- `CONN_DEFAULT`, and a slot after `memset`.
abbrev pub conn_default : Conn
conn_default = record { pid = 0; active = 0; xid = 0; npending = 0; pending = λ i. pg_none }

abbrev pub conn_cleared : Conn
conn_cleared = record { pid = 0; active = 0; xid = 0; npending = 0; pending = λ i. 0 }

-- `ED_PG_INDEX`
abbrev pub pg_index : ℕ
pg_index = 0x58444e49

-- `struct EdPgIdx`; `no` and `type` are those of its base.
pub record Hdr : Type 0 where
  pub no : ℕ
  pub type : ℕ
  pub magic : List ℕ
  pub endian : ℕ
  pub mark : ℕ
  pub version : ℕ
  pub seed : ℕ
  pub epoch : ℤ
  pub flags : Flags
  pub size_page : ℕ
  pub slab_block_size : ℕ
  pub nconns : ℕ
  pub tail_start : ℕ
  pub tail_count : ℕ
  pub gc_head : ℕ
  pub gc_tail : ℕ
  pub tree : Mem ℕ
  pub xid : ℕ
  pub vno : ℕ
  pub slab_blocks : ℕ
  pub slab_ino : ℕ
  pub slab_path : List ℕ
  pub nactive : ℕ
  pub active : Mem ℕ
  pub conns : Mem Conn

-- The offset of `conns` in a header, and the size of a slot.
abbrev pub conns_offset : ℕ
conns_offset = 2048

abbrev pub conn_size : ℕ
conn_size = 64

-- `ED_IDX_PAGES`
unfoldable pub idx_pages : ℕ → ℕ → ℕ
idx_pages page_size nconns = count_size (conns_offset + conn_size * nconns) page_size

-- `memcmp` of two arrays.
abbrev pub same : List ℕ → List ℕ → Bool
same [] [] = true
same [] (b ∷ bs) = false
same (a ∷ rest) [] = false
same (a ∷ rest) (b ∷ bs) = (a == b) && same rest bs

module _ (page_size : ℕ) (little : Bool) where
  -- `INDEX_DEFAULT`
  abbrev pub index_default : Hdr
  index_default = record {
    no = 0;
    type = pg_index;
    magic = 69 ∷ 68 ∷ 68 ∷ 89 ∷ [];
    endian = if little then 108 else 66;
    mark = 252;
    version = 2;
    seed = 0;
    epoch = pos 0;
    flags = λ b. false;
    size_page = page_size;
    slab_block_size = page_size % 2 ^ 16;
    nconns = 32;
    tail_start = 0;
    tail_count = 0;
    gc_head = pg_none;
    gc_tail = pg_none;
    tree = λ i. pg_none;
    xid = 1;
    vno = 0;
    slab_blocks = 0;
    slab_ino = 0;
    slab_path = [];
    nactive = 0;
    active = λ i. pg_none;
    conns = λ i. conn_default;
  }

  -- `hdr_verify`; `size` is the file's.
  unfoldable pub hdr_verify : Hdr → ℕ → Option Error
  hdr_verify h size =
      let d = index_default in
      if ltb size (conns_offset + conn_size)
      then some index_size
      else if not (same h.magic d.magic)
      then some index_magic
      else if not (h.endian == d.endian)
      then some index_endian
      else if not (h.mark == d.mark)
      then some index_mark
      else if not (h.version == d.version)
      then some index_version
      else if not (h.size_page == d.size_page)
      then some index_page_size
      else none

-- `hdr_verify_slab`
unfoldable pub hdr_verify_slab : Hdr → ℕ → ℕ → Option Error
hdr_verify_slab h size ino =
    if not (h.slab_blocks == size / h.slab_block_size)
    then some eslab_block_count
    else if not (h.slab_ino == ino)
    then some eslab_inode
    else none
