-- ===== src/Bpt.antt =====
-- lib/bpt.c: the pages of a b+tree (`EdBpt`, lib/eddy-private.h), their capacity, and the search
-- within one page.
--
-- An entry is a value that starts with its 64-bit key. A page's data segment is read in one of
-- two ways: as the entries of a leaf, `data[i*esize ..]`, or as the pointers and keys of a branch.
-- `keys i` is the key between `ptrs i` and `ptrs (i + 1)`, so `branch_key(b, i + 1)`.
pub mod Leaf
pub mod Txn
pub mod Parent
pub mod Insert
pub mod Edit
pub mod Cow
pub mod Find
pub mod Move
pub mod Step
pub mod Order
pub mod Mark
pub mod Laws
pub mod Tree
pub mod Verify
mod Tests
pub mod TreeTests
mod MoveTests
use eddy.Base.{
  ℕ, zero, suc, ◌+◌, ◌-◌, ◌*◌, ◌/◌, ◌%◌, ◌^◌, Bool, true, false, ◌==◌, ltb, if◌then◌else◌,
}
use eddy.Base.Mem.{Mem, put}

-- `ED_PG_BRANCH`
abbrev pub pg_branch : ℕ
pg_branch = 0x48435242

-- `ED_PG_LEAF`
abbrev pub pg_leaf : ℕ
pg_leaf = 0x4641454c

-- `ED_PG_NONE`
abbrev pub pg_none : ℕ
pg_none = 2 ^ 32 - 1

-- `UINT64_MAX`
abbrev pub key_max : ℕ
key_max = 2 ^ 64 - 1

-- What a tree needs of its entries: the size in bytes, and the key (`ed_fetch64`).
pub record Keyed (E : Type 0) : Type 0 where
  pub esize : ℕ
  pub key_of : E → ℕ

-- `struct EdBpt`, with the fields of its `EdPg` first. The unused `flags` is left out.
pub record Bpt (E : Type 0) : Type 0 where
  pub no : ℕ
  pub type : ℕ
  pub xid : ℕ
  pub next : ℕ
  pub nkeys : ℕ
  pub ents : Mem E
  pub ptrs : Mem ℕ
  pub keys : Mem ℕ

-- `ED_BPT_DATA`, from `PAGESIZE`
abbrev pub bpt_data : ℕ → ℕ
bpt_data page_size = page_size - 8 - 8 - 4 - 4

-- `BRANCH_ORDER`: 4-byte pointers with 8-byte keys between them.
unfoldable pub branch_order : ℕ → ℕ
branch_order page_size = (bpt_data page_size - 4) / 12 + 1

-- `LEAF_ORDER`
unfoldable pub leaf_order : ℕ → ℕ → ℕ
leaf_order page_size esize = bpt_data page_size / esize

abbrev pub is_branch : {E : Type 0} → Bpt E → Bool
is_branch n = n.type == pg_branch

abbrev pub is_branch_full : {E : Type 0} → ℕ → Bpt E → Bool
is_branch_full page_size n = n.nkeys == branch_order page_size - 1

abbrev pub is_leaf_full : {E : Type 0} ⦃e : Keyed E⦄ → ℕ → Bpt E → Bool
is_leaf_full ⦃e⦄ page_size n = n.nkeys == leaf_order page_size e.esize

abbrev pub is_full : {E : Type 0} ⦃e : Keyed E⦄ → ℕ → Bpt E → Bool
is_full page_size n = if is_branch n then is_branch_full page_size n else is_leaf_full page_size n

-- Index 0 stands for the key before the first pointer.
unfoldable pub branch_key : {E : Type 0} → Bpt E → ℕ → ℕ
branch_key b zero = 0
branch_key b (suc i) = b.keys i

-- `branch_set_key`; index 0 writes nothing.
unfoldable pub set_keys : Mem ℕ → ℕ → ℕ → Mem ℕ
set_keys keys zero v = keys
set_keys keys (suc i) v = put keys i v

-- The loop of `branch_search` at index `i` with `n` keys left. The result is the pointer's index.
unfoldable pub search_from : Mem ℕ → ℕ → ℕ → ℕ → ℕ
search_from keys key i zero = i
search_from keys key i (suc n) =
    let rest = search_from keys key (i + 1) n in
    if ltb key (keys i) then i else if key == keys i then i + 1 else rest

-- `branch_search` with `branch_index`
unfoldable pub branch_search : {E : Type 0} → Bpt E → ℕ → ℕ
unfolding search_from
branch_search b key = search_from b.keys key 0 b.nkeys
