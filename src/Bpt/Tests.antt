-- ===== src/Bpt/Tests.antt =====
-- A tree of one full leaf that a new transaction changes, and the results that follow for it.
use eddy.Base.{
  ℕ, ◌+◌, ◌*◌, ◌≡◌, refl, true, false, ◌==◌, if◌then◌else◌, arith, none, some, [], ◌∷◌, ◌++◌,
}
use eddy.Base.Mem.{Mem, slice}
use eddy.Base.Result.{sys}
use eddy.Bpt.{Bpt, Keyed, pg_leaf, pg_none}
use eddy.Bpt.{branch_key, set_keys, branch_order, leaf_order}
use eddy.Bpt.Leaf.{
  Cursor, split_point, split_key, open_slot, close_slot, split_run, scan_on, scan_back, split_left,
  split_left_only, split_right, split_right_only,
}
use eddy.Bpt.Txn.{
  Txn, own, txn_clone, txn_discard, txn_alloc, next_page, page, write, on_option, on_result,
  attempt, fail, pure, ◌>>=◌,
}
use eddy.Bpt.Parent.{
  insert_into_parent, open_branch, split_branch, grow_branch, new_root, link_both, set_node,
  set_root, copy_branch, link,
}
use eddy.Bpt.Insert.{
  insert_into_leaf, split_insert, fill, new_leaf, store, split_leaf, left_leaf, right_leaf,
  set_leaf, set_first,
}
use eddy.Bpt.Edit.{
  Db, bpt_set, bpt_del, set_entry, set_done, set_error, find_kmax, own_leaf, remove,
}
use eddy.Bpt.Laws.SplitPoint.{IsSorted, AtSearch, Splits, split_point-Splits}
use eddy.Bpt.Laws.Leaf.{entries, stored, entries-split_leaf_right}
use eddy.Bpt.Laws.Separator.{
  IsSplit, KeysBelow, KeysFrom, left_page, right_page, split_key-Separates,
}
use eddy.Bpt.Cow.Keeps.{Keeps}
use eddy.Bpt.Cow.Edit.{bpt_set-Keeps, bpt_del-Keeps}

-- An entry: the key, and what it holds.
abbrev Entry : Type 0
Entry = ℕ × ℕ

instance entry_key : Keyed Entry
entry_key = record { esize = 8; key_of = λ x. x.0 }

-- A page of 32 bytes of data: four entries in a leaf, three pointers in a branch.
abbrev page_size : ℕ
page_size = 56

-- The keys 10, 20, 30, ..
abbrev tens : Mem Entry
tens i = (10 * (i + 1), i)

abbrev leaf_of : ℕ → ℕ → ℕ → Bpt Entry
leaf_of pg xid n = record {
  no = pg;
  type = pg_leaf;
  xid = xid;
  next = pg_none;
  nkeys = n;
  ents = tens;
  ptrs = λ i. 0;
  keys = λ i. 0;
}

abbrev full_leaf : Bpt Entry
full_leaf = leaf_of 1 5 4

abbrev stored_pages : Mem (Bpt Entry)
stored_pages pg = if pg == 1 then full_leaf else leaf_of pg 0 0

abbrev txn : Txn Entry
txn = record {
  xid = 6;
  pages = stored_pages;
  spare = 2 ∷ 3 ∷ 4 ∷ [];
  gc = [];
  alloc_error = sys 12;
  isrdonly = false;
  error = none;
  root = some 1;
}

-- The cursor after a search for 25.
abbrev missed : Db
missed = record {
  find = some (record { leaf = record { no = 1; pindex = 0 }; parents = []; eidx = 2 });
  key = 25;
  kmin = 20;
  kmax = 30;
  start = none;
  nsplits = 2;
  matched = false;
  nmatches = 0;
  nloops = 0;
  haskey = true;
  hasfind = true;
  hasentry = false;
}

-- The cursor after a search for 30.
abbrev hit : Db
hit = record missed { key = 30; kmax = 30; matched = true; nmatches = 1; hasentry = true }

abbrev cursor : Cursor
cursor = record { key = 25; entry_index = 2; nmatches = 0 }

-- What a change runs through.
program : Unit {0}
unfolding bpt_set bpt_del set_entry insert_into_leaf split_insert fill new_leaf store split_leaf
    left_leaf right_leaf set_leaf set_first insert_into_parent open_branch split_branch grow_branch
    new_root link_both set_node set_root copy_branch link own txn_clone txn_discard txn_alloc
    next_page page write on_option on_result attempt fail pure ◌>>=◌ set_done set_error find_kmax
    own_leaf remove split_point split_run scan_on scan_back split_key split_left split_left_only
    split_right split_right_only open_slot close_slot branch_key set_keys branch_order leaf_order
program = tt

-- The root's page after an insertion that splits the leaf, and the keys of the two leaves.
split_run_example :
    let t = (bpt_set page_size missed (25, 9) false txn).1 in
    (t.root ≡ some 4)
    × (slice (t.pages 4).keys 0 (t.pages 4).nkeys ≡ 25 ∷ [])
    × (slice (t.pages 4).ptrs 0 2 ≡ 3 ∷ 2 ∷ [])
    × (slice (t.pages 3).ents 0 (t.pages 3).nkeys ≡ (10, 0) ∷ (20, 1) ∷ [])
    × (slice (t.pages 2).ents 0 (t.pages 2).nkeys ≡ (25, 9) ∷ (30, 2) ∷ (40, 3) ∷ [])
unfolding program entry_key
split_run_example = (refl, refl, refl, refl, refl)

bpt_set-Keeps_example : Keeps txn (bpt_set page_size missed (25, 9) false txn).1
bpt_set-Keeps_example = bpt_set-Keeps page_size missed (25, 9) false txn

bpt_del-Keeps_example : Keeps txn (bpt_del page_size hit txn).1
bpt_del-Keeps_example = bpt_del-Keeps page_size hit txn

tens-IsSorted : (n : ℕ) → IsSorted tens n
unfolding entry_key
tens-IsSorted n i j p q = omega arith

cursor-AtSearch : AtSearch cursor tens 4
unfolding entry_key
cursor-AtSearch = record {
  miss = λ z i p q. omega arith;
  inside = λ p. (omega arith, omega arith);
  hits = λ p i q r. omega arith;
  before = λ p i q. omega arith;
}

split_point-Splits_example : Splits tens 4 (split_point cursor tens 4)
split_point-Splits_example =
    split_point-Splits cursor tens 4 (omega arith) (omega arith) (tens-IsSorted 4) cursor-AtSearch

cursor-IsSplit : IsSplit cursor tens 4 2 (25, 9)
unfolding entry_key
cursor-IsSplit = record {
  same_key = refl;
  sorted = tens-IsSorted 4;
  slot = (omega arith, λ i p. omega arith, λ i p q. omega arith);
  search = cursor-AtSearch;
  inside = omega arith;
  rises = omega arith;
  pos = omega arith;
}

split_key-Separates_example :
    KeysBelow 25 (left_page page_size cursor true (leaf_of 3 6 0) full_leaf 2 (25, 9))
    × KeysFrom 25 (right_page page_size cursor (leaf_of 2 6 0) full_leaf 2 (25, 9))
unfolding split_key leaf_order entry_key
split_key-Separates_example =
    split_key-Separates page_size cursor true (leaf_of 3 6 0) (leaf_of 2 6 0) full_leaf 2 (25, 9)
      (omega arith) cursor-IsSplit

split_right_example :
    let r = right_leaf page_size (leaf_of 2 6 0) full_leaf 2 3 in
    let l = left_leaf page_size false full_leaf full_leaf 2 3 in
    entries l ++ entries (stored page_size r 1 (35, 9))
    ≡ (10, 0) ∷ (20, 1) ∷ (30, 2) ∷ (35, 9) ∷ (40, 3) ∷ []
split_right_example =
    entries-split_leaf_right page_size false full_leaf (leaf_of 2 6 0) full_leaf 2 3 (35, 9)
      (omega arith) (omega arith)
