-- ===== src/Bpt/TreeTests.antt =====
-- A tree of a branch and two leaves: searches in it, and a transaction that changes it.
use eddy.Base.{
  ℕ, ◌<◌, zero, suc, ◌+◌, ◌*◌, ◌^◌, ◌≡◌, ◌≤◌, ◌↔◌, refl, Bool, true, false, ◌==◌, if◌then◌else◌,
  arith, Option, none, some, [], ◌∷◌,
}
use eddy.Base.Mem.{Mem}
use eddy.Base.Result.{Error, ok, sys}
use eddy.Bpt.{
  Bpt, Keyed, pg_branch, pg_leaf, pg_none, branch_search, search_from, branch_key, branch_order,
  leaf_order,
}
use eddy.Bpt.Txn.{Txn}
use eddy.Bpt.Edit.{Db, bpt_set}
use eddy.Bpt.Find.{
  bpt_find, find_from, find_done, found_at, found_none, reset, walk, descend, search_leaf,
  from_root,
}
use eddy.Bpt.Tree.{IsTree, low, high, Occurs}
use eddy.Bpt.Verify.{
  fine, broken, bpt_verify, verify_node, verify_children, checked, verify_leaf, verify_keys,
}
use eddy.Bpt.Laws.Verified.{IsFilled, bpt_verify-IsTree_iff}
use eddy.Bpt.Laws.Located.{Located, bpt_find-Located}
use eddy.Bpt.Laws.Snapshot.{IsStored, Changes, unchanged, set, answer, bpt_find-Changes}

instance unfoldable pub number_key : Keyed ℕ
number_key = record { esize = 8; key_of = λ x. x }

abbrev pub page_size : ℕ
page_size = 56

-- Page 1 is the branch, with key 30 between pages 2 and 3; the leaves hold 10, 20 and 30, 40.
abbrev pub pages : Mem (Bpt ℕ)
pages pg = record {
  no = pg;
  type = if pg == 1 then pg_branch else pg_leaf;
  xid = 5;
  next = pg_none;
  nkeys = if pg == 1 then 1 else 2;
  ents = λ i. if pg == 2 then 10 * (i + 1) else 10 * (i + 3);
  ptrs = λ i. i + 2;
  keys = λ i. 30;
}

leaf_child :
    (i : ℕ) → i ≤ 1 → IsTree pages 0 (i + 2) (low (pages 1) 0 i) (high (pages 1) (2 ^ 64) i)
unfolding number_key
leaf_child zero p = record {
  type = refl;
  sorted = λ i j p q. omega arith;
  from = λ i p. omega arith;
  below = λ i p. omega arith;
}
leaf_child (suc zero) p = record {
  type = refl;
  sorted = λ i j p q. omega arith;
  from = λ i p. omega arith;
  below = λ i p. omega arith;
}
leaf_child (suc (suc i)) p = absurd (omega arith)

pub pages-IsTree : IsTree pages 1 1 0 (2 ^ 64)
pages-IsTree = record {
  type = refl;
  rises = λ i j p q. absurd (omega arith);
  from = λ i p. omega arith;
  below = λ i p. omega arith;
  children = leaf_child;
}

abbrev pub cursor : Db
cursor = record {
  find = none;
  key = 0;
  kmin = 0;
  kmax = 0;
  start = none;
  nsplits = 0;
  matched = false;
  nmatches = 0;
  nloops = 0;
  haskey = false;
  hasfind = false;
  hasentry = false;
}

abbrev pub txn : Txn ℕ
txn = record {
  xid = 6;
  pages = pages;
  spare = 4 ∷ 5 ∷ 6 ∷ [];
  gc = [];
  alloc_error = sys 12;
  isrdonly = false;
  error = none;
  root = some 1;
}

abbrev pub mapped : ℕ → Option Error
mapped pg = none

program : Unit {0}
unfolding bpt_find find_from find_done found_at found_none reset walk descend search_leaf from_root
    branch_search search_from branch_key branch_order leaf_order number_key
program = tt

-- The leaf, slot and bounds that a search for 25 gives.
find_run_example :
    answer (bpt_find page_size mapped true 2 cursor 25 txn)
    ≡ some (
      ok false,
      record cursor {
        find = some (record {
          leaf = record { no = 2; pindex = 0 };
          parents = record { no = 1; pindex = 0 } ∷ [];
          eidx = 2;
        });
        key = 25;
        kmin = 20;
        kmax = 29;
        start = some (2, 2);
        haskey = true;
        hasfind = true;
      },
    )
unfolding program
find_run_example = refl

bpt_find-Located_example :
    (found : Bool) × (db' : Db) × (bpt_find page_size mapped true 2 cursor 25 txn
      ≡ some (ok found, db', txn))
    × ((found ≡ true) ↔ Occurs pages 1 1 25)
    × (db'.key ≡ 25)
    × Located pages db'
bpt_find-Located_example =
    bpt_find-Located page_size mapped 2 1 cursor 25 txn 1 (λ pg. refl) (omega arith) refl
      pages-IsTree (omega arith)

-- A place for key 25 in the left leaf.
abbrev at_25 : Db
at_25 = record cursor {
  find = some (record {
    leaf = record { no = 2; pindex = 0 };
    parents = record { no = 1; pindex = 0 } ∷ [];
    eidx = 2;
  });
  key = 25;
  kmin = 20;
  kmax = 29;
  hasfind = true;
}

abbrev changed : Txn ℕ
changed = (bpt_set page_size at_25 25 false txn).1

changed-Changes : Changes page_size txn changed
changed-Changes = set at_25 25 false unchanged

pages-IsStored : IsStored txn 1 1
pages-IsStored = (omega arith, refl, stored)
  where
    stored : (i : ℕ) → i ≤ 1 → IsStored txn 0 (i + 2)
    stored zero p = (omega arith, refl)
    stored (suc zero) p = (omega arith, refl)
    stored (suc (suc i)) p = absurd (omega arith)

bpt_find-Changes_example :
    answer (bpt_find page_size mapped true 2 cursor 20 (record txn { pages = changed.pages }))
    ≡ answer (bpt_find page_size mapped true 2 cursor 20 txn)
bpt_find-Changes_example =
    bpt_find-Changes page_size mapped true 2 1 cursor 20 txn changed txn 1 0 (2 ^ 64) pages-IsTree
      pages-IsStored changed-Changes refl

pages-IsFilled : IsFilled pages 1 1
pages-IsFilled = (refl, positive, child)
  where
    positive : (j : ℕ) → j < 1 → 0 < (pages 1).keys j
    positive zero lt = omega arith
    positive (suc j) lt = absurd (omega (arith, lt))

    child : (i : ℕ) → i ≤ 1 → IsFilled pages 0 (i + 2)
    child zero p = (refl, omega arith)
    child (suc zero) p = (refl, omega arith)
    child (suc (suc i)) p = absurd (omega arith)

verify_iff_example : (bpt_verify pages mapped 2 (some 1) ≡ some fine) ↔ IsTree pages 1 1 0 (2 ^ 64)
verify_iff_example =
    bpt_verify-IsTree_iff pages mapped 2 1 1 (λ pg. refl) (omega arith) pages-IsFilled

-- Keys out of their range are found.
abbrev misplaced : Mem (Bpt ℕ)
misplaced pg = record (pages pg) { keys = λ i. 15 }

verify_run_example : bpt_verify misplaced mapped 2 (some 1) ≡ some broken
unfolding bpt_verify verify_node verify_children checked verify_leaf verify_keys number_key
verify_run_example = refl
