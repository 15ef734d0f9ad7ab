-- ===== src/Bpt/Find.antt =====
-- lib/bpt.c: `ed_bpt_find`, the walk from the root to the leaf for a key, and the search in it.
--
-- `map_error` is the outcome of `ed_txn_map` on a page (lib/txn.c), which maps the file: an error,
-- or `none`. The loop goes down one page per round, so its fuel is the number of levels.
use eddy.Base.{
  ℕ, zero, suc, ◌+◌, Bool, true, false, ltb, ◌==◌, if◌then◌else◌, Option, none, some, List, [], ◌∷◌,
}
use eddy.Base.Mem.{Mem}
use eddy.Base.Result.{Error, Result, ok, err, sys}
use eddy.Bpt.{
  Bpt, Keyed, key_max, is_branch, is_branch_full, is_leaf_full, is_full, branch_key, branch_search,
}
use eddy.Bpt.Leaf.{leaf_key}
use eddy.Bpt.Txn.{Txn, Node, Place}
use eddy.Bpt.Edit.{Db, pred64}

-- Where the walk stands: `node`, `kmin`, `kmax` and `dbp->nsplits`.
pub record Walk : Type 0 where
  pub node : Node
  pub parents : List Node
  pub kmin : ℕ
  pub kmax : ℕ
  pub nsplits : ℕ

-- The loop's variables after the search of the leaf.
pub record Hit : Type 0 where
  pub index : ℕ
  pub kmin : ℕ
  pub kmax : ℕ
  pub found : Bool

abbrev pub count_full : Bool → ℕ → ℕ
count_full full n = if full then n + 1 else 0

-- `ed_txn_db` with `reset`
unfoldable pub reset : Option ℕ → Db → Db
reset none db = record db { find = none; nsplits = 0; matched = false; nmatches = 0 }
reset (some pg) db = record db {
  find = some (record { leaf = record { no = pg; pindex = 0 }; parents = []; eidx = 0 });
  nsplits = 0;
  matched = false;
  nmatches = 0;
}

-- `done:` with a leaf, at the walk's end.
unfoldable pub found_at : Db → ℕ → Walk → ℕ → Hit → Db
found_at db key w nsplits h = record db {
  find = some (record { leaf = w.node; parents = w.parents; eidx = h.index });
  key = key;
  kmin = h.kmin;
  kmax = h.kmax;
  start = some (w.node.no, h.index);
  nsplits = nsplits;
  matched = h.found;
  nmatches = if h.found then 1 else 0;
  nloops = 0;
  haskey = true;
  hasfind = true;
  hasentry = h.found;
}

-- `done:` where there is no root.
unfoldable pub found_none : Db → ℕ → Db
found_none db key = record db {
  key = key;
  kmin = 0;
  kmax = key_max;
  start = none;
  nsplits = 1;
  matched = false;
  nmatches = 0;
  nloops = 0;
  haskey = true;
  hasfind = true;
  hasentry = false;
}

module _ {E : Type 0} ⦃e : Keyed E⦄ where
  -- The loop over the leaf's keys at index `i` with `left` keys to come.
  unfoldable pub search_leaf : Mem E → ℕ → ℕ → ℕ → ℕ → ℕ → Hit
  search_leaf l key zero i kmin kmax = record { index = i; kmin = kmin; kmax = kmax; found = false }
  search_leaf l key (suc left) i kmin kmax =
      let cmp = leaf_key l i in
      let rest = search_leaf l key left (i + 1) cmp kmax in
      if key == cmp
      then record { index = i; kmin = kmin; kmax = cmp; found = true }
      else if ltb key cmp
      then record { index = i; kmin = kmin; kmax = cmp; found = false }
      else rest

  -- One round of the walk, after the child has been mapped.
  unfoldable pub descend : Mem (Bpt E) → ℕ → ℕ → Walk → Walk
  descend pages page_size key w =
      let b = pages w.node.no in
      let bidx = branch_search b key in
      record {
        node = record { no = b.ptrs bidx; pindex = bidx };
        parents = w.node ∷ w.parents;
        kmin = if ltb 0 bidx then branch_key b bidx else w.kmin;
        kmax = if ltb bidx b.nkeys then pred64 (branch_key b (bidx + 1)) else w.kmax;
        nsplits = count_full (is_branch_full page_size b) w.nsplits;
      }

  -- `while (IS_BRANCH(node->tree))`; an error comes with the place where it occurred.
  unfoldable pub walk :
      Mem (Bpt E) → (ℕ → Option Error) → ℕ → ℕ → ℕ → Walk → Option (Option Error × Walk)
  walk pages map_error page_size key zero w = none
  walk pages map_error page_size key (suc fuel) w =
      let b = pages w.node.no in
      let next = descend pages page_size key w in
      let rest = walk pages map_error page_size key fuel next in
      let failed : Walk = record w { nsplits = next.nsplits } in
      if is_branch b
      then (elim (map_error next.node.no) [ some x ↦ some (some x, failed) | none ↦ rest ])
      else some (none, w)

  -- From the walk's end on. `ed_txn_map` records an error in the transaction.
  unfoldable pub find_done : Db → ℕ → ℕ → Txn E → Option Error × Walk → Result Bool × Db × Txn E
  find_done db page_size key t (none, w) =
      let l = t.pages w.node.no in
      let h = search_leaf l.ents key l.nkeys 0 w.kmin w.kmax in
      (ok h.found, found_at db key w (count_full (is_leaf_full page_size l) w.nsplits) h, t)
  find_done db page_size key t (some x, w) =
      let at : Place = record { leaf = w.node; parents = w.parents; eidx = 0 } in
      (err x, record db { find = some at; nsplits = w.nsplits }, record t { error = some x })

  -- The walk starts at the root.
  unfoldable pub from_root : Mem (Bpt E) → ℕ → ℕ → Walk
  from_root pages page_size pg = record {
    node = record { no = pg; pindex = 0 };
    parents = [];
    kmin = 0;
    kmax = key_max;
    nsplits = if is_full page_size (pages pg) then 1 else 0;
  }

  -- `ed_bpt_find` in an open transaction with the root page given.
  unfoldable pub find_from :
      ℕ → (ℕ → Option Error) → ℕ → Db → ℕ → Option ℕ → Txn E → Option (Result Bool × Db × Txn E)
  find_from page_size map_error fuel db key none t =
      some (ok false, found_none (reset none db) key, t)
  find_from page_size map_error fuel db key (some pg) t =
      let w = from_root t.pages page_size pg in
      elim (walk t.pages map_error page_size key fuel w) [
        | none ↦ none
        | some r ↦ some (find_done (reset (some pg) db) page_size key t r)
      ]

  -- `ed_bpt_find`; `is_open` is the transaction's state, and 22 is `EINVAL`.
  unfoldable pub bpt_find :
      ℕ → (ℕ → Option Error) → Bool → ℕ → Db → ℕ → Txn E → Option (Result Bool × Db × Txn E)
  bpt_find page_size map_error is_open fuel db key t =
      if is_open
      then find_from page_size map_error fuel db key t.root t
      else some (err (sys 22), db, t)
