-- ===== src/Bpt/Move.antt =====
-- lib/bpt.c: the moves of a cursor to the first, last, next and previous entry.
--
-- As in `Find`, `map_error` is the outcome of `ed_txn_map` on a page, and the walk down has fuel for the
-- levels of the tree. `none` stands for a lack of fuel and for the read through a null pointer
-- that `ed_bpt_first` and `ed_bpt_last` do in a tree without a root.
use eddy.Base.{
  ℕ, zero, suc, ◌+◌, ◌-◌, ◌^◌, ◌%◌, Bool, true, false, ltb, ◌==◌, ◌&&◌, if◌then◌else◌, Option, none,
  some, List, [], ◌∷◌,
}
use eddy.Base.Mem.{Mem}
use eddy.Base.Result.{Error, Result, ok, err}
use eddy.Bpt.{Bpt, Keyed, key_max, is_branch, branch_key}
use eddy.Bpt.Leaf.{leaf_key}
use eddy.Bpt.Txn.{Txn, Node, Place}
use eddy.Bpt.Edit.{Db, pred64, find_kmax}

-- A node with its parents, the nearest first, and the bounds of its keys: `from`, `kmin`, `kmax`.
pub record Spot : Type 0 where
  pub node : Node
  pub parents : List Node
  pub kmin : ℕ
  pub kmax : ℕ

-- `find_kmin`
unfoldable pub find_kmin : {E : Type 0} → Mem (Bpt E) → Node → List Node → ℕ
find_kmin pages node [] = 0
find_kmin pages node (p ∷ ps) =
    if ltb 0 node.pindex
    then pred64 (branch_key (pages p.no) (node.pindex - 1))
    else find_kmin pages p ps

-- Whether a pointer to a slot is the cursor's `start`.
abbrev pub at_slot : Option (ℕ × ℕ) → ℕ → ℕ → Bool
at_slot none pg i = false
at_slot (some (q, j)) pg i = (q == pg) && (j == i)

module _ {E : Type 0} (pages : Mem (Bpt E)) (map_error : ℕ → Option Error) where
  -- The loop of `move_first`.
  unfoldable pub down_first : ℕ → Spot → Option (Result Spot)
  down_first zero s = none
  down_first (suc fuel) s =
      let b = pages s.node.no in
      let rest = down_first fuel (record s {
        node = record { no = b.ptrs 0; pindex = 0 };
        parents = s.node ∷ s.parents;
        kmax = pred64 (branch_key b 1);
      }) in
      if is_branch b
      then (elim (map_error (b.ptrs 0)) [ some x ↦ some (err x) | none ↦ rest ])
      else some (ok s)

  -- The loop of `move_last`.
  unfoldable pub down_last : ℕ → Spot → Option (Result Spot)
  down_last zero s = none
  down_last (suc fuel) s =
      let b = pages s.node.no in
      let rest = down_last fuel (record s {
        node = record { no = b.ptrs b.nkeys; pindex = b.nkeys };
        parents = s.node ∷ s.parents;
        kmin = branch_key b b.nkeys;
      }) in
      if is_branch b
      then (elim (map_error (b.ptrs b.nkeys)) [ some x ↦ some (err x) | none ↦ rest ])
      else some (ok s)

  -- The way up in `move_right`, and the step to the sibling.
  unfoldable pub up_right : Node → List Node → Result Spot
  up_right node [] = ok (record { node = node; parents = []; kmin = 0; kmax = key_max })
  up_right node (p ∷ ps) =
      let b = pages p.no in
      let next : Node = record { no = b.ptrs (node.pindex + 1); pindex = node.pindex + 1 } in
      if ltb node.pindex b.nkeys
      then (elim (map_error next.no) [
        | some x ↦ err x
        | none ↦ ok (record {
          node = next;
          parents = p ∷ ps;
          kmin = branch_key b next.pindex;
          kmax = find_kmax pages next (p ∷ ps);
        })
      ])
      else up_right p ps

  -- The way up in `move_left`, and the step to the sibling.
  unfoldable pub up_left : Node → List Node → Result Spot
  up_left node [] = ok (record { node = node; parents = []; kmin = 0; kmax = key_max })
  up_left node (p ∷ ps) =
      let b = pages p.no in
      let next : Node = record { no = b.ptrs (node.pindex - 1); pindex = node.pindex - 1 } in
      if ltb 0 node.pindex
      then (elim (map_error next.no) [
        | some x ↦ err x
        | none ↦ ok (record {
          node = next;
          parents = p ∷ ps;
          kmin = find_kmin pages next (p ∷ ps);
          kmax = branch_key b next.pindex;
        })
      ])
      else up_left p ps

-- An error of `move_first` or `move_last`, which `ed_txn_map` records in the transaction.
unfoldable pub stopped : {E : Type 0} → Error → Db → Txn E → Result (Unit {0}) × Db × Txn E
stopped x db t = (err x, record db { matched = false; nmatches = 0 }, record t { error = some x })

module _ {E : Type 0} ⦃e : Keyed E⦄ where
  -- `done:` of `move_first` and `move_last` at the leaf.
  unfoldable pub set_first : Db → Txn E → Spot → Db
  set_first db t s =
      let l = t.pages s.node.no in
      record db {
        find = some (record { leaf = s.node; parents = s.parents; eidx = 0 });
        kmin = s.kmin;
        kmax = if ltb 0 l.nkeys then leaf_key l.ents 0 else s.kmax;
        hasentry = true;
        matched = false;
        nmatches = 0;
      }

  -- `entry_index` is a `uint32_t`: in a leaf without entries it is `UINT32_MAX`.
  unfoldable pub set_last : Db → Txn E → Spot → Db
  set_last db t s =
      let l = t.pages s.node.no in
      let at : Place = record {
        leaf = s.node;
        parents = s.parents;
        eidx = (l.nkeys + 2 ^ 32 - 1) % 2 ^ 32;
      } in
      record db {
        find = some at;
        kmin = if ltb 0 l.nkeys then leaf_key l.ents (l.nkeys - 1) else s.kmin;
        kmax = s.kmax;
        hasentry = true;
        matched = false;
        nmatches = 0;
      }

  unfoldable pub arrive :
      (Db → Txn E → Spot → Db) → Db → Txn E → Result Spot → Result (Unit {0}) × Db × Txn E
  unfolding stopped
  arrive set db t (ok s) = (ok tt, set db t s, t)
  arrive set db t (err x) = stopped x db t

  module _ (map_error : ℕ → Option Error) (fuel : ℕ) where
    -- `move_first`
    unfoldable pub move_first : Db → Txn E → Spot → Option (Result (Unit {0}) × Db × Txn E)
    unfolding down_first arrive set_first
    move_first db t s = elim (down_first t.pages map_error fuel s) [
      | none ↦ none
      | some r ↦ some (arrive set_first db t r)
    ]

    -- `move_last`
    unfoldable pub move_last : Db → Txn E → Spot → Option (Result (Unit {0}) × Db × Txn E)
    unfolding down_last arrive set_last
    move_last db t s = elim (down_last t.pages map_error fuel s) [
      | none ↦ none
      | some r ↦ some (arrive set_last db t r)
    ]

    -- `move_right` and `move_left`; an error on the way up leaves the cursor as it is.
    unfoldable pub move_right : Db → Txn E → Place → Option (Result (Unit {0}) × Db × Txn E)
    unfolding up_right move_first
    move_right db t at = elim (up_right t.pages map_error at.leaf at.parents) [
      | err x ↦ some (err x, db, record t { error = some x })
      | ok s ↦ move_first db t s
    ]

    unfoldable pub move_left : Db → Txn E → Place → Option (Result (Unit {0}) × Db × Txn E)
    unfolding up_left move_last
    move_left db t at = elim (up_left t.pages map_error at.leaf at.parents) [
      | err x ↦ some (err x, db, record t { error = some x })
      | ok s ↦ move_last db t s
    ]
