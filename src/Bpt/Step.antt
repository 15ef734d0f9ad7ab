-- ===== src/Bpt/Step.antt =====
-- lib/bpt.c: `ed_bpt_first`, `ed_bpt_last`, `ed_bpt_next`, `ed_bpt_prev` and `ed_bpt_loop`.
use eddy.Base.{
  ℕ, ◌+◌, ◌-◌, ◌^◌, ◌%◌, Bool, true, false, leb, ◌==◌, ◌&&◌, if◌then◌else◌, not, Option, none, some,
  [],
}
use eddy.Base.Result.{Error, Result, ok, err, key_match}
use eddy.Bpt.{Keyed, key_max}
use eddy.Bpt.Leaf.{leaf_key}
use eddy.Bpt.Txn.{Txn, Place}
use eddy.Bpt.Edit.{Db}
use eddy.Bpt.Move.{Spot, at_slot, move_first, move_last, move_right, move_left}

-- The root as a place for the moves from it.
abbrev pub root_spot : ℕ → Spot
root_spot pg = record {
  node = record { no = pg; pindex = 0 };
  parents = [];
  kmin = 0;
  kmax = key_max;
}

-- The slot of a cursor's entry, for its pointer.
abbrev pub slot_of : Option Place → Option (ℕ × ℕ)
slot_of none = none
slot_of (some at) = some (at.leaf.no, at.eidx)

abbrev pub started : Db → Db
started db = record db { start = slot_of db.find; nloops = 0; hasfind = true }

-- The outcome of a move.
abbrev pub Moved : Type 0 → Type 0
Moved E = Option (Result (Unit {0}) × Db × Txn E)

-- `ed_bpt_loop`
unfoldable pub bpt_loop : Db → ℕ
bpt_loop db = db.nloops

module _ {E : Type 0} ⦃e : Keyed E⦄ where
  abbrev pub start_at : Moved E → Moved E
  start_at none = none
  start_at (some (err x, db, t)) = some (err x, db, t)
  start_at (some (ok u, db, t)) = some (ok u, started db, t)

  -- `ed_bpt_next` and `ed_bpt_prev` from `if (dbp->haskey)` on.
  unfoldable pub yield_at : Db → Txn E → Option Place → Result Bool × Db × Txn E
  yield_at db t none = (ok false, db, t)
  yield_at db t (some at) =
      let again = db.haskey && (db.key == leaf_key (t.pages at.leaf.no).ents at.eidx) in
      (
        ok again,
        record db {
          nmatches = if again then db.nmatches + 1 else db.nmatches;
          haskey = again;
          nloops = if at_slot db.start at.leaf.no at.eidx then db.nloops + 1 else db.nloops;
          matched = again;
        },
        t,
      )

  abbrev pub yield_entry : Db → Txn E → Result Bool × Db × Txn E
  yield_entry db t = yield_at db t db.find

  -- The call of `move_right` or `move_left`, with `error:`.
  unfoldable pub yield_moved : Moved E → Option (Result Bool × Db × Txn E)
  unfolding yield_at
  yield_moved none = none
  yield_moved (some (err x, db, t)) =
      some (err x, record db { matched = false }, record t { error = some x })
  yield_moved (some (ok u, db, t)) = some (yield_entry db t)

  module _ (map_error : ℕ → Option Error) (fuel : ℕ) where
    abbrev pub first_from : Db → Txn E → Option ℕ → Moved E
    first_from db t none = none
    first_from db t (some pg) = start_at (move_first map_error fuel db t (root_spot pg))

    -- `ed_bpt_first`
    unfoldable pub bpt_first : Db → Txn E → Moved E
    unfolding move_first
    bpt_first db t = first_from db t t.root

    abbrev pub last_from : Db → Txn E → Option ℕ → Moved E
    last_from db t none = none
    last_from db t (some pg) = start_at (move_last map_error fuel db t (root_spot pg))

    -- `ed_bpt_last`
    unfoldable pub bpt_last : Db → Txn E → Moved E
    unfolding move_last
    bpt_last db t = last_from db t t.root

    -- `ed_bpt_next` with a cursor that is in position.
    unfoldable pub next_at : Db → Txn E → Place → Option (Result Bool × Db × Txn E)
    unfolding move_right yield_moved yield_at
    next_at db t at =
        let l = t.pages at.leaf.no in
        let i = if db.hasentry then (at.eidx + 1) % 2 ^ 32 else at.eidx in
        if leb l.nkeys i
        then yield_moved (move_right map_error fuel db t at)
        else if db.hasentry
        then some (
            yield_entry
              (record db {
                find = some (record at { eidx = i });
                kmin = db.kmax;
                kmax = leaf_key l.ents i;
              })
              t)
        else some (yield_entry (record db { hasentry = true }) t)

    -- `ed_bpt_prev` with a cursor that is in position.
    unfoldable pub prev_at : Db → Txn E → Place → Option (Result Bool × Db × Txn E)
    unfolding move_left yield_moved yield_at
    prev_at db t at =
        let l = t.pages at.leaf.no in
        if at.eidx == 0
        then yield_moved (move_left map_error fuel db t at)
        else some (
            yield_entry
              (record db {
                find = some (record at { eidx = at.eidx - 1 });
                kmax = db.kmin;
                kmin = leaf_key l.ents (at.eidx - 1);
                hasentry = true;
              })
              t)

    abbrev pub next_from : Db → Txn E → Option Place → Option (Result Bool × Db × Txn E)
    next_from db t none = some (ok false, db, t)
    next_from db t (some at) = next_at db t at

    -- `ed_bpt_next`
    unfoldable pub bpt_next : Db → Txn E → Option (Result Bool × Db × Txn E)
    unfolding next_at
    bpt_next db t = if not db.hasfind then some (err key_match, db, t) else next_from db t db.find

    abbrev pub prev_from : Db → Txn E → Option Place → Option (Result Bool × Db × Txn E)
    prev_from db t none = some (ok false, db, t)
    prev_from db t (some at) = prev_at db t at

    -- `ed_bpt_prev`
    unfoldable pub bpt_prev : Db → Txn E → Option (Result Bool × Db × Txn E)
    unfolding prev_at
    bpt_prev db t = if not db.hasfind then some (err key_match, db, t) else prev_from db t db.find
