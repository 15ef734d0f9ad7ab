-- ===== src/Bpt/Edit.antt =====
-- lib/bpt.c: `ed_bpt_set` and `ed_bpt_del`, the changes that a transaction makes through its
-- cursor.
use eddy.Base.{
  ℕ, ◌+◌, ◌-◌, ◌^◌, ◌%◌, Bool, true, false, ◌==◌, ltb, if◌then◌else◌, Option, none, some, List, [],
  ◌∷◌, ◌||◌, ◌&&◌, not, is_none,
}
use eddy.Base.Mem.{Mem, move}
use eddy.Base.Result.{Error, ok, rdonly, key_match}
use eddy.Bpt.{Bpt, Keyed, key_max, branch_key, leaf_order}
use eddy.Bpt.Leaf.{Cursor, close_slot, leaf_key}
use eddy.Bpt.Txn.{
  Node, Place, Txn, M, ◌>>=◌, ◌>>◌, pure, fail, attempt, page, write, on_result, on_option,
  set_page, own,
}
use eddy.Bpt.Parent.{set_node}
use eddy.Bpt.Insert.{insert_into_leaf}

-- `struct EdTxnDb`, but for the root and the entry's size. `find` is the current leaf and slot,
-- with which `entry` is `data + esize * entry_index`; `start` is the first entry's page and slot.
pub record Db : Type 0 where
  pub find : Option Place
  pub key : ℕ
  pub kmin : ℕ
  pub kmax : ℕ
  pub start : Option (ℕ × ℕ)
  pub nsplits : ℕ
  pub matched : Bool
  pub nmatches : ℕ
  pub nloops : ℕ
  pub haskey : Bool
  pub hasfind : Bool
  pub hasentry : Bool

-- `uint64_t` subtraction of 1.
abbrev pub pred64 : ℕ → ℕ
pred64 k = (k + 2 ^ 64 - 1) % 2 ^ 64

-- `find_kmax`
unfoldable pub find_kmax : {E : Type 0} → Mem (Bpt E) → Node → List Node → ℕ
find_kmax pages node [] = key_max
find_kmax pages node (p ∷ ps) =
    if ltb node.pindex (pages p.no).nkeys
    then pred64 (branch_key (pages p.no) (node.pindex + 1))
    else find_kmax pages p ps

-- `ed_txn_isrdonly`
abbrev pub txn_isrdonly : {E : Type 0} → Txn E → Bool
txn_isrdonly t = not (is_none t.error) || t.isrdonly

abbrev pub entry_index : Option Place → ℕ
entry_index none = 0
entry_index (some at) = at.eidx

-- The end of `ed_bpt_set`, by the return code of the insertion.
unfoldable pub set_done : Db → ℕ → Place → Db
set_done db key at = record db {
  find = some at;
  key = key;
  kmax = key;
  nsplits = 0;
  matched = true;
  nmatches = 1;
  nloops = 0;
  haskey = true;
  hasentry = true;
}

unfoldable pub set_error : {E : Type 0} → Error → M E (Unit {0})
set_error x t = (ok tt, record t { error = some x })

module _ {E : Type 0} ⦃e : Keyed E⦄ (page_size : ℕ) where
  -- The call of `insert_into_leaf` in `ed_bpt_set`; a failure is recorded in the transaction.
  unfoldable pub set_entry : Db → E → Bool → M E Place
  set_entry db ent replace = do
    let c : Cursor = record {
      key = db.key;
      entry_index = entry_index db.find;
      nmatches = db.nmatches;
    }
    r ← attempt (insert_into_leaf page_size c db.find ent (replace && db.matched))
    on_result r (λ x. do set_error x; fail x) pure

  -- `ed_bpt_set`
  unfoldable pub bpt_set : Db → E → Bool → M E Db
  bpt_set db ent replace t =
      let key = e.key_of ent in
      let out = not db.hasfind || ltb key db.kmin || ltb db.kmax key in
      (if txn_isrdonly t
          then fail rdonly
          else if out
          then fail key_match
          else do at ← set_entry db ent replace; pure (set_done db key at))
        t

  -- The part of `ed_bpt_del` that brings the leaf into the transaction.
  unfoldable pub own_leaf : Place → M E Place
  own_leaf at = do
    src ← page at.leaf.no
    (pg, cloned) ← own at.leaf.no
    if cloned
        then (do
          l ← page pg
          let n = leaf_order page_size e.esize
          write pg (record l { ents = move l.ents 0 src.ents 0 n })
          (rc, ps) ← set_node (record at.leaf { no = pg }) at.parents
          on_option rc (pure (record at { leaf = record at.leaf { no = pg }; parents = ps })) fail)
        else pure (record at { leaf = record at.leaf { no = pg } })

  -- The removal of the entry from the leaf, and the new upper bound of keys.
  unfoldable pub remove : Place → M E ℕ
  remove at t =
      let l = t.pages at.leaf.no in
      let ents = close_slot l.ents at.eidx l.nkeys in
      let nkeys = if l.nkeys == 1 then 0 else (l.nkeys + 2 ^ 16 - 1) % 2 ^ 16 in
      let t' = set_page t at.leaf.no (record l { nkeys = nkeys; ents = ents }) in
      (
        ok (
            if at.eidx == nkeys
            then find_kmax t'.pages at.leaf at.parents
            else leaf_key ents at.eidx),
        t',
      )

  -- `ed_bpt_del`; the number is the return value.
  unfoldable pub bpt_del : Db → M E (ℕ × Db)
  bpt_del db t =
      (if txn_isrdonly t || not db.hasfind
          then fail rdonly
          else if not db.hasentry
          then pure (0, db)
          else on_option db.find (pure (0, db)) λ at. do
            at' ← own_leaf at
            kmax ← remove at'
            pure (1, record db { find = some at'; kmax = kmax; nmatches = 0; hasentry = false }))
        t
