-- ===== src/Txn/Close.antt =====
-- lib/txn.c: `ed_txn_commit`, `ed_txn_close`, and the slab's write block.
--
-- Pages are unmapped and synced without a trace in the model; the trees' root pages that stay mapped
-- for a next snapshot (`txn->roots`) are a cache, which is left out.
use eddy.Base.{
  ℕ, min, ltb, Bool, true, false, not, ◌&&◌, if◌then◌else◌, Option, none, some, List, [], length,
  take, drop,
}
use eddy.Base.Result.{Error, Result, ok, err, rdonly, txn_closed}
use eddy.Bpt.{pg_none}
use eddy.Bpt.Edit.{Db}
use eddy.Idx.Slots.{idx_release_xid}
use eddy.Txn.{
  TxnState, closed, committed, cancelled, is_closed, Transaction, Store, Env, Step, free_pages,
  set_conn, array_of, flush_active, is_rdonly, txn_isopen,
}

-- `ed_len(conn->pending)`
abbrev pub pending_max : ℕ
pending_max = 11

-- A cursor after a reset; `hasentry` stays.
abbrev pub db_reset : Db → Db
db_reset d = record d {
  find = none;
  key = 0;
  kmin = 0;
  kmax = 0;
  start = none;
  nsplits = 0;
  matched = false;
  nmatches = 0;
  nloops = 0;
  haskey = false;
  hasfind = false;
}

-- The outcome of `ed_txn_close`: the transaction is freed unless it is reset.
abbrev pub Closing : Type 0
Closing = Option (Option Transaction × Store)

-- A root's page, for the header.
abbrev pub root_no : Option ℕ → ℕ
root_no none = pg_none
root_no (some pg) = pg

-- The fields that a reset clears.
abbrev pub emptied : Transaction → Transaction
emptied t = record t {
  npgused = 0;
  gc = [];
  xid = 0;
  state = closed;
  error = none;
  root = λ i. none;
  db = λ i. db_reset (t.db i);
}

-- The end of `ed_txn_close`.
abbrev pub reset_txn : Bool → Transaction → Option Transaction
reset_txn reset t = if reset then some (emptied t) else none

-- The header with the transaction's trees, id and write block; `vtree` is the first two trees.
unfoldable pub publish : Transaction → Store → Store
publish t st =
    let h = st.hdr in
    record st {
      hdr = record h {
        tree = λ i. if ltb i 2 then root_no (t.root i) else h.tree i;
        xid = t.xid;
        vno = t.vno;
      };
    }

module _ (env : Env) where
  -- `conn->pending`: the pages kept for the next transaction, or none.
  unfoldable pub set_pending : Bool → List ℕ → Store → Store
  set_pending reset kept st =
      let c = st.hdr.conns env.own in
      set_conn env.own
        (if reset
          then record c { npending = length kept; pending = array_of kept c.pending }
          else record c { npending = 0; pending = λ i. pg_none })
        st

  abbrev pub unlocked : Bool → Transaction → Step → Closing
  unlocked reset t none = none
  unlocked reset t (some (rc, st)) = some (reset_txn reset t, record st { locked = false })

  -- `if (locked)`: an error of `ed_free` is dropped.
  unfoldable pub return_pages : Bool → Transaction → Store → Closing
  unfolding set_pending free_pages flush_active
  return_pages reset t st =
      let keep = if reset then min pending_max (length t.pg) else 0 in
      let kept = take keep t.pg in
      unlocked reset (if reset then record t { pg = kept } else t)
        (free_pages env 0 (drop keep t.pg) (set_pending reset kept (flush_active st)))

  -- `ed_idx_release_xid` or `ed_idx_release_snapshot`.
  unfoldable pub release : Bool → TxnState → Store → Store
  unfolding idx_release_xid
  release reset state st =
      if reset && is_closed state
      then st
      else record st { hdr = idx_release_xid env.epoch env.at env.own st.hdr }

  -- Whether the lock is held, or else taken for the pages that are left.
  abbrev pub relock : Option Error → Transaction → Store → Bool × Store
  relock (some x) t st = (false, st)
  relock none t st = (true, record st { locked = true })

  unfoldable pub hold_lock : Transaction → Store → Bool × Store
  hold_lock t st =
      if not (is_closed t.state) && not t.isrdonly
      then (true, st)
      else if ltb 0 (length t.pg)
      then relock env.lock_error t st
      else (false, st)

  -- `ed_txn_close` with the flag `ED_FRESET`.
  unfoldable pub txn_close : Bool → Transaction → Store → Closing
  unfolding hold_lock release return_pages txn_isopen
  txn_close reset t st =
      let t' = record t { state = if txn_isopen t then cancelled else t.state } in
      let r = hold_lock t' st in
      let st' = release reset t'.state r.1 in
      if r.0 then return_pages reset t' st' else some (reset_txn reset t', st')

  abbrev pub after_free_gc :
      Bool → Transaction → Step → Option (Option Error × Option Transaction × Store)
  after_free_gc reset t none = none
  after_free_gc reset t (some (rc, st)) = elim (txn_close reset t st) [
    | none ↦ none
    | some r ↦ some (none, r.0, r.1)
  ]

  -- `ed_txn_commit`; an error of `ed_free_pgno` is dropped.
  unfoldable pub txn_commit :
      Bool → Transaction → Store → Option (Option Error × Option Transaction × Store)
  unfolding flush_active publish free_pages txn_close is_rdonly
  txn_commit reset t st =
      if is_closed t.state
      then some (some txn_closed, some t, st)
      else if is_rdonly t
      then (elim (txn_close reset t st) [ none ↦ none | some r ↦ some (some rdonly, r.0, r.1) ])
      else let t' = record t { pg = drop t.npgused t.pg; npgused = 0 } in
        after_free_gc reset (record t' { gc = []; state = committed })
          (free_pages env t.xid t.gc (publish t (flush_active st)))

-- `ed_txn_vno` and `ed_txn_set_vno`
unfoldable pub txn_vno : Transaction → Store → Result ℕ
unfolding is_rdonly
txn_vno t st =
    if is_closed t.state then err txn_closed else if is_rdonly t then ok st.hdr.vno else ok t.vno

unfoldable pub txn_set_vno : ℕ → Transaction → Option Error × Transaction
unfolding is_rdonly
txn_set_vno vno t =
    if is_closed t.state
    then (some txn_closed, t)
    else if t.isrdonly
    then (some rdonly, t)
    else if is_rdonly t
    then (some rdonly, t)
    else (none, record t { vno = vno })
