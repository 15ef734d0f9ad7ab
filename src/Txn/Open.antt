-- ===== src/Txn/Open.antt =====
-- lib/txn.c: `ed_txn_open`.
--
-- On an error the transaction is returned as far as it was changed, with the lock in the state the code
-- leaves it in.
use eddy.Base.{
  ℕ, zero, suc, ◌+◌, Bool, true, false, not, ◌==◌, if◌then◌else◌, Option, none, some, List, [], ◌∷◌,
  length,
}
use eddy.Base.Mem.{Mem, slice}
use eddy.Base.Result.{Error, Result, ok, err, sys}
use eddy.Bpt.{pg_none}
use eddy.Idx.{Conn, Hdr}
use eddy.Idx.Slots.{idx_acquire_snapshot}
use eddy.Txn.{opened, is_closed, Transaction, Store, Env, Step, free_pages, set_conn, array_of}

-- `j` behind the inner loop over `txn->pg`, whose condition is that of the `break`: it does not go on.
abbrev pub pending_place : ℕ → List ℕ → ℕ → ℕ
pending_place pg [] j = j
pending_place pg (p ∷ ps) j = j

-- The outer loop: the pages that are returned to the free list.
abbrev pub inactive_pages : List ℕ → List ℕ → List ℕ
inactive_pages pgs [] = []
inactive_pages pgs (p ∷ pending) =
    let rest = inactive_pages pgs pending in
    if pending_place p pgs 0 == length pgs then p ∷ rest else rest

-- The roots that a snapshot has loaded.
abbrev pub root_of : List (Option ℕ) → Mem (Option ℕ)
root_of [] i = none
root_of (r ∷ rs) zero = r
root_of (r ∷ rs) (suc i) = root_of rs i

-- The outcome of `ed_txn_open`.
abbrev pub Opening : Type 0
Opening = Option (Option Error × Transaction × Store)

module _ (env : Env) where
  abbrev pub own_conn : Store → Conn
  own_conn st = st.hdr.conns env.own

  -- The active pages of an abandoned transaction are freed.
  abbrev pub reclaimed : Store → Step → Step
  reclaimed st none = none
  reclaimed st (some (some x, st')) = some (some x, record st' { hdr = st.hdr; locked = false })
  reclaimed st (some (none, st')) =
      some (none, record st' { hdr = record st'.hdr { active = λ i. pg_none } })

  unfoldable pub reclaim_active : Store → Step
  unfolding free_pages
  reclaim_active st =
      let h = st.hdr in
      if h.nactive == 0
      then some (none, st)
      else reclaimed st (
          free_pages env 0 (slice h.active 0 h.nactive)
            (record st { hdr = record h { nactive = 0 } }))

  -- `hdr->active` and `hdr->nactive` are set to the pages of the transaction.
  unfoldable pub set_active : List ℕ → Store → Store
  set_active pgs st = if length pgs == 0 then st else record st {
    hdr = record st.hdr { active = array_of pgs st.hdr.active; nactive = length pgs };
  }

  -- The pending pages are split; an error of `ed_free_pgno` is dropped.
  abbrev pub activated : List ℕ → Step → Option Store
  activated pgs none = none
  activated pgs (some (rc, st)) = some (set_active pgs st)

  -- The pending list is emptied.
  unfoldable pub clear_pending : Store → Store
  clear_pending st =
      let c = own_conn st in
      if c.npending == 0
      then st
      else set_conn env.own (record c { npending = 0; pending = λ i. pg_none }) st

  unfoldable pub split_pending : List ℕ → Store → Option Store
  unfolding free_pages set_active clear_pending
  split_pending pgs st =
      let c = own_conn st in
      let inactive = inactive_pages pgs (slice c.pending 0 c.npending) in
      activated pgs (free_pages env 0 inactive (clear_pending st))

  -- The end of the function.
  abbrev pub finished : Bool → Bool → Transaction → Store → Opening
  finished rdonly nolock t st =
      some (none, record t { nolock = nolock; isrdonly = rdonly; state = opened }, st)

  abbrev pub after_split : Bool → Transaction → Option Store → Opening
  after_split nolock t none = none
  after_split nolock t (some st) = finished false nolock t st

  abbrev pub after_reclaim : Bool → Transaction → Step → Opening
  after_reclaim nolock t none = none
  after_reclaim nolock t (some (some x, st)) = some (some x, t, st)
  after_reclaim nolock t (some (none, st)) = after_split nolock t (split_pending t.pg st)

  -- The part for writing, behind the snapshot.
  unfoldable pub open_write : Bool → Transaction → Store → Opening
  unfolding reclaim_active split_pending
  open_write nolock t st =
      after_reclaim nolock (record t { xid = st.hdr.xid + 1; vno = st.hdr.vno }) (reclaim_active st)

  abbrev pub with_roots : Transaction → List (Option ℕ) → Transaction
  with_roots t roots =
      let root = root_of roots in
      record t {
        root = root;
        db = λ i. record (t.db i) {
          find = elim (root i) [
            | none ↦ none
            | some pg ↦
                some (record { leaf = record { no = pg; pindex = 0 }; parents = []; eidx = 0 })
          ];
        };
      }

  abbrev pub after_snapshot :
      Bool → Bool → Transaction → Store → Result (List (Option ℕ)) × Hdr → Opening
  after_snapshot rdonly nolock t st (err x, h) = some (some x, t, record st { hdr = h })
  after_snapshot rdonly nolock t st (ok roots, h) =
      let t' = with_roots t roots in
      let st' = record st { hdr = h } in
      if rdonly then finished true nolock t' st' else open_write nolock t' st'

  abbrev pub open_locked : Bool → Bool → Transaction → Store → Opening
  open_locked rdonly nolock t st =
      after_snapshot rdonly nolock t st
        (idx_acquire_snapshot env.root_error env.epoch env.at env.own st.hdr)

  abbrev pub after_lock : Option Error → Bool → Transaction → Store → Opening
  after_lock (some x) nolock t st = some (some x, t, st)
  after_lock none nolock t st = open_locked false nolock t (record st { locked = true })

  -- `ed_txn_open` with the flags `ED_FRDONLY` and `ED_FNOTLCK`.
  unfoldable pub txn_open : Bool → Bool → Transaction → Store → Opening
  unfolding idx_acquire_snapshot open_write
  txn_open rdonly nolock t st =
      if not (is_closed t.state)
      then some (some (sys 22), t, st)
      else if rdonly
      then open_locked true nolock t st
      else after_lock env.lock_error nolock t st
