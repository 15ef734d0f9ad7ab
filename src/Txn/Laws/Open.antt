-- ===== src/Txn/Laws/Open.antt =====
-- What `ed_txn_open` makes of the pages that a transaction has kept.
use eddy.Base.{
  ℕ, suc, ◌+◌, ◌≡◌, ◌<◌, refl, sym, ap, ◌∙◌, Bool, true, false, not, ◌==◌, arith, if◌then◌else◌,
  Option, none, some, List, [], ◌∷◌, length, Bool-cases, inl, inr,
}
use eddy.Base.Mem.{slice, put_at}
use eddy.Base.Result.{ok, sys}
use eddy.Bpt.{pg_none}
use eddy.Pg.{Index}
use eddy.Pg.Free.{free_pgno}
use eddy.Idx.{Conn}
use eddy.Idx.Slots.{idx_acquire_snapshot, idx_acquire_xid}
use eddy.Idx.Laws.Snapshot.{idx_acquire_snapshot-idx_acquire_xid}
use eddy.Time.{time_from_unix}
use eddy.Txn.{Transaction, opened, Store, Env, free_pages, is_closed}
use eddy.Txn.Open.{
  inactive_pages, set_active, split_pending, activated, clear_pending, reclaim_active, open_write,
  with_roots, after_snapshot, after_split, after_reclaim, after_lock, txn_open,
}
use eddy.Txn.Laws.Lists.{slice-array_of, pending_list, active_list, IsIdle, IsWriting}

module _ (env : Env) where
  -- No page: `ed_free_pgno` does nothing.
  free_pages_nil : (st : Store) → free_pages env 0 [] st ≡ some (none, st)
  unfolding free_pages free_pgno
  free_pages_nil st = refl

  -- If the pending pages are those of the transaction, none of them is inactive.
  inactive_nil : (pgs pending : List ℕ) → 0 < length pgs → inactive_pages pgs pending ≡ []
  inactive_nil [] pending lt = absurd (omega (arith, lt))
  inactive_nil (p ∷ ps) [] lt = refl
  inactive_nil (p ∷ ps) (q ∷ pending) lt =
      let test : (0 == suc (length ps)) ≡ false = ground arith in
      rw test (inactive_nil (p ∷ ps) pending lt)

  inactive_same : (pgs : List ℕ) → inactive_pages pgs pgs ≡ []
  inactive_same [] = refl
  inactive_same (p ∷ ps) = inactive_nil (p ∷ ps) (p ∷ ps) (omega arith)

  set_active-active_list :
      (pgs : List ℕ) (st : Store)
      → st.hdr.nactive ≡ 0
      → active_list env (set_active env pgs st) ≡ pgs
  unfolding set_active
  set_active-active_list [] st z = ap (λ n. slice st.hdr.active 0 n) z
  set_active-active_list (p ∷ ps) st z =
      let test : (suc (length ps) == 0) ≡ false = ground arith in
      rw (set_active, test) (slice-array_of (p ∷ ps) st.hdr.active)

  -- What the steps behind the snapshot leave alone: the ids of the header and of the connection,
  -- the lock, and the gc pages with their lists.
  abbrev kept : Store → ℕ × ℕ × Bool × Index
  kept st = (st.hdr.xid, (st.hdr.conns env.own).xid, st.locked, st.index)

  set_active-kept :
      (pgs : List ℕ) (st : Store)
      → (kept (set_active env pgs st) ≡ kept st)
        × ((set_active env pgs st).hdr.conns ≡ st.hdr.conns)
  unfolding set_active
  set_active-kept pgs st = elim (Bool-cases (length pgs == 0)) [
    | inl z ↦ rw z (refl, refl)
    | inr s ↦ rw s (refl, refl)
  ]

  clear_pending-kept :
      (st : Store)
      → (kept (clear_pending env st) ≡ kept st)
        × (((clear_pending env st).hdr.conns env.own).npending ≡ 0)
        × ((clear_pending env st).hdr.nactive ≡ st.hdr.nactive)
  unfolding clear_pending
  clear_pending-kept st =
      let c = st.hdr.conns env.own in
      elim (Bool-cases (c.npending == 0)) [
        | inl z ↦ rw z (refl, ground arith, refl)
        | inr s ↦
            let slot =
              put_at st.hdr.conns env.own (record c { npending = 0; pending = λ i. pg_none }) in
            rw s (
              ap (λ k. (st.hdr.xid, k.xid, st.locked, st.index)) slot,
              ap (λ k. k.npending) slot,
              refl,
            )
      ]

  split_pending_eq :
      (pgs : List ℕ) (st : Store)
      → pending_list env st ≡ pgs
      → split_pending env pgs st ≡ some (set_active env pgs (clear_pending env st))
  unfolding split_pending
  split_pending_eq pgs st eq =
      ap (λ l. activated env pgs (free_pages env 0 (inactive_pages pgs l) (clear_pending env st)))
        eq
      ∙ ap (λ l. activated env pgs (free_pages env 0 l (clear_pending env st))) (inactive_same pgs)
      ∙ ap (activated env pgs) (free_pages_nil (clear_pending env st))

  reclaim_active-none : (st : Store) → st.hdr.nactive ≡ 0 → reclaim_active env st ≡ some (none, st)
  unfolding reclaim_active
  reclaim_active-none st z = let test : (st.hdr.nactive == 0) ≡ true = ground arith in rw test refl

  -- Behind the snapshot.
  open_write-IsWriting :
      (nolock : Bool) (t : Transaction) (st : Store)
      → st.hdr.nactive ≡ 0
      → pending_list env st ≡ t.pg
      → (st.hdr.conns env.own).xid ≡ st.hdr.xid
      → st.locked ≡ true
      → (t' : Transaction) × (st' : Store) × (open_write env nolock t st ≡ some (none, t', st'))
        × IsWriting env t' st'
        × (t'.pg ≡ t.pg)
        × (st'.index ≡ st.index)
  unfolding open_write
  open_write-IsWriting nolock t st none_active pending snapshot lock =
      let u : Transaction = record t { xid = st.hdr.xid + 1; vno = st.hdr.vno } in
      let mid = clear_pending env st in
      let st' = set_active env t.pg mid in
      let (same1, cleared, active1) = clear_pending-kept st in
      let (same2, conns2) = set_active-kept t.pg mid in
      let same = same2 ∙ same1 in
      (
        record u { nolock = nolock; isrdonly = false; state = opened },
        st',
        ap (after_reclaim env nolock u) (reclaim_active-none st none_active)
            ∙ ap (after_split env nolock u) (split_pending_eq t.pg st pending),
        record {
          state = refl;
          for_writing = refl;
          active = set_active-active_list t.pg mid (active1 ∙ none_active);
          npending = ap (λ f. (f env.own).npending) conns2 ∙ cleared;
          next_xid = ap (λ k. k + 1) (sym (ap (λ k. k.0) same));
          snapshot = ap (λ k. k.1) same ∙ snapshot ∙ sym (ap (λ k. k.0) same);
          locked = ap (λ k. k.2) same ∙ lock;
        },
        refl,
        ap (λ k. k.3) same,
      )

  -- `ed_txn_open` for writing, of a transaction that has kept the pages pending in its connection, with the
  -- lock granted, the roots loaded, and no page of an abandoned transaction active: it succeeds, the
  -- transaction gets the id behind the header's, its pages are all active instead of pending, the gc
  -- pages and the pages that they list stay as they are, so none is freed, and the connection has the
  -- header's transaction id.
  pub txn_open-IsWriting :
      (nolock : Bool) (t : Transaction) (st : Store) (roots : List (Option ℕ))
      → IsIdle env t st
      → env.lock_error ≡ none
      → (idx_acquire_snapshot env.root_error env.epoch env.at env.own st.hdr).0 ≡ ok roots
      → (t' : Transaction) × (st' : Store) × (txn_open env false nolock t st ≡ some (none, t', st'))
        × IsWriting env t' st'
        × (t'.pg ≡ t.pg)
        × (st'.index ≡ st.index)
  unfolding txn_open idx_acquire_xid
  txn_open-IsWriting nolock t st roots idle lock loaded =
      let c : Conn = record (st.hdr.conns env.own) {
        xid = st.hdr.xid;
        active = time_from_unix env.epoch env.at;
      } in
      let h = (idx_acquire_xid env.epoch env.at env.own st.hdr).1 in
      let held : Store = record st { locked = true } in
      let mid : Store = record st { locked = true; hdr = h } in
      let slot : mid.hdr.conns env.own ≡ c = put_at st.hdr.conns env.own c in
      let snapshot =
        idx_acquire_snapshot-idx_acquire_xid env.root_error env.epoch env.at env.own st.hdr roots
          loaded in
      let (t', st', eq, writes, pages, lists) =
        open_write-IsWriting nolock (with_roots env t roots) mid idle.inactive
          (ap (λ k. slice k.pending 0 k.npending) slot ∙ idle.pending) (ap (λ k. k.xid) slot)
          refl in
      let free : (not (is_closed t.state)) ≡ false = ap (λ s. not (is_closed s)) idle.state in
      (
        t',
        st',
        ap
              (λ b.
                if b
                then some (some (sys 22), t, st)
                else after_lock env env.lock_error nolock t st)
              free
            ∙ ap (λ x. after_lock env x nolock t st) lock
            ∙ ap (after_snapshot env false nolock t held) snapshot
            ∙ eq,
        writes,
        pages,
        lists,
      )
