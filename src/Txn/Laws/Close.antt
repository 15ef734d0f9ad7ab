-- ===== src/Txn/Laws/Close.antt =====
-- What a transaction leaves behind: `ed_txn_close` with a reset, and `ed_txn_commit`.
use eddy.Base.{
  ℕ, min, ltb, ◌<◌, ◌≡◌, refl, ap, ◌∙◌, true, false, ◌==◌, arith, Option, none, some, List, [],
  length, take, drop, Bool-cases, inl, inr,
}
use eddy.Base.Mem.{Mem, slice, put_at}
use eddy.Base.Result.{Error}
use eddy.Idx.{Conn}
use eddy.Idx.Slots.{idx_release_xid}
use eddy.Txn.{
  Transaction, opened, committed, Store, Env, free_pages, array_of, flush_active, is_rdonly,
  txn_isopen,
}
use eddy.Txn.Close.{
  pending_max, emptied, set_pending, return_pages, release, hold_lock, txn_close, publish,
  after_free_gc, root_no, txn_commit,
}
use eddy.Txn.Laws.Lists.{
  slice-array_of, IsIdle, IsWriting, free_pages-hdr, flush_active-nactive, flush_active-conns,
}

-- The pages that a reset keeps, and those that it returns.
abbrev pub kept_pages : List ℕ → List ℕ
kept_pages pgs = take (min pending_max (length pgs)) pgs

abbrev pub returned_pages : List ℕ → List ℕ
returned_pages pgs = drop (min pending_max (length pgs)) pgs

module _ (env : Env) where
  -- The transaction after a reset.
  abbrev pub idle_txn : Transaction → Transaction
  idle_txn t = emptied (record t { pg = kept_pages t.pg })

  return_pages-IsIdle :
      (t : Transaction) (st : Store) (rc : Option Error) (st2 : Store)
      → free_pages env 0
          (returned_pages t.pg)
          (set_pending env true (kept_pages t.pg) (flush_active st))
        ≡ some (rc, st2)
      → (st.hdr.conns env.own).xid ≡ 0
      → (return_pages env true t st ≡ some (some (idle_txn t), record st2 { locked = false }))
        × IsIdle env (idle_txn t) (record st2 { locked = false })
  unfolding return_pages set_pending
  return_pages-IsIdle t st rc st2 got idle =
      let kept = kept_pages t.pg in
      let mid = set_pending env true kept (flush_active st) in
      let same = free_pages-hdr env 0 (returned_pages t.pg) mid rc st2 got in
      let c0 = (flush_active st).hdr.conns env.own in
      let c : Conn = record c0 { npending = length kept; pending = array_of kept c0.pending } in
      let slot : st2.hdr.conns env.own ≡ c =
        ap (λ s. s.hdr.conns env.own) same ∙ put_at (flush_active st).hdr.conns env.own c in
      (
        rw (return_pages, got) refl,
        record {
          state = refl;
          error = refl;
          pending = ap (λ k. slice k.pending 0 k.npending) slot ∙ slice-array_of kept c0.pending;
          inactive = ap (λ s. s.hdr.nactive) same ∙ flush_active-nactive st;
          no_xid = ap (λ k. k.xid) slot ∙ ap (λ f. (f env.own).xid) (flush_active-conns st) ∙ idle;
          unlocked = refl;
        },
      )

  -- The store between the steps of `ed_txn_close` of an open transaction for writing.
  abbrev pub released : Store → Store
  released st = record st { hdr = idx_release_xid env.epoch env.at env.own st.hdr }

  released-xid : (st : Store) → ((released st).hdr.conns env.own).xid ≡ 0
  unfolding idx_release_xid
  released-xid st =
      let c = st.hdr.conns env.own in
      elim (Bool-cases (ltb 0 c.xid)) [
        | inl held ↦ rw held (ap (λ k. k.xid) (put_at st.hdr.conns env.own _))
        | inr no_xid ↦ rw no_xid (ground arith)
      ]

  -- The fields of the header that a snapshot reads.
  abbrev snapshot_fields : Store → ℕ × ℕ × Mem ℕ
  snapshot_fields st = (st.hdr.xid, st.hdr.vno, st.hdr.tree)

  set_pending-snapshot :
      (kept : List ℕ) (st : Store)
      → snapshot_fields (set_pending env true kept st) ≡ snapshot_fields st
  unfolding set_pending
  set_pending-snapshot kept st = refl

  flush_active-snapshot : (st : Store) → snapshot_fields (flush_active st) ≡ snapshot_fields st
  unfolding flush_active
  flush_active-snapshot st = elim (Bool-cases (st.hdr.nactive == 0)) [
    | inl z ↦ rw z refl
    | inr s ↦ rw s refl
  ]

  released-snapshot : (st : Store) → snapshot_fields (released st) ≡ snapshot_fields st
  unfolding idx_release_xid
  released-snapshot st = elim (Bool-cases (ltb 0 (st.hdr.conns env.own).xid)) [
    | inl z ↦ rw z refl
    | inr s ↦ rw s refl
  ]

  -- A transaction that is open for writing, with its state spelled out.
  abbrev writing : Transaction → Transaction
  writing t = record t { state = opened; isrdonly = false; error = none }

  writing_eq :
      (t : Transaction) → t.state ≡ opened → t.isrdonly ≡ false → t.error ≡ none → t ≡ writing t
  writing_eq t state wr fine =
      ap (λ s. record t { state = s }) state
      ∙ ap (λ b. record t { state = opened; isrdonly = b }) wr
      ∙ ap (λ x. record t { state = opened; isrdonly = false; error = x }) fine

  -- The transaction when `ed_txn_commit` closes it.
  abbrev to_close : Transaction → Transaction
  to_close t = record (writing t) {
    pg = drop t.npgused t.pg;
    npgused = 0;
    gc = [];
    state = committed;
  }

  commit_eq :
      (t : Transaction) (st : Store) (rc1 : Option Error) (st1 : Store)
      → free_pages env t.xid t.gc (publish t (flush_active st)) ≡ some (rc1, st1)
      → txn_commit env true (writing t) st ≡ after_free_gc env true (to_close t) (some (rc1, st1))
  unfolding txn_commit is_rdonly
  commit_eq t st rc1 st1 got = ap (after_free_gc env true (to_close t)) got

  close_eq :
      (t : Transaction) (st1 : Store) (rc2 : Option Error) (st2 : Store)
      → let left = drop t.npgused t.pg in
        free_pages env 0
            (returned_pages left)
            (set_pending env true (kept_pages left) (flush_active (released st1)))
          ≡ some (rc2, st2)
        → (txn_close env true (to_close t) st1
            ≡ some (some (idle_txn (to_close t)), record st2 { locked = false }))
          × IsIdle env (idle_txn (to_close t)) (record st2 { locked = false })
  unfolding txn_close hold_lock release txn_isopen
  close_eq t st1 rc2 st2 got =
      return_pages-IsIdle (to_close t) (released st1) rc2 st2 got (released-xid st1)

  -- `ed_txn_commit` with a reset, of a transaction that is open for writing, where both calls of
  -- `ed_free_pgno` return, whether or not with an error: it succeeds. The header then has the
  -- transaction's id, write block and roots. The pages that the transaction has not used stay with it, up
  -- to 11 of them, and are the pending ones of the connection, which has no transaction any more; no page is
  -- active, and the lock is given back.
  pub txn_commit-IsIdle :
      (t : Transaction) (st : Store) (rc1 rc2 : Option Error) (st1 st2 : Store)
      → IsWriting env t st
      → t.error ≡ none
      → let left = drop t.npgused t.pg in
        free_pages env t.xid t.gc (publish t (flush_active st)) ≡ some (rc1, st1)
        → free_pages env 0
            (returned_pages left)
            (set_pending env true (kept_pages left) (flush_active (released st1)))
          ≡ some (rc2, st2)
        → (t' : Transaction) × (st' : Store) × (txn_commit env true t st
            ≡ some (none, some t', st'))
          × IsIdle env t' st'
          × (t'.pg ≡ kept_pages left)
          × (st'.hdr.xid ≡ t.xid)
          × (st'.hdr.vno ≡ t.vno)
          × ((i : ℕ) → i < 2 → st'.hdr.tree i ≡ root_no (t.root i))
  unfolding publish
  txn_commit-IsIdle t st rc1 rc2 st1 st2 w fine got1 got2 =
      let left = drop t.npgused t.pg in
      let (closes, idle) = close_eq t st1 rc2 st2 got2 in
      let mid = set_pending env true (kept_pages left) (flush_active (released st1)) in
      let same = free_pages-hdr env 0 (returned_pages left) mid rc2 st2 got2 in
      let before = free_pages-hdr env t.xid t.gc (publish t (flush_active st)) rc1 st1 got1 in
      let kept : snapshot_fields st2 ≡ snapshot_fields (publish t (flush_active st)) =
        ap snapshot_fields same
        ∙ set_pending-snapshot (kept_pages left) (flush_active (released st1))
        ∙ flush_active-snapshot (released st1)
        ∙ released-snapshot st1
        ∙ ap snapshot_fields before in
      (
        idle_txn (to_close t),
        record st2 { locked = false },
        ap (λ u. txn_commit env true u st) (writing_eq t w.state w.for_writing fine)
            ∙ commit_eq t st rc1 st1 got1
            ∙ rw (after_free_gc, closes) refl,
        idle,
        refl,
        ap (λ f. f.0) kept,
        ap (λ f. f.1) kept,
        λ i lt. ap (λ f. f.2 i) kept ∙ (let below : ltb i 2 ≡ true = ground arith in rw below refl),
      )
