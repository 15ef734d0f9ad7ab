-- ===== src/Txn/Laws/Lists.antt =====
-- The arrays of page numbers in the header and in a connection.
use eddy.Base.{
  ℕ, suc, ◌+◌, ◌≡◌, refl, sym, ap, ◌∙◌, true, false, ◌==◌, arith, Option, none, some, List, [], ◌∷◌,
  length, Bool-cases, inl, inr, is_none,
}
use mathlib.Core.Bool.{true≢false}
use eddy.Base.Mem.{Mem, slice, slice_ext}
use eddy.Base.Result.{Error}
use eddy.Pg.{Index}
use eddy.Txn.{
  Transaction, closed, opened, Store, Env, Step, freed, free_pages, array_of, flush_active,
}

-- An array from a list holds the list.
pub slice-array_of : (xs : List ℕ) (old : Mem ℕ) → slice (array_of xs old) 0 (length xs) ≡ xs
slice-array_of [] old = refl
slice-array_of (x ∷ xs) old =
    ap (λ l. x ∷ l)
      (slice_ext (array_of (x ∷ xs) old) (array_of xs (λ k. old (k + 1))) 1 0 (length xs)
          (λ k p. let one : 1 + k ≡ suc (0 + k) = omega arith in ap (array_of (x ∷ xs) old) one)
        ∙ slice-array_of xs (λ k. old (k + 1)))

module _ (env : Env) where
  -- The pages of the process that stand in its connection, and in the header.
  abbrev pub pending_list : Store → List ℕ
  pending_list st = let c = st.hdr.conns env.own in slice c.pending 0 c.npending

  abbrev pub active_list : Store → List ℕ
  active_list st = slice st.hdr.active 0 st.hdr.nactive

  -- Between transactions: the pages kept by the transaction are pending.
  pub record IsIdle (t : Transaction) (st : Store) : Type 0 where
    pub state : t.state ≡ closed
    pub error : t.error ≡ none
    pub pending : pending_list st ≡ t.pg
    pub inactive : st.hdr.nactive ≡ 0
    pub no_xid : (st.hdr.conns env.own).xid ≡ 0
    pub unlocked : st.locked ≡ false

  -- Open for writing: the transaction's pages are active.
  pub record IsWriting (t : Transaction) (st : Store) : Type 0 where
    pub state : t.state ≡ opened
    pub for_writing : t.isrdonly ≡ false
    pub active : active_list st ≡ t.pg
    pub npending : (st.hdr.conns env.own).npending ≡ 0
    pub next_xid : t.xid ≡ st.hdr.xid + 1
    pub snapshot : (st.hdr.conns env.own).xid ≡ st.hdr.xid
    pub locked : st.locked ≡ true

  -- `ed_free_pgno` changes the gc pages only.
  freed-hdr :
      (st : Store) (r : Option (Option Error × Index)) (rc : Option Error) (st' : Store)
      → freed env st r ≡ some (rc, st')
      → st' ≡ record st { index = st'.index }
  freed-hdr st none rc st' eq = absurd (true≢false (ap is_none eq))
  freed-hdr st (some (x, idx)) rc st' eq =
      let same : record st { index = idx } ≡ st' = ap store_of eq in
      sym same ∙ ap (λ s. record st { index = s.index }) same
    where
      store_of : Step → Store
      store_of none = st
      store_of (some r) = r.1

  pub free_pages-hdr :
      (xid : ℕ) (pgs : List ℕ) (st : Store) (rc : Option Error) (st' : Store)
      → free_pages env xid pgs st ≡ some (rc, st')
      → st' ≡ record st { index = st'.index }
  unfolding free_pages
  free_pages-hdr xid pgs st rc st' eq = freed-hdr st _ rc st' eq

pub flush_active-nactive : (st : Store) → (flush_active st).hdr.nactive ≡ 0
unfolding flush_active
flush_active-nactive st = elim (Bool-cases (st.hdr.nactive == 0)) [
  | inl z ↦ rw z (ground arith)
  | inr s ↦ rw s refl
]

pub flush_active-conns : (st : Store) → (flush_active st).hdr.conns ≡ st.hdr.conns
unfolding flush_active
flush_active-conns st = elim (Bool-cases (st.hdr.nactive == 0)) [
  | inl z ↦ rw z refl
  | inr s ↦ rw s refl
]
