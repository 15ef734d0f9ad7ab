-- ===== src/Idx/Laws/Snapshot.antt =====
-- `ed_idx_acquire_snapshot`, and the bound that `ed_idx_xmin` gives while the snapshot is held.
use eddy.Base.{
  ℕ, zero, suc, ◌+◌, ◌≤◌, ◌<◌, ◌≡◌, ◌≢◌, refl, sym, ap, Bool, ap₂, ◌∙◌, true, false, ltb, ◌==◌,
  arith, Bool-cases, if◌then◌else◌, inl, inr, Option-cases, Option, none, some, List, [], ◌∷◌,
}
use mathlib.Core.Path.{subst}
use mathlib.Core.Bool.{true≢false}
use eddy.Time.{time_from_unix}
use eddy.Base.Int.{ℤ}
use eddy.Base.Mem.{Mem, put, put_at, put_apart}
use eddy.Base.Result.{Error, Result, ok, err}
use eddy.Bpt.{pg_none}
use eddy.Idx.{Conn, Hdr}
use eddy.Idx.Slots.{load_roots, idx_acquire_xid, idx_release_xid, idx_acquire_snapshot, ndb}
use eddy.Idx.Xmin.{is_live, idx_xmin}
use eddy.Idx.Laws.Xmin.{idx_xmin-IsFloor}

not_above : (n : ℕ) → ltb 0 n ≡ false → n ≡ 0
not_above n h = ground arith

-- The roots of `n` trees from tree `i` on.
abbrev pub roots_of : Mem ℕ → ℕ → ℕ → List (Option ℕ)
roots_of tree zero i = []
roots_of tree (suc n) i =
    (if tree i == pg_none then none else some (tree i)) ∷ roots_of tree n (i + 1)

module _ (map_error : ℕ → Option Error) where
  -- The outcomes of `ed_idx_acquire_snapshot` for the connection in slot `i`.
  pub data Snapped (i : ℕ) (h : Hdr) : Result (List (Option ℕ)) × Hdr → Type 0 where
    opened :
        {h' : Hdr}
        → (h'.conns i).xid ≡ h.xid
        → (h'.conns i).pid ≡ (h.conns i).pid
        → ((j : ℕ) → j ≢ i → h'.conns j ≡ h.conns j)
        → Snapped i h (ok (roots_of h.tree ndb 0), h')
    stopped :
        {h' : Hdr} {x : Error} (k : ℕ)
        → k < ndb
        → map_error (h.tree k) ≡ some x
        → (h'.conns i).xid ≡ 0
        → ((j : ℕ) → j ≢ i → h'.conns j ≡ h.conns j)
        → Snapped i h (err x, h')

  abbrev Loads : Mem ℕ → ℕ → ℕ → Result (List (Option ℕ)) → Type 0
  Loads tree n i (ok roots) = roots ≡ roots_of tree n i
  Loads tree n i (err x) = (k : ℕ) × (k < i + n) × (map_error (tree k) ≡ some x)

  -- One root more at the front.
  cons-Loads :
      (tree : Mem ℕ) (n i : ℕ) (root : Option ℕ) (r : Result (List (Option ℕ)))
      → root ≡ (if tree i == pg_none then none else some (tree i))
      → Loads tree n (i + 1) r
      → Loads tree (suc n) i (elim r [ err x ↦ err x | ok roots ↦ ok (root ∷ roots) ])
  cons-Loads tree n i root (ok roots) e all = ap₂ ◌∷◌ e all
  cons-Loads tree n i root (err x) e (k, lt, stop) = (k, omega (arith, lt), stop)

  load_roots-Loads : (tree : Mem ℕ) (n i : ℕ) → Loads tree n i (load_roots map_error tree n i)
  unfolding load_roots
  load_roots-Loads tree zero i = refl
  load_roots-Loads tree (suc n) i =
      let next = load_roots-Loads tree n (i + 1) in
      let rest = load_roots map_error tree n (i + 1) in
      elim (Bool-cases (tree i == pg_none)) [
        | inl no_tree ↦
            subst (Loads tree (suc n) i) (rw (load_roots, no_tree) refl)
              (cons-Loads tree n i none rest (rw no_tree refl) next)
        | inr here ↦ elim (Option-cases (map_error (tree i))) [
          | inl mapped ↦
              subst (Loads tree (suc n) i) (rw (load_roots, here, mapped) refl)
                (cons-Loads tree n i (some (tree i)) rest (rw here refl) next)
          | inr x ↦
              let fails : (k : ℕ) × (k < i + suc n) × (map_error (tree k) ≡ some x.0) =
                (i, omega arith, x.1) in
              let eq : err x.0 ≡ load_roots map_error tree (suc n) i =
                rw (load_roots, here, x.1) refl in
              subst (Loads tree (suc n) i) eq fails
        ]
      ]

  module _ (epoch at : ℤ) (i : ℕ) (h : Hdr) where
    snapshot-Snapped :
        (r : Result (List (Option ℕ)))
        → Loads h.tree ndb 0 r
        → Snapped i h (
            let h' = (idx_acquire_xid epoch at i h).1 in
            elim r [ ok roots ↦ (ok roots, h') | err x ↦ (err x, idx_release_xid epoch at i h') ])
    unfolding idx_acquire_xid idx_release_xid
    snapshot-Snapped (ok roots) all =
        let c : Conn = record (h.conns i) { xid = h.xid; active = time_from_unix epoch at } in
        let mine = put_at h.conns i c in
        rw all (opened (ap (λ k. k.xid) mine) (ap (λ k. k.pid) mine) (put_apart h.conns i c))
    snapshot-Snapped (err x) (k, lt, stop) =
        let active = time_from_unix epoch at in
        let c : Conn = record (h.conns i) { xid = h.xid; active = active } in
        let conns1 = put h.conns i c in
        let c2 : Conn = record (conns1 i) { xid = 0; active = active } in
        let mine = ap (λ k. k.xid) (put_at h.conns i c) in
        elim (Bool-cases (ltb 0 (conns1 i).xid)) [
          | inl held ↦ rw held (
              stopped k lt stop (ap (λ k. k.xid) (put_at conns1 i c2))
                (λ j away. put_apart conns1 i c2 j away ∙ put_apart h.conns i c j away))
          | inr zero_id ↦
              rw zero_id
                (stopped k lt stop (not_above (conns1 i).xid zero_id) (put_apart h.conns i c))
        ]

    -- `ed_idx_acquire_snapshot` for the connection in slot `i`: if it succeeds, it gives the roots of the
    -- header's trees, and the connection has the header's transaction id. If it fails, the page of
    -- some root could not be mapped, and the connection has no transaction. The other slots are as
    -- they were.
    pub idx_acquire_snapshot-Snapped : Snapped i h (idx_acquire_snapshot map_error epoch at i h)
    unfolding idx_acquire_snapshot
    idx_acquire_snapshot-Snapped =
        snapshot-Snapped (load_roots map_error h.tree ndb 0) (load_roots-Loads h.tree ndb 0)

-- After a success the header is that of `ed_idx_acquire_xid`.
pub idx_acquire_snapshot-idx_acquire_xid :
    (map_error : ℕ → Option Error) (epoch at : ℤ) (i : ℕ) (h : Hdr) (roots : List (Option ℕ))
    → (idx_acquire_snapshot map_error epoch at i h).0 ≡ ok roots
    → idx_acquire_snapshot map_error epoch at i h ≡ (ok roots, (idx_acquire_xid epoch at i h).1)
unfolding idx_acquire_snapshot
idx_acquire_snapshot-idx_acquire_xid map_error epoch at i h roots =
    go (load_roots map_error h.tree ndb 0)
  where
    is_ok : Result (List (Option ℕ)) → Bool
    is_ok (ok r) = true
    is_ok (err x) = false

    outcome : Result (List (Option ℕ)) → Result (List (Option ℕ)) × Hdr
    outcome r =
        let h' = (idx_acquire_xid epoch at i h).1 in
        elim r [ ok roots ↦ (ok roots, h') | err x ↦ (err x, idx_release_xid epoch at i h') ]

    go :
        (r : Result (List (Option ℕ)))
        → (outcome r).0 ≡ ok roots
        → outcome r ≡ (ok roots, (idx_acquire_xid epoch at i h).1)
    go (ok r) e = ap (λ q. (q, (idx_acquire_xid epoch at i h).1)) e
    go (err x) e = absurd (true≢false (sym (ap is_ok e)))

module _ {map_error : ℕ → Option Error} {j : ℕ} {h : Hdr} where
  -- What a success says of the slot.
  Snapped-xid :
      {r : Result (List (Option ℕ)) × Hdr} (roots : List (Option ℕ))
      → Snapped map_error j h r
      → r.0 ≡ ok roots
      → ((r.1.conns j).xid ≡ h.xid) × ((r.1.conns j).pid ≡ (h.conns j).pid)
  Snapped-xid roots (opened xid pid apart) e = (xid, pid)
  Snapped-xid roots (stopped {x = x} k lt stop zero_id apart) e =
      absurd (true≢false (sym (ap is_ok e)))
    where
      is_ok : Result (List (Option ℕ)) → Bool
      is_ok (ok r) = true
      is_ok (err x) = false

live_slot : (c : Conn) → 0 < c.pid → 0 < c.xid → is_live c ≡ true
live_slot c pid xid =
    let p : (c.pid == 0) ≡ false = ground arith in
    let x : (c.xid == 0) ≡ false = ground arith in rw (p, x) refl

-- While a process holds a snapshot that `ed_idx_acquire_snapshot` gave it in slot `j`, with the slot as that
-- call left it and locked, so that no other process can take the lock: a call of `ed_idx_xmin`
-- that looks at the slot, with whatever the header has become, gives no later id than the
-- header's at the time of the snapshot, and leaves the slot alone.
pub idx_xmin-idx_acquire_snapshot :
    (map_error lock_error : ℕ → Option Error) (epoch at : ℤ) (own nconns clock now j : ℕ)
    (h later : Hdr) (roots : List (Option ℕ))
    → 0 < (h.conns j).pid
    → 0 < h.xid
    → j < nconns
    → lock_error j ≢ none
    → let taken = idx_acquire_snapshot map_error epoch at j h in
      taken.0 ≡ ok roots
      → later.conns j ≡ taken.1.conns j
      → let r = idx_xmin lock_error own nconns clock now later in
        (r.0 ≤ h.xid) × (r.1.conns j ≡ taken.1.conns j)
idx_xmin-idx_acquire_snapshot map_error lock_error epoch at own nconns clock now j h later roots pid
      xid lt locked won same =
    let taken = idx_acquire_snapshot map_error epoch at j h in
    let r = idx_xmin lock_error own nconns clock now later in
    let (id, owner) = Snapped-xid roots (idx_acquire_snapshot-Snapped map_error epoch at j h) won in
    let f = idx_xmin-IsFloor lock_error own nconns clock now later in
    elim (f.kept j) [
      | inr cleared ↦ absurd (locked cleared.2)
      | inl kept ↦
          let slot : r.1.conns j ≡ taken.1.conns j = kept ∙ same in
          let id' : (r.1.conns j).xid ≡ h.xid = ap (λ c. c.xid) slot ∙ id in
          let owner' : (r.1.conns j).pid ≡ (h.conns j).pid = ap (λ c. c.pid) slot ∙ owner in
          let live =
            live_slot (r.1.conns j) (omega (arith, owner', pid)) (omega (arith, id', xid)) in
          let least = f.floor j (omega arith) lt live in (omega (arith, least, id'), slot)
    ]
