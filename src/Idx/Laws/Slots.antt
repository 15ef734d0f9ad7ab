-- ===== src/Idx/Laws/Slots.antt =====
-- `conn_acquire` and the snapshots of a connection.
use eddy.Base.{
  ℕ, zero, suc, ◌+◌, ◌≤◌, ◌<◌, ◌≡◌, ◌⊎◌, refl, sym, ap, ◌∙◌, Bool, true, false, not, ◌&&◌, ◌==◌,
  arith, Bool-cases, Option-cases, inl, inr, is_none, Option, none, some,
}
use mathlib.Core.Bool.{true≢false}
use eddy.Base.Mem.{Mem, put}
use eddy.Base.Result.{Error, Result, ok, err, sys}
use eddy.Idx.{Conn, Hdr}
use eddy.Idx.Slots.{again, is_again, in_use, acquire_pass, acquired, conn_acquire}

-- The outcomes of `conn_acquire` for slots below `top`, by the locks `lock_error` of a pass.
pub data Slot (lock_error : ℕ → Option Error) (all : Bool) (xmin pid i top : ℕ) (conns : Mem Conn)
    : Option (Result ℕ × Mem Conn) → Type 0 where
  taken :
      (j : ℕ)
      → i ≤ j
      → j < top
      → lock_error j ≡ none
      → (all ≡ false → in_use xmin (conns j) ≡ false)
      → Slot lock_error all xmin pid i top conns
          (some (ok j, put conns j (record (conns j) { pid = pid; xid = 0 })))
  failed :
      (j : ℕ) (x : Error)
      → i ≤ j
      → j < top
      → lock_error j ≡ some x
      → is_again x ≡ false
      → Slot lock_error all xmin pid i top conns (some (err x, conns))
  busy :
      ((j : ℕ)
        → i ≤ j
        → j < top
        → ((all ≡ false) × (in_use xmin (conns j) ≡ true)) ⊎ (lock_error j ≡ some again))
      → Slot lock_error all xmin pid i top conns none

is_again_eq : (x : Error) → is_again x ≡ true → x ≡ again
is_again_eq (sys e) h = let eq : e ≡ 11 = ground (arith, h) in ap sys eq
is_again_eq x h = absurd (true≢false (sym h))

not_and_true : (a b : Bool) → (not a && b) ≡ true → (a ≡ false) × (b ≡ true)
not_and_true true b h = absurd (true≢false (sym h))
not_and_true false b h = (refl, h)

not_and_false : (a b : Bool) → (not a && b) ≡ false → a ≡ false → b ≡ false
not_and_false true b h e = absurd (true≢false e)
not_and_false false b h e = h

module _ (lock_error : ℕ → Option Error) (all : Bool) (xmin pid : ℕ) (conns : Mem Conn) where
  -- One slot more at the front, which is passed over.
  Slot-step :
      (i top : ℕ) {r : Option (Result ℕ × Mem Conn)}
      → ((all ≡ false) × (in_use xmin (conns i) ≡ true)) ⊎ (lock_error i ≡ some again)
      → Slot lock_error all xmin pid (i + 1) top conns r
      → Slot lock_error all xmin pid i top conns r
  Slot-step i top skip (taken j le lt got free) = taken j (omega (arith, le)) lt got free
  Slot-step i top skip (failed j x le lt stop no_again) =
      failed j x (omega (arith, le)) lt stop no_again
  Slot-step i top skip (busy each) = busy (λ j le lt. elim (Bool-cases (j == i)) [
    | inl e ↦
        let eq : i ≡ j = ground arith in
        elim skip [
          | inl used ↦ inl (used.0, sym (ap (λ k. in_use xmin (conns k)) eq) ∙ used.1)
          | inr lock ↦ inr (sym (ap lock_error eq) ∙ lock)
        ]
    | inr e ↦ each j (ground arith) lt
  ])

  acquire_pass-Slot :
      (n i top : ℕ)
      → i + n ≡ top
      → Slot lock_error all xmin pid i top conns (acquire_pass lock_error all xmin pid n i conns)
  unfolding acquire_pass
  acquire_pass-Slot zero i top e = busy (λ j le lt. absurd (omega arith))
  acquire_pass-Slot (suc n) i top e =
      let next = acquire_pass-Slot n (i + 1) top (omega arith) in
      let lt : i < top = omega arith in
      let le : i ≤ i = omega arith in
      elim (Bool-cases (not all && in_use xmin (conns i))) [
        | inl used ↦ rw used (Slot-step i top (inl (not_and_true all _ used)) next)
        | inr free ↦ elim (Option-cases (lock_error i)) [
          | inl got ↦ rw (free, got) (taken i le lt got (not_and_false all _ free))
          | inr x ↦ elim (Bool-cases (is_again x.0)) [
            | inl other ↦
                rw (free, x.1, other)
                  (Slot-step i top (inr (x.1 ∙ ap some (is_again_eq x.0 other))) next)
            | inr stop ↦ rw (free, x.1, stop) (failed i x.0 le lt x.1 stop)
          ]
        ]
      ]

-- The outcomes of `conn_acquire`.
pub data Acquired (lock_error : ℕ → ℕ → Option Error) (xmin pid : ℕ) (h : Hdr)
    : Result ℕ × Hdr → Type 0 where
  -- A slot is locked that was not in use.
  first :
      (j : ℕ)
      → j < h.nconns
      → lock_error 0 j ≡ none
      → in_use xmin (h.conns j) ≡ false
      → Acquired lock_error xmin pid h
          (ok j, record h { conns = put h.conns j (record (h.conns j) { pid = pid; xid = 0 }) })
  -- A slot is locked after every slot was in use or locked by another process.
  second :
      (j : ℕ)
      → j < h.nconns
      → lock_error 1 j ≡ none
      → ((k : ℕ) → k < h.nconns → (in_use xmin (h.conns k) ≡ true) ⊎ (lock_error 0 k ≡ some again))
      → Acquired lock_error xmin pid h
          (ok j, record h { conns = put h.conns j (record (h.conns j) { pid = pid; xid = 0 }) })
  -- A lock failed for another reason.
  failed :
      (p j : ℕ) (x : Error)
      → j < h.nconns
      → lock_error p j ≡ some x
      → is_again x ≡ false
      → Acquired lock_error xmin pid h (err x, h)
  -- Every slot is locked by another process.
  busy :
      ((j : ℕ) → j < h.nconns → lock_error 1 j ≡ some again)
      → Acquired lock_error xmin pid h (err again, h)

module _ (lock_error : ℕ → ℕ → Option Error) (xmin pid : ℕ) (h : Hdr) where
  second-Acquired :
      {r : Option (Result ℕ × Mem Conn)}
      → ((k : ℕ) → k < h.nconns → (in_use xmin (h.conns k) ≡ true) ⊎ (lock_error 0 k ≡ some again))
      → Slot (lock_error 1) true xmin pid 0 h.nconns h.conns r
      → Acquired lock_error xmin pid h (acquired h r (err again, h))
  second-Acquired each (taken j le lt got free) = second j lt got each
  second-Acquired each (failed j x le lt stop no_again) = failed 1 j x lt stop no_again
  second-Acquired each (busy locked) =
      busy
        (λ j lt. elim (locked j (omega arith) lt) [ inl a ↦ absurd (true≢false a.0) | inr l ↦ l ])

  first-Acquired :
      {r s : Option (Result ℕ × Mem Conn)}
      → Slot (lock_error 0) false xmin pid 0 h.nconns h.conns r
      → Slot (lock_error 1) true xmin pid 0 h.nconns h.conns s
      → Acquired lock_error xmin pid h (acquired h r (acquired h s (err again, h)))
  first-Acquired (taken j le lt got free) two = first j lt got (free refl)
  first-Acquired (failed j x le lt stop no_again) two = failed 0 j x lt stop no_again
  first-Acquired (busy each) two =
      second-Acquired (λ k lt. elim (each k (omega arith) lt) [ inl u ↦ inl u.1 | inr l ↦ inr l ])
        two

  -- `conn_acquire` locks a slot that is not in use, or, if each of these is locked by another process, any
  -- slot; the slot then has the process's id and no transaction. If it fails, the header is
  -- unchanged: a lock has failed for another reason, or every slot is locked by another process.
  pub conn_acquire-Acquired : Acquired lock_error xmin pid h (conn_acquire lock_error xmin pid h)
  unfolding conn_acquire
  conn_acquire-Acquired =
      (first-Acquired
        (acquire_pass-Slot (lock_error 0) false xmin pid h.conns h.nconns 0 h.nconns (omega arith))
        (acquire_pass-Slot (lock_error 1) true xmin pid h.conns h.nconns 0 h.nconns (omega arith)))

  -- `conn_acquire` succeeds if some slot can be locked in the second pass and no lock fails but for
  -- another process's.
  pub conn_acquire_succeeds :
      (j : ℕ)
      → j < h.nconns
      → lock_error 1 j ≡ none
      → ((p k : ℕ) (x : Error) → lock_error p k ≡ some x → is_again x ≡ true)
      → (i : ℕ) × (h' : Hdr) × (conn_acquire lock_error xmin pid h ≡ (ok i, h'))
  conn_acquire_succeeds j lt free only = go conn_acquire-Acquired
    where
      go :
          {r : Result ℕ × Hdr}
          → Acquired lock_error xmin pid h r
          → (i : ℕ) × (h' : Hdr) × (r ≡ (ok i, h'))
      go (first k lt got unused) = (k, _, refl)
      go (second k lt got each) = (k, _, refl)
      go (failed p k x lt stop no_again) = absurd (true≢false (sym (only p k x stop) ∙ no_again))
      go (busy each) = absurd (true≢false (ap is_none (sym free ∙ each j lt)))
