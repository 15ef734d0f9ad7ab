-- ===== src/Idx/Laws/Xmin.antt =====
-- `ed_idx_xmin`: no connection reads a transaction older than its result.
use eddy.Base.{
  ℕ, zero, suc, ◌+◌, ◌-◌, ◌%◌, ◌^◌, ◌≤◌, ◌<◌, ◌≡◌, ◌≢◌, ◌⊎◌, refl, sym, ap, ◌∙◌, true, false, not,
  ◌&&◌, ltb, ◌==◌, arith, if◌then◌else◌, Bool-cases, Option-cases, inl, inr, Option, none,
}
use mathlib.Core.Bool.{true≢false}
use eddy.Base.Mem.{Mem, put, put_at, put_apart}
use eddy.Base.Result.{Error}
use eddy.Idx.{Conn, Hdr, conn_cleared}
use eddy.Idx.Xmin.{is_live, is_suspect, xmin_loop, idx_xmin}

module _ (lock_error : ℕ → Option Error) (own : ℕ) where
  -- A slot afterwards: as it was, or cleared under its lock.
  abbrev pub Kept : Mem Conn → Mem Conn → ℕ → Type 0
  Kept conns conns' j =
      (conns' j ≡ conns j) ⊎ ((conns' j ≡ conn_cleared) × (j ≢ own) × (lock_error j ≡ none))

  -- `x` is the least of `xid` and the transaction ids in the slots from `i` up to `top`.
  pub record IsFloor (i top xid : ℕ) (conns : Mem Conn) (x : ℕ) (conns' : Mem Conn) : Type 0 where
    pub le : x ≤ xid
    pub floor : (j : ℕ) → i ≤ j → j < top → is_live (conns' j) ≡ true → x ≤ (conns' j).xid
    pub kept : (j : ℕ) → Kept conns conns' j
    pub before : (j : ℕ) → j < i → conns' j ≡ conns j
    pub reached :
        (x ≡ xid)
        ⊎ ((j : ℕ) × (i ≤ j) × (j < top) × (is_live (conns' j) ≡ true) × (x ≡ (conns' j).xid))

  -- One slot more at the front.
  IsFloor-step :
      (i top xid xid1 : ℕ) (conns conns1 : Mem Conn) (x : ℕ) (conns' : Mem Conn)
      → i < top
      → IsFloor (i + 1) top xid1 conns1 x conns'
      → xid1 ≤ xid
      → (is_live (conns1 i) ≡ true → xid1 ≤ (conns1 i).xid)
      → ((xid1 ≡ xid) ⊎ ((is_live (conns1 i) ≡ true) × (xid1 ≡ (conns1 i).xid)))
      → ((j : ℕ) → j ≢ i → conns1 j ≡ conns j)
      → Kept conns conns1 i
      → IsFloor i top xid conns x conns'
  IsFloor-step i top xid xid1 conns conns1 x conns' lt f le here first apart at =
      let same = f.before i (omega arith) in
      record {
        le = omega (arith, f.le, le);
        floor = λ j p q live. elim (Bool-cases (j == i)) [
          | inl e ↦
              let eq : j ≡ i = ground arith in
              let id = ap (λ k. (conns' k).xid) eq ∙ ap (λ c. c.xid) same in
              let live1 : is_live (conns1 i) ≡ true =
                sym (ap is_live (ap conns' eq ∙ same)) ∙ live in
              omega (arith, id, here live1, f.le)
          | inr e ↦ f.floor j (ground arith) q live
        ];
        kept = λ j. elim (Bool-cases (j == i)) [
          | inl e ↦
              let eq : i ≡ j = ground arith in
              elim at [
                | inl k ↦ inl (sym (ap conns' eq) ∙ same ∙ k ∙ ap conns eq)
                | inr k ↦ inr (
                  sym (ap conns' eq) ∙ same ∙ k.0,
                  λ o. k.1 (eq ∙ o),
                  sym (ap lock_error eq) ∙ k.2,
                )
              ]
          | inr e ↦
              let away = apart j (λ o. absurd (ground arith)) in
              elim (f.kept j) [ inl k ↦ inl (k ∙ away) | inr k ↦ inr k ]
        ];
        before = λ j p. f.before j (omega (arith, p)) ∙ apart j (λ o. absurd (omega (arith, o, p)));
        reached = elim f.reached [
          | inr r ↦ inr (r.0, omega (arith, r.1), r.2, r.3, r.4)
          | inl e ↦ elim first [
            | inl e1 ↦ inl (e ∙ e1)
            | inr l ↦
                inr
                  (i, omega arith, lt, ap is_live same ∙ l.0, e ∙ l.1 ∙ sym (ap (λ c. c.xid) same))
          ]
        ];
      }

  xmin_loop-IsFloor :
      (xmin tmin n i top xid : ℕ) (conns : Mem Conn)
      → i + n ≡ top
      → let r = xmin_loop lock_error own xmin tmin n i xid conns in IsFloor i top xid conns r.0 r.1
  unfolding xmin_loop
  xmin_loop-IsFloor xmin tmin zero i top xid conns e = record {
    le = omega arith;
    floor = λ j p q. absurd (omega arith);
    kept = λ j. inl refl;
    before = λ j p. refl;
    reached = inl refl;
  }
  xmin_loop-IsFloor xmin tmin (suc n) i top xid conns e =
      let c = conns i in
      let lt : i < top = omega arith in
      let next = λ (xid1 : ℕ) (conns1 : Mem Conn).
        xmin_loop-IsFloor xmin tmin n (i + 1) top xid1 conns1 (omega arith) in
      let least : ℕ = if ltb c.xid xid then c.xid else xid in
      let first : is_live c ≡ true → (least ≡ xid) ⊎ ((is_live c ≡ true) × (least ≡ c.xid)) =
        λ live. elim (Bool-cases (ltb c.xid xid)) [
          | inl below ↦ inr (live, rw below refl)
          | inr above ↦ inl (rw above refl)
        ] in
      let read = λ (live : is_live c ≡ true).
        let r = xmin_loop lock_error own xmin tmin n (i + 1) least conns in
        IsFloor-step i top xid least conns conns r.0 r.1 lt (next least conns) (ground arith)
          (λ l. ground arith) (first live) (λ j p. refl) (inl refl) in
      elim (Bool-cases (is_live c)) [
        | inl live ↦ elim (Bool-cases (not (i == own) && is_suspect xmin tmin c)) [
          | inr mine ↦ rw (live, mine) (read live)
          | inl sus ↦ elim (Option-cases (lock_error i)) [
            | inl got ↦
                let conns1 = put conns i conn_cleared in
                let r = xmin_loop lock_error own xmin tmin n (i + 1) xid conns1 in
                let other : i ≢ own = λ o. absurd (ground (arith, sus, o)) in
                let dead : is_live (conns1 i) ≡ false = ap is_live (put_at conns i conn_cleared) in
                rw (live, sus, got)
                  (IsFloor-step i top xid xid conns conns1 r.0 r.1 lt (next xid conns1)
                    (omega arith) (λ l. absurd (true≢false (sym l ∙ dead))) (inl refl)
                    (put_apart conns i conn_cleared)
                    (inr (put_at conns i conn_cleared, other, got)))
            | inr x ↦ rw (live, sus, x.1) (read live)
          ]
        ]
        | inr dead ↦
            let r = xmin_loop lock_error own xmin tmin n (i + 1) xid conns in
            rw dead (
              IsFloor-step i top xid xid conns conns r.0 r.1 lt (next xid conns) (omega arith)
                (λ live. absurd (true≢false (sym live ∙ dead))) (inl refl) (λ j p. refl) (inl refl))
      ]

-- `ed_idx_xmin` for the process with slot `own`: its result is no more than the transaction id of any
-- connection that it leaves with one, in the slots it looks at, and no more than the last committed
-- one. It is one of these ids. A slot is left as it is, or is cleared under its lock, and the
-- process's own slot is not cleared.
pub idx_xmin-IsFloor :
    (lock_error : ℕ → Option Error) (own nconns clock now : ℕ) (h : Hdr)
    → let r = idx_xmin lock_error own nconns clock now h in
      IsFloor lock_error own 0 nconns ((h.xid + 2 ^ 64 - 1) % 2 ^ 64) h.conns r.0 r.1.conns
unfolding idx_xmin
idx_xmin-IsFloor lock_error own nconns clock now h =
    let xid = (h.xid + 2 ^ 64 - 1) % 2 ^ 64 in
    let at = if now == 0 then clock else now in
    xmin_loop-IsFloor lock_error own (if ltb 16 xid then xid - 16 else 0)
      ((at + 2 ^ 32 - 10) % 2 ^ 32) nconns 0 nconns xid h.conns (omega arith)
