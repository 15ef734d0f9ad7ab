-- ===== src/Idx/Laws/Repair.antt =====
-- `ed_idx_repair_leaks` frees the leaks of the index, all of them at once where they are few.
use eddy.Base.{
  ℕ, zero, suc, ◌+◌, ◌<◌, ◌≡◌, refl, sym, ap, ◌∙◌, Bool, true, false, ◌&&◌, ltb, ◌==◌, arith,
  if◌then◌else◌, Bool-cases, inl, inr, Option, none, some, List, [], ◌∷◌, ◌++◌, append-nil,
  append_assoc, length, length-append,
}
use eddy.Base.Result.{Error}
use eddy.Stat.{Stat, stat_has_leak}
use eddy.Pg.{Index}
use eddy.Pg.Free.{free_pgno}
use eddy.Idx.Repair.{Repaired, after_free, with_leak, is_due, repair_loop, idx_repair_leaks}

-- The leaks among `n` pages from page `pg` on.
abbrev pub leaks_from : Stat → ℕ → ℕ → List ℕ
leaks_from s zero pg = []
leaks_from s (suc n) pg =
    let rest = leaks_from s n (pg + 1) in if stat_has_leak s pg then pg ∷ rest else rest

-- One page more.
with_leak-leaks_from :
    (s : Stat) (n pg : ℕ) (leaks : List ℕ)
    → with_leak s pg leaks ++ leaks_from s n (pg + 1) ≡ leaks ++ leaks_from s (suc n) pg
with_leak-leaks_from s n pg leaks = elim (Bool-cases (stat_has_leak s pg)) [
  | inl leak ↦ rw leak (append_assoc leaks (pg ∷ []) (leaks_from s n (pg + 1)))
  | inr fine ↦ rw fine refl
]

-- Behind the last page there is no leak, and all leaks are due.
no_leak_behind : (s : Stat) (pg : ℕ) (leaks : List ℕ) → pg ≡ s.no → with_leak s pg leaks ≡ leaks
unfolding stat_has_leak
no_leak_behind s pg leaks e = let t : ltb pg s.no ≡ false = ground arith in rw t refl

not_due :
    (s : Stat) (pg : ℕ) (leaks : List ℕ) → length leaks < 64 → pg < s.no → is_due s pg leaks ≡ false
not_due s pg leaks few before =
    let some_room : (length leaks == 64) ≡ false = ground arith in
    let inside : (pg == s.no) ≡ false = ground arith in
    rw (some_room, inside) (and_false (ltb 0 (length leaks)))
  where
    and_false : (b : Bool) → (b && false) ≡ false
    and_false true = refl
    and_false false = refl

due_behind :
    (s : Stat) (pg : ℕ) (leaks : List ℕ)
    → length leaks < 64
    → pg ≡ s.no
    → is_due s pg leaks ≡ ltb 0 (length leaks)
due_behind s pg leaks few e =
    let some_room : (length leaks == 64) ≡ false = ground arith in
    let here : (pg == s.no) ≡ true = ground arith in
    rw (some_room, here) (and_true (ltb 0 (length leaks)))
  where
    and_true : (b : Bool) → (b && true) ≡ b
    and_true true = refl
    and_true false = refl

module _ (page_size : ℕ) (map_error : ℕ → ℕ → Option Error) (truncate_error : ℕ → Option Error)
    (xmin fuel : ℕ) (lock_error : Option Error) where
  -- One call of `ed_free_pgno` under the lock, if there is a leak.
  abbrev pub freed_at_once : Index → List ℕ → Repaired
  freed_at_once idx leaks =
      if length leaks == 0 then some (none, false, idx) else (elim lock_error [
        | some x ↦ some (some x, false, idx)
        | none ↦
            after_free (λ i. some (none, true, i))
              (free_pgno page_size map_error truncate_error xmin fuel idx 0 leaks)
      ])

  repair_loop-leaks_from :
      (s : Stat) (n pg : ℕ) (leaks : List ℕ) (idx : Index)
      → pg + n ≡ s.no
      → length (leaks ++ leaks_from s n pg) < 64
      → repair_loop page_size map_error truncate_error xmin fuel lock_error s
          (suc n)
          pg
          leaks
          false
          idx
        ≡ freed_at_once idx (leaks ++ leaks_from s n pg)
  unfolding repair_loop
  repair_loop-leaks_from s zero pg leaks idx e few =
      let found = with_leak s pg leaks in
      let here : pg ≡ s.no = omega (arith, e) in
      let same = no_leak_behind s pg leaks here ∙ sym (append-nil leaks) in
      let len = ap length same in
      let short : length found < 64 = omega (arith, few, len) in
      let fits : ltb 64 (length found) ≡ false = ground arith in
      let due = due_behind s pg found short here in
      elim (Bool-cases (length found == 0)) [
        | inl nothing ↦
            let off : ltb 0 (length found) ≡ false = ground arith in
            let eq : repair_loop page_size map_error truncate_error xmin fuel lock_error s 1 pg
                  leaks false idx
                ≡ freed_at_once idx found =
              rw (fits, due, off, nothing) refl in
            eq ∙ ap (freed_at_once idx) same
        | inr leaking ↦
            let on : ltb 0 (length found) ≡ true = ground arith in
            let eq : repair_loop page_size map_error truncate_error xmin fuel lock_error s 1 pg
                  leaks false idx
                ≡ freed_at_once idx found =
              rw (fits, due, on, leaking) refl in
            eq ∙ ap (freed_at_once idx) same
      ]
  repair_loop-leaks_from s (suc n) pg leaks idx e few =
      let found = with_leak s pg leaks in
      let next = leaks_from s n (pg + 1) in
      let all = with_leak-leaks_from s n pg leaks in
      let size = length-append found next in
      let total = ap length all in
      let short : length found < 64 = omega (arith, few, total, size) in
      let fits : ltb 64 (length found) ≡ false = ground arith in
      let later = not_due s pg found short (omega (arith, e)) in
      let ih =
        repair_loop-leaks_from s n (pg + 1) found idx (omega arith) (omega (arith, few, total)) in
      rw (fits, later) (ih ∙ ap (freed_at_once idx) all)

  -- If the index has fewer than 64 leaks, `ed_idx_repair_leaks` takes the lock and frees exactly these, in
  -- order, by one call of `ed_free_pgno`, whose outcome it returns. It returns the error of the lock if
  -- that fails, and does nothing if there is no leak.
  pub idx_repair_leaks-leaks_from :
      (s : Stat) (idx : Index)
      → length (leaks_from s s.no 0) < 64
      → idx_repair_leaks page_size map_error truncate_error xmin fuel lock_error s idx
        ≡ freed_at_once idx (leaks_from s s.no 0)
  unfolding idx_repair_leaks
  idx_repair_leaks-leaks_from s idx few =
      let one : s.no + 1 ≡ suc s.no = omega arith in
      rw one (repair_loop-leaks_from s s.no 0 [] idx (omega arith) few)
