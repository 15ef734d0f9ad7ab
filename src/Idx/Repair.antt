-- ===== src/Idx/Repair.antt =====
-- lib/idx.c: `ed_idx_repair_leaks`, which frees the pages that a `struct EdStat` reports as leaks.
use eddy.Base.{
  ℕ, zero, suc, ◌+◌, Bool, true, false, ◌&&◌, ◌||◌, ltb, ◌==◌, if◌then◌else◌, Option, none, some,
  List, [], ◌∷◌, ◌++◌, length,
}
use eddy.Base.Result.{Error}
use eddy.Stat.{Stat, stat_has_leak}
use eddy.Pg.{Index}
use eddy.Pg.Free.{free_pgno}

-- The outcome with `locked`.
abbrev pub Repaired : Type 0
Repaired = Option (Option Error × Bool × Index)

-- What follows `ed_free_pgno`: the loop, unless it failed.
abbrev pub after_free : (Index → Repaired) → Option (Option Error × Index) → Repaired
after_free next none = none
after_free next (some (some x, idx)) = some (some x, true, idx)
after_free next (some (none, idx)) = next idx

-- The leaks with page `pg`, if it is one.
abbrev pub with_leak : Stat → ℕ → List ℕ → List ℕ
with_leak s pg leaks = if stat_has_leak s pg then leaks ++ pg ∷ [] else leaks

-- Whether the leaks found up to page `pg` are freed now.
abbrev pub is_due : Stat → ℕ → List ℕ → Bool
is_due s pg leaks = (length leaks == 64) || (ltb 0 (length leaks) && (pg == s.no))

-- The parameters are those of `free_pgno`, and `lock_error` is the outcome of `ed_lck`.
module _ (page_size : ℕ) (map_error : ℕ → ℕ → Option Error) (truncate_error : ℕ → Option Error)
    (xmin fuel : ℕ) (lock_error : Option Error) where
  -- The loop for `n` pages from page `pg` on. `none` stands also for a write behind the 64 places of `leaks`.
  unfoldable pub repair_loop : Stat → ℕ → ℕ → List ℕ → Bool → Index → Repaired
  unfolding stat_has_leak free_pgno
  repair_loop s zero pg leaks locked idx = some (none, locked, idx)
  repair_loop s (suc n) pg leaks locked idx =
      let found = with_leak s pg leaks in
      let next = λ (held : Bool) (i : Index). repair_loop s n (pg + 1) found held i in
      let freed =
        after_free (next true)
          (free_pgno page_size map_error truncate_error xmin fuel idx 0 found) in
      if ltb 64 (length found)
      then none
      else if is_due s pg found
      then (if locked
          then freed
          else (elim lock_error [ some x ↦ some (some x, false, idx) | none ↦ freed ]))
      else next locked idx

  -- `ed_idx_repair_leaks`
  unfoldable pub idx_repair_leaks : Stat → Index → Repaired
  unfolding repair_loop
  idx_repair_leaks s idx = repair_loop s (s.no + 1) 0 [] false idx
