-- ===== src/Stat/Tests.antt =====
-- Marks at a small index of 11 pages, of which the first 5 and the last 2 are marked at the start.
use eddy.Base.{
  ℕ, ◌+◌, ◌-◌, ◌≤◌, ◌≡◌, ◌↔◌, refl, true, false, ◌||◌, ltb, if◌then◌else◌, arith, [], ◌∷◌,
}
use eddy.Stat.{
  Stat, set_range, stat_mark, push_double_page, all_set, all_clear, all_ones, stat_has_leaks,
  stat_has_leak, mark_all,
}
use eddy.Stat.Laws.{stat_has_leaks_iff}
use eddy.Stat.Marks.{count, mark_all-vec-mult}

abbrev eleven : Stat
eleven = record { no = 11; vec = set_range (set_range (λ p. false) 0 5) 9 2; mult = []; marks = 0 }

abbrev marked : Stat
marked = mark_all eleven (5 ∷ 6 ∷ 7 ∷ 8 ∷ 6 ∷ 2 ∷ [])

mark_all_example :
    (marked.vec 6 ≡ (eleven.vec 6 || ltb 0 2))
    × (count 6 marked.mult ≡ count 6 eleven.mult + (if eleven.vec 6 then 2 else 2 - 1))
mark_all_example = mark_all-vec-mult eleven (5 ∷ 6 ∷ 7 ∷ 8 ∷ 6 ∷ 2 ∷ []) 6 (omega arith)

-- The bits from 11 on are clear at the start.
eleven_clear : (p : ℕ) → 11 ≤ p → eleven.vec p ≡ false
unfolding set_range
eleven_clear p le = ground arith

has_leaks_example : (stat_has_leaks eleven ≡ false) ↔ ((p : ℕ) → stat_has_leak eleven p ≡ false)
has_leaks_example = stat_has_leaks_iff eleven eleven_clear

-- Pages 5 to 8 are leaks before the marks and none after them.
leaks_found : stat_has_leaks eleven ≡ true
unfolding set_range stat_has_leaks all_set all_clear all_ones
leaks_found = refl

no_leaks_left : stat_has_leaks marked ≡ false
unfolding set_range stat_mark push_double_page stat_has_leaks all_set all_clear all_ones
no_leaks_left = refl

-- The page behind the last one is marked too (lib/stat.c:117), which `ed_stat_has_leaks` takes for a
-- leak.
marked_past_end : stat_has_leaks (mark_all marked (11 ∷ [])) ≡ true
unfolding set_range stat_mark push_double_page stat_has_leaks all_set all_clear all_ones
marked_past_end = refl
