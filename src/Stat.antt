-- ===== src/Stat.antt =====
-- lib/stat.c: the marks of the pages that an index refers to.
--
-- The bit vector `vec` is modelled by its bits, with bit `b` of byte `i` at `8 * i + b`, which is what
-- the macros ED_BIT_SET and ED_BIT_TEST address. A comparison of a byte or of 8 bytes with all
-- ones is a test of their bits. `realloc` is taken to succeed.
pub mod Laws
pub mod Marks
pub mod New
mod Tests
use eddy.Base.{
  ℕ, zero, suc, ◌+◌, ◌-◌, ◌*◌, ◌/◌, Bool, true, false, not, ◌&&◌, ltb, if◌then◌else◌, List, [], ◌∷◌,
  ◌++◌,
}
use eddy.Base.Mem.{Mem, put}

-- The fields of `struct EdStat` that the marks use. `marks` is the counter that `mark` points to.
pub record Stat : Type 0 where
  pub no : ℕ
  pub vec : Mem Bool
  pub mult : List ℕ
  pub marks : ℕ

-- The loops of `ed_stat_new` that mark a range of pages.
unfoldable pub set_range : Mem Bool → ℕ → ℕ → Mem Bool
set_range vec p zero = vec
set_range vec p (suc n) = set_range (put vec p true) (p + 1) n

-- `push_double_page`
unfoldable pub push_double_page : Stat → ℕ → Stat
push_double_page s p = record s { mult = s.mult ++ p ∷ [] }

-- `ed_stat_mark`
unfoldable pub stat_mark : Stat → ℕ → Stat
unfolding push_double_page
stat_mark s p =
    let s' = record s { marks = s.marks + 1 } in
    if ltb s.no p
    then s'
    else if not (s.vec p)
    then record s' { vec = put s.vec p true }
    else push_double_page s' p

-- Whether `n` bits from bit `i` on are set, or clear.
unfoldable pub all_set : Mem Bool → ℕ → ℕ → Bool
all_set vec i zero = true
all_set vec i (suc n) = let rest = all_set vec (i + 1) n in if vec i then rest else false

unfoldable pub all_clear : Mem Bool → ℕ → ℕ → Bool
all_clear vec i zero = true
all_clear vec i (suc n) = let rest = all_clear vec (i + 1) n in if vec i then false else rest

-- A loop of `ed_stat_has_leaks` over `n` units of `size` bits from bit `i` on.
unfoldable pub all_ones : Mem Bool → ℕ → ℕ → ℕ → Bool
all_ones vec size i zero = true
all_ones vec size i (suc n) =
    let rest = all_ones vec size (i + size) n in if all_set vec i size then rest else false

-- `ed_stat_has_leaks`
unfoldable pub stat_has_leaks : Stat → Bool
unfolding all_set all_clear all_ones
stat_has_leaks s =
    let bytes = s.no / 8 in
    let words = bytes / 8 in
    let last = s.no - bytes * 8 in
    if not (all_ones s.vec 64 0 words)
    then true
    else if not (all_ones s.vec 8 (words * 64) (bytes - words * 8))
    then true
    else ltb 0 last
      && not (all_set s.vec (bytes * 8) last && all_clear s.vec (bytes * 8 + last) (8 - last))

-- `ed_stat_has_leak`
unfoldable pub stat_has_leak : Stat → ℕ → Bool
stat_has_leak s p = ltb p s.no && not (s.vec p)

-- Marks one after the other, as the callers make them.
abbrev pub mark_all : Stat → List ℕ → Stat
mark_all s [] = s
mark_all s (p ∷ pgs) = mark_all (stat_mark s p) pgs
