-- ===== src/Bpt/Mark.antt =====
-- lib/bpt.c: `ed_bpt_mark`, the marks of a tree's pages. `map_error` is the outcome of the mapping of a
-- page; `ed_stat_mark` does not fail, since `realloc` is taken to succeed.
use eddy.Base.{ℕ, zero, suc, ◌+◌, ltb, ◌==◌, if◌then◌else◌, Option, none, some}
use eddy.Base.Mem.{Mem}
use eddy.Base.Result.{Error}
use eddy.Stat.{Stat, stat_mark}
use eddy.Bpt.{Bpt, pg_leaf}

-- The outcome with `*max`.
pub record Marking : Type 0 where
  pub error : Option Error
  pub max : ℕ
  pub stat : Stat

-- What follows a child: the other children, unless it failed.
abbrev pub after_child : (ℕ → Stat → Option Marking) → Option Marking → Option Marking
after_child k none = none
after_child k (some m) = elim m.error [ some x ↦ some m | none ↦ k m.max m.stat ]

module _ {E : Type 0} (pages : Mem (Bpt E)) (map_error : ℕ → Option Error) where
  -- `bpt_mark_children` for `n` pointers from pointer `i` on. The fuel is for the levels below, of which
  -- there are fewer than `max`.
  unfoldable pub mark_children : ℕ → ℕ → Bpt E → ℕ → ℕ → ℕ → Stat → Option Marking
  unfolding stat_mark
  mark_children fuel zero b i depth max s = some (record { error = none; max = max; stat = s })
  mark_children zero (suc n) b i depth max s = none
  mark_children (suc fuel) (suc n) b i depth max s =
      let child = pages (b.ptrs i) in
      let s' = stat_mark s (b.ptrs i) in
      let rest = mark_children (suc fuel) n b (i + 1) depth in
      let below = mark_children fuel (child.nkeys + 1) child 0 (depth + 1) max s' in
      if ltb depth max
      then (elim (map_error (b.ptrs i)) [
        | some x ↦ some (record { error = some x; max = max; stat = s' })
        | none ↦ if child.type == pg_leaf then rest depth s' else after_child rest below
      ])
      else rest max s'

  -- `ed_bpt_mark`
  unfoldable pub bpt_mark : Bpt E → Stat → Option Marking
  unfolding mark_children
  bpt_mark b s =
      let s' = stat_mark s b.no in
      if b.type == pg_leaf
      then some (record { error = none; max = 8; stat = s' })
      else mark_children 8 (b.nkeys + 1) b 0 1 8 s'
