-- ===== src/Pg/Mark.antt =====
-- lib/pg.c: `ed_pg_mark_gc`, the marks of the freed pages. `map_error` is the outcome of the mapping of
-- a page; `ed_stat_mark` does not fail, since `realloc` is taken to succeed.
use eddy.Base.{ℕ, zero, suc, ◌+◌, ◌-◌, ◌%◌, ◌^◌, ◌==◌, if◌then◌else◌, Option, none, some}
use eddy.Base.Mem.{Mem}
use eddy.Base.Result.{Error}
use eddy.Bpt.{pg_none}
use eddy.Stat.{Stat, stat_mark}
use eddy.Pg.{GcPage, Index, gc_list_size, list_npages, list_pages}

-- The inner loop: `n` pages of a list from word `i` on.
unfoldable pub mark_pages : Mem ℕ → ℕ → ℕ → Stat → Stat
unfolding stat_mark
mark_pages words i zero s = s
mark_pages words i (suc n) s = mark_pages words (i + 1) n (stat_mark s (words i))

-- The loop over the lists of a page.
unfoldable pub mark_lists : Mem ℕ → ℕ → ℕ → ℕ → Stat → Stat
unfolding mark_pages
mark_lists words head nskip zero s = s
mark_lists words head nskip (suc n) s =
    let npages = list_npages words head in
    mark_lists words ((head + gc_list_size npages) % 2 ^ 16) 0 n
      (mark_pages words (list_pages head + nskip) (npages - nskip) s)

-- `while (gc)`
unfoldable pub mark_chain :
    Mem GcPage → (ℕ → Option Error) → ℕ → GcPage → Stat → Option (Option Error × Stat)
unfolding mark_lists
mark_chain pages map_error zero g s = none
mark_chain pages map_error (suc fuel) g s =
    let s' = mark_lists g.words g.state.head g.state.nskip g.state.nlists s in
    let rest = mark_chain pages map_error fuel (pages g.next) s' in
    if g.next == pg_none
    then some (none, s')
    else (elim (map_error g.next) [ some x ↦ some (some x, s') | none ↦ rest ])

-- `ed_pg_mark_gc`
unfoldable pub pg_mark_gc : (ℕ → Option Error) → ℕ → Index → Stat → Option (Option Error × Stat)
unfolding mark_chain
pg_mark_gc map_error fuel idx s = elim (map_error idx.gc_head) [
  | some x ↦ some (some x, s)
  | none ↦ let g = idx.pages idx.gc_head in mark_chain idx.pages map_error fuel g (stat_mark s g.no)
]
