-- ===== src/Pg/FreeTests.antt =====
-- Pages are freed with small gc pages of 64 bytes: page 1 is full, so that page 2 is linked.
use eddy.Base.{ℕ, ◌-◌, ◌≡◌, refl, Option, none, some, List, [], ◌∷◌, arith, ltb, if◌then◌else◌}
use eddy.Base.Result.{Error}
use eddy.Pg.{GcPage, Index}
use eddy.Pg.Free.{moved_lists, free_loop, free_pgno, free_with, fill_spot, next_spot, start_page}
use eddy.Pg.Gc.{gc_list_npages_for, gc_list_init}
use eddy.Pg.Alloc.{
  alloc, alloc_done, alloc_end, collect, take_list, map_end_pages, map_sorted_pages, sort_pages,
  numbers, live_pages,
}
use eddy.Pg.Lists.{listed, IsGcPage}
use eddy.Pg.Laws.Move.{moved_lists-listed}
use eddy.Pg.Laws.Freed.{Freed}
use eddy.Pg.Laws.Free.{free_loop-Freed}
use eddy.Pg.Tests.{two_lists, index}

full_page-IsGcPage : IsGcPage 64 (two_lists 1)
full_page-IsGcPage = record {
  aligned = refl;
  last = λ p. refl;
  empty = λ z. absurd (omega arith);
  fits = omega arith;
  skipped = λ p. omega arith;
}

free_loop_example :
    (idx' : Index) × (free_loop 2 64 7 1 (2 ∷ []) (13 ∷ 14 ∷ []) index ≡ some ([], idx'))
    × Freed 64 1 (2 ∷ []) (13 ∷ 14 ∷ []) index idx'
unfolding gc_list_npages_for
free_loop_example =
    free_loop-Freed 64 (omega arith) (omega arith) 7 1 (2 ∷ []) (13 ∷ 14 ∷ []) index (λ p. refl)
      full_page-IsGcPage (omega arith) refl ((λ e. absurd (omega (arith, e)), tt), (tt, tt))
      (omega arith) refl

-- The lists of `two_lists` from offset 2048 on, where the second half of a page of 4096 bytes begins.
abbrev late : GcPage
late = record (two_lists 1) {
  state = record { head = 2048; tail = 2072; nlists = 2; nskip = 1 };
  words = λ i. if ltb i 512 then 0 else (two_lists 1).words (i - 512);
}

late-IsGcPage : IsGcPage 4096 late
late-IsGcPage = record {
  aligned = refl;
  last = λ p. refl;
  empty = λ z. absurd (omega arith);
  fits = omega arith;
  skipped = λ p. omega arith;
}

moved_lists_example :
    (listed (moved_lists 4096 late) ≡ 11 ∷ 12 ∷ []) × IsGcPage 4096 (moved_lists 4096 late)
moved_lists_example = moved_lists-listed 4096 (omega arith) refl late late-IsGcPage (omega arith)

abbrev mapped : ℕ → ℕ → Option Error
mapped pg count = none

abbrev extended : ℕ → Option Error
extended count = none

abbrev outcome : Option (Option Error × Index) → List ℕ
outcome none = []
outcome (some (x, idx)) = idx.gc_tail ∷ listed (idx.pages idx.gc_tail)

-- A new page comes from the end of the file, since the oldest reader is at 2.
free_run_example :
    outcome (free_pgno 64 mapped extended 2 3 index 7 (13 ∷ 14 ∷ [])) ≡ 40 ∷ 13 ∷ 14 ∷ []
unfolding free_pgno free_with free_loop fill_spot next_spot start_page gc_list_init alloc alloc_done
    alloc_end collect take_list map_end_pages map_sorted_pages sort_pages numbers live_pages
free_run_example = refl
