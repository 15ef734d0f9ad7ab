-- ===== src/Pg/Tests.antt =====
-- A gc page with two lists: pages 10 and 11 freed by transaction 3, and page 12 by transaction 5.
use eddy.Base.{ℕ, zero, suc, ◌<◌, ◌≡◌, ◌⊎◌, refl, Option, none, some, List, [], ◌∷◌, ◌++◌, arith}
use eddy.Base.Mem.{Mem}
use eddy.Base.Result.{Result, ok, err, Error}
use eddy.Bpt.{pg_none}
use eddy.Pg.{GcPage, Index, pg_gc}
use eddy.Pg.Gc.{gc_list_next, gc_list_npages_for, fill_list}
use eddy.Pg.Alloc.{
  Stage, take_list, collect, alloc, alloc_done, alloc_end, map_end_pages, map_sorted_pages,
  map_runs, sort_pages, insert_page, numbers, live_pages,
}
use eddy.Pg.Lists.{listed, IsGcPage, IsReadable, end}
use eddy.Pg.Laws.Fill.{fill_list-listed}
use eddy.Pg.Laws.Next.{IsNext, gc_list_next-IsNext}
use eddy.Pg.Laws.Take.{Takes, take_list-Takes}
use eddy.Pg.Laws.Alloc.{Outcome, alloc-Outcome}

abbrev page_size : ℕ
page_size = 4096

abbrev array : List ℕ → Mem ℕ
array [] i = 0
array (x ∷ xs) zero = x
array (x ∷ xs) (suc i) = array xs i

abbrev pub two_lists : ℕ → GcPage
two_lists pg = record {
  no = pg;
  type = pg_gc;
  state = record { head = 0; tail = 24; nlists = 2; nskip = 0 };
  next = pg_none;
  words = array (3 ∷ 0 ∷ 2 ∷ 10 ∷ 11 ∷ 0 ∷ 5 ∷ 0 ∷ 1 ∷ 12 ∷ []);
}

two_lists-IsGcPage : (pg : ℕ) → IsGcPage page_size (two_lists pg)
two_lists-IsGcPage pg = record {
  aligned = refl;
  last = λ p. refl;
  empty = λ z. absurd (omega arith);
  fits = omega arith;
  skipped = λ p. omega arith;
}

pub two_lists-IsReadable : (pg : ℕ) → IsReadable page_size (two_lists pg) (two_lists pg).state
two_lists-IsReadable pg = record {
  aligned = refl;
  last = λ p. refl;
  fits = λ p. omega arith;
  skipped = λ p. omega arith;
}

fill_list_example :
    let (g, rest) = fill_list page_size (two_lists 1) 24 (13 ∷ 14 ∷ []) in
    (listed g ++ rest ≡ 10 ∷ 11 ∷ 12 ∷ 13 ∷ 14 ∷ []) × IsGcPage page_size g
fill_list_example =
    fill_list-listed page_size (omega arith) (two_lists 1) (13 ∷ 14 ∷ []) (two_lists-IsGcPage 1)
      (omega arith)

gc_list_next_example :
    let r = gc_list_next page_size (two_lists 1) 7 in
    ((r ≡ none) × (0 < 2 → gc_list_npages_for page_size (some (two_lists 1)) 7 ≡ 0))
    ⊎ ((off : ℕ) × (g' : GcPage) × (r ≡ some (off, g'))
        × IsNext page_size (omega arith) (two_lists 1) 7 off g')
gc_list_next_example =
    gc_list_next-IsNext page_size (omega arith) (two_lists 1) 7 (two_lists-IsGcPage 1)

abbrev pub stage : Stage
stage = record { gc = two_lists 1; state = (two_lists 1).state; pgno = []; recycled = [] }

take_list_example : Takes page_size (omega arith) 8 4 stage (take_list 8 4 stage)
take_list_example =
    take_list-Takes page_size (omega arith) 8 4 stage (two_lists-IsReadable 1) (omega arith)

abbrev pub index : Index
index = record { pages = two_lists; gc_head = 1; gc_tail = 1; tail_start = 40; tail_count = 6 }

abbrev mapped : ℕ → ℕ → Option Error
mapped pg count = none

abbrev extended : ℕ → Option Error
extended count = none

alloc-Outcome_example :
    (r : Result (List ℕ) × Index) × (alloc mapped extended 9 3 index 4 ≡ some r)
    × Outcome 4 index [] r
alloc-Outcome_example =
    alloc-Outcome page_size (omega arith) mapped extended 4 9 index 3 [] (λ p. refl) (end refl)
      (two_lists-IsReadable 1, tt) (omega arith) (omega arith) (omega arith)

abbrev pages_of : Option (Result (List ℕ) × Index) → List ℕ
pages_of none = []
pages_of (some (err x, idx)) = []
pages_of (some (ok pgs, idx)) = pgs

-- With the oldest reader at 4, only the first list is used.
alloc_run_example :
    (pages_of (alloc mapped extended 9 3 index 4) ≡ 10 ∷ 11 ∷ 12 ∷ 40 ∷ [])
    × (pages_of (alloc mapped extended 4 3 index 4) ≡ 10 ∷ 11 ∷ 40 ∷ 41 ∷ [])
unfolding alloc alloc_done alloc_end collect take_list map_end_pages map_sorted_pages map_runs
    sort_pages insert_page numbers live_pages
alloc_run_example = (refl, refl)
