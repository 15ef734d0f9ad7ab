-- ===== src/Pg/Free.antt =====
-- lib/pg.c: `ed_free_pgno`. A failed assertion of that function is `none`, as is a lack of fuel for `ed_alloc`.
use eddy.Base.{
  ℕ, zero, suc, ◌+◌, ◌-◌, ◌/◌, ◌%◌, ◌^◌, ltb, leb, ◌==◌, ◌&&◌, if◌then◌else◌, Option, none, some,
  List, [], ◌∷◌, length,
}
use eddy.Base.Mem.{put, move}
use eddy.Base.Result.{Result, ok, err, Error}
use eddy.Pg.{GcPage, Index, gc_data, count_size, gc_list_max}
use eddy.Pg.Gc.{gc_list_npages_for, gc_list_next, gc_list_init, fill_list}
use eddy.Pg.Alloc.{alloc}

-- The move of the lists to the start of the page.
unfoldable pub moved_lists : ℕ → GcPage → GcPage
moved_lists page_size g =
    let head = g.state.head in
    record g {
      state = record g.state { head = 0; tail = (g.state.tail + 2 ^ 16 - head) % 2 ^ 16 };
      words = move g.words 0 g.words (head / 4) ((gc_data page_size - head) / 4);
    }

-- The number of new gc pages for `n` pages of which `avail` go to the last one.
abbrev pub new_count : ℕ → ℕ → ℕ → ℕ
new_count page_size avail n =
    count_size (if ltb n avail then 0 else n - avail) (gc_list_max page_size)

-- `for (;;)`: the number of new gc pages, and the last page.
unfoldable pub prepare : ℕ → ℕ → ℕ → ℕ → GcPage → Option (ℕ × GcPage)
unfolding moved_lists gc_list_npages_for
prepare zero page_size xid n g = none
prepare (suc fuel) page_size xid n g =
    let again = prepare fuel page_size xid n (moved_lists page_size g) in
    let count = new_count page_size (gc_list_npages_for page_size (some g) xid) n in
    if count == 1 && leb (gc_data page_size / 2) g.state.head then again else some (count, g)

-- Where a round of the loop puts pages: the last gc page with its list's offset, the new pages that
-- are left, and the index.
pub record Spot : Type 0 where
  pub tail : ℕ
  pub off : ℕ
  pub new : List ℕ
  pub idx : Index

abbrev pub spot_in : ℕ → List ℕ → Index → Option (ℕ × GcPage) → Option Spot
spot_in tail new idx none = none
spot_in tail new idx (some (off, g)) = some (record {
  tail = tail;
  off = off;
  new = new;
  idx = record idx { pages = put idx.pages tail g };
})

-- `if (list == NULL)`: the next new page is linked, and is the last one then. The index has both
-- ends of the list of gc pages, so that `gc_head` stays.
unfoldable pub start_page : ℕ → ℕ → ℕ → List ℕ → Index → Option Spot
unfolding gc_list_init
start_page page_size xid tail [] idx = none
start_page page_size xid tail (p ∷ new) idx =
    let linked = put idx.pages tail (record (idx.pages tail) { next = p }) in
    spot_in p new (record idx { pages = linked; gc_tail = p })
      (gc_list_init page_size (linked p) xid)

-- The start of a round, by the outcome of `gc_list_next`.
unfoldable pub next_spot : ℕ → ℕ → ℕ → List ℕ → Index → Option (ℕ × GcPage) → Option Spot
unfolding start_page
next_spot page_size xid tail new idx none = start_page page_size xid tail new idx
next_spot page_size xid tail new idx (some r) = spot_in tail new idx (some r)

-- What a round leaves: the pages to be freed, the last gc page, the new pages, and the index.
pub record Round : Type 0 where
  pub rest : List ℕ
  pub tail : ℕ
  pub new : List ℕ
  pub idx : Index

-- The end of a round.
unfoldable pub fill_spot : ℕ → List ℕ → Spot → Round
unfolding fill_list
fill_spot page_size pgs s =
    let r = fill_list page_size (s.idx.pages s.tail) s.off pgs in
    record {
      rest = r.1;
      tail = s.tail;
      new = s.new;
      idx = record s.idx { pages = put s.idx.pages s.tail r.0 };
    }

-- `do ... while (n > 0)`: the new pages that have not been used, and the index.
unfoldable pub free_loop : ℕ → ℕ → ℕ → ℕ → List ℕ → List ℕ → Index → Option (List ℕ × Index)
unfolding gc_list_next next_spot fill_spot
free_loop zero page_size xid tail new pgs idx = none
free_loop (suc fuel) page_size xid tail new pgs idx =
    elim (next_spot page_size xid tail new idx (gc_list_next page_size (idx.pages tail) xid)) [
      | none ↦ none
      | some s ↦
          let r = fill_spot page_size pgs s in
          let again = free_loop fuel page_size xid r.tail r.new r.rest r.idx in
          if length r.rest == 0 then some (r.new, r.idx) else again
    ]

-- `assert(used_pages == alloc_pages)`
abbrev pub all_used : Option (List ℕ × Index) → Option (Option Error × Index)
all_used none = none
all_used (some (new, idx)) = if length new == 0 then some (none, idx) else none

-- `ed_free_pgno` behind `ed_alloc`, by its outcome.
unfoldable pub free_with :
    ℕ → ℕ → List ℕ → Option (Result (List ℕ) × Index) → Option (Option Error × Index)
unfolding free_loop
free_with page_size xid pgs none = none
free_with page_size xid pgs (some (err x, idx)) = some (some x, idx)
free_with page_size xid pgs (some (ok new, idx)) =
    all_used (free_loop (suc (length new)) page_size xid idx.gc_tail new pgs idx)

-- `ed_free_pgno`; `xmin` and `fuel` are those of `alloc`.
unfoldable pub free_pgno :
    ℕ
    → (ℕ → ℕ → Option Error)
    → (ℕ → Option Error)
    → ℕ
    → ℕ
    → Index
    → ℕ
    → List ℕ
    → Option (Option Error × Index)
unfolding prepare alloc free_with
free_pgno page_size map_error truncate_error xmin fuel idx xid pgs =
    if length pgs == 0 then some (none, idx) else (elim (map_error idx.gc_tail 1) [
      | some x ↦ some (some x, idx)
      | none ↦ elim (prepare 2 page_size xid (length pgs) (idx.pages idx.gc_tail)) [
        | none ↦ none
        | some r ↦
            let idx' = record idx { pages = put idx.pages idx.gc_tail r.1 } in
            free_with page_size xid pgs (
              if r.0 == 0
              then some (ok [], idx')
              else alloc map_error truncate_error xmin fuel idx' r.0)
      ]
    ])
