-- ===== src/Pg/Alloc.antt =====
-- lib/pg.c: `ed_alloc`. The pages that are handed out are a list of page numbers.
--
-- `map_error no count` is the outcome of `ed_pg_map` on `count` pages from `no` on, and
-- `truncate_error count` that of `ftruncate` to `count` pages. `xmin` is `ed_idx_xmin(idx, 0)`.
use eddy.Base.{
  ℕ, zero, suc, ◌+◌, ◌-◌, ◌%◌, ◌^◌, min, Bool, true, false, ltb, leb, ◌==◌, ◌&&◌, if◌then◌else◌,
  Option, none, some, List, [], ◌∷◌, ◌++◌, length,
}
use eddy.Base.Mem.{Mem, put, slice}
use eddy.Base.Result.{Result, ok, err, Error, sys}
use eddy.Pg.{
  GcState, GcPage, Index, align_size, gc_list_size, list_xid, list_npages, list_pages, alloc_count,
}

-- The variables of the loop: `gc`, `state`, `pgno[..npgno]`, and the numbers of `pg[..nrecycle]`.
pub record Stage : Type 0 where
  pub gc : GcPage
  pub state : GcState
  pub pgno : List ℕ
  pub recycled : List ℕ

-- The end of the loop's body, from the head list on: whether the loop goes on, and the variables.
unfoldable pub take_list : ℕ → ℕ → Stage → Bool × Stage
take_list npg xmin st =
    let s = st.state in
    let words = st.gc.words in
    let xid = list_xid words s.head in
    let npages = (list_npages words s.head + 2 ^ 16 - s.nskip) % 2 ^ 16 in
    let nuse = min npages (npg - length st.pgno - length st.recycled) in
    let pgno = st.pgno ++ slice words (list_pages s.head + s.nskip) nuse in
    if ltb 0 xid && leb xmin xid
    then (false, st)
    else if ltb nuse npages
    then (false, record st { pgno = pgno; state = record s { nskip = s.nskip + nuse } })
    else (
      true,
      record st {
        pgno = pgno;
        state = record s {
          head = (s.head + gc_list_size (list_npages words s.head)) % 2 ^ 16;
          nlists = s.nlists - 1;
          nskip = 0;
        };
      },
    )

module _ (pages : Mem GcPage) (gc_tail : ℕ) (map_error : ℕ → ℕ → Option Error) (npg xmin : ℕ) where
  -- `while (npgno + nrecycle < npg)`
  unfoldable pub collect : ℕ → Stage → Option (Result Stage)
  collect zero st = none
  collect (suc fuel) st =
      let next = pages st.gc.next in
      let moved = record st {
        gc = next;
        state = next.state;
        recycled = st.recycled ++ st.gc.no ∷ [];
      } in
      let here = take_list npg xmin st in
      let there = take_list npg xmin moved in
      let after_here = collect fuel here.1 in
      let after_there = collect fuel there.1 in
      if leb npg (length st.pgno + length st.recycled)
      then some (ok st)
      else if ltb 0 st.state.nlists
      then (if here.0 then after_here else some (ok here.1))
      else if st.gc.no == gc_tail
      then some (ok st)
      else (elim (map_error st.gc.next 1) [
        | some x ↦ some (err x)
        | none ↦
            if next.state.nlists == 0
            then some (ok moved)
            else if there.0
            then after_there
            else some (ok there.1)
      ])

-- `qsort` with `pg_cmp`
unfoldable pub insert_page : ℕ → List ℕ → List ℕ
insert_page p [] = p ∷ []
insert_page p (q ∷ pgs) = let rest = insert_page p pgs in if leb p q then p ∷ q ∷ pgs else q ∷ rest

unfoldable pub sort_pages : List ℕ → List ℕ
sort_pages [] = []
sort_pages (p ∷ pgs) = insert_page p (sort_pages pgs)

-- The runs of consecutive pages in `map_sorted_pages`: `count` pages from `start` on so far.
unfoldable pub map_runs : (ℕ → ℕ → Option Error) → ℕ → ℕ → List ℕ → Option Error
map_runs map_error start count [] = map_error start count
map_runs map_error start count (p ∷ pgs) =
    let longer = map_runs map_error start (count + 1) pgs in
    let other = map_runs map_error p 1 pgs in
    if p == start + count
    then longer
    else (elim (map_error start count) [ some x ↦ some x | none ↦ other ])

-- `map_sorted_pages`: `none` if all pages are mapped.
unfoldable pub map_sorted_pages : (ℕ → ℕ → Option Error) → List ℕ → Option Error
map_sorted_pages map_error [] = none
map_sorted_pages map_error (p ∷ pgs) = map_runs map_error p 1 pgs

unfoldable pub numbers : ℕ → ℕ → List ℕ
numbers start zero = []
numbers start (suc n) = start ∷ numbers (start + 1) n

-- The writes of `map_live_pages`.
unfoldable pub live_pages : Mem GcPage → ℕ → ℕ → Mem GcPage
live_pages pages start n p =
    if leb start p && ltb p (start + n) then record (pages p) { no = p } else pages p

-- `map_end_pages`: the number of pages behind the end, once there are `n`, and the outcome of
-- `ftruncate` where it is called.
abbrev pub end_count : Index → ℕ → ℕ
end_count idx n =
    if ltb idx.tail_count n then idx.tail_count + align_size n alloc_count else idx.tail_count

abbrev pub end_error : (ℕ → Option Error) → Index → ℕ → Option Error
end_error truncate_error idx n =
    if ltb idx.tail_count n then truncate_error (idx.tail_start + end_count idx n) else none

-- `map_end_pages` with `map_live_pages`
unfoldable pub map_end_pages :
    (ℕ → ℕ → Option Error) → (ℕ → Option Error) → Index → ℕ → Result (List ℕ) × Index
map_end_pages map_error truncate_error idx n =
    let start = idx.tail_start in
    let count = end_count idx n in
    if n == 0 then (ok [], idx) else (elim (end_error truncate_error idx n) [
      | some x ↦ (err x, idx)
      | none ↦ elim (map_error start n) [
        | some x ↦ (err x, record idx { tail_count = count })
        | none ↦ (
          ok (numbers start n),
          record idx {
            pages = live_pages idx.pages start n;
            tail_start = start + n;
            tail_count = count - n;
          },
        )
      ]
    ])

-- `if (state.head > state.tail) { state.tail = state.head; }`
abbrev pub settled : GcState → GcState
settled s = record s { tail = if ltb s.tail s.head then s.head else s.tail }

-- The end of `ed_alloc`, by the outcomes of `map_sorted_pages` and `map_end_pages`; the last
-- argument is the index after the latter.
unfoldable pub alloc_end :
    Index → Stage → Option Error → Result (List ℕ) → Index → Result (List ℕ) × Index
alloc_end idx st (some x) r idx' = (err x, idx)
alloc_end idx st none (err x) idx' = (err x, idx')
alloc_end idx st none (ok tail) idx' =
    let gc = st.gc.no in
    (
      ok (st.recycled ++ sort_pages st.pgno ++ tail),
      record idx' {
        pages = put idx'.pages gc (record (idx'.pages gc) { state = settled st.state });
        gc_head = gc;
      },
    )

-- `ed_alloc` behind the loop, from the sort on.
unfoldable pub alloc_done :
    (ℕ → ℕ → Option Error)
    → (ℕ → Option Error)
    → ℕ
    → Index
    → Option (Result Stage)
    → Option (Result (List ℕ) × Index)
alloc_done map_error truncate_error npg idx none = none
alloc_done map_error truncate_error npg idx (some (err x)) = some (err x, idx)
alloc_done map_error truncate_error npg idx (some (ok st)) =
    let n = npg - (length st.pgno + length st.recycled) in
    let r = map_end_pages map_error truncate_error idx n in
    some (alloc_end idx st (map_sorted_pages map_error (sort_pages st.pgno)) r.0 r.1)

-- The loop's variables at its start.
abbrev pub alloc_start : Index → Stage
alloc_start idx =
    let gc = idx.pages idx.gc_head in record { gc = gc; state = gc.state; pgno = []; recycled = [] }

-- `ed_alloc`; 22 is `EINVAL`.
unfoldable pub alloc :
    (ℕ → ℕ → Option Error)
    → (ℕ → Option Error)
    → ℕ
    → ℕ
    → Index
    → ℕ
    → Option (Result (List ℕ) × Index)
alloc map_error truncate_error xmin fuel idx npg =
    let st = collect idx.pages idx.gc_tail map_error npg xmin fuel (alloc_start idx) in
    if npg == 0
    then some (ok [], idx)
    else if ltb 1024 npg
    then some (err (sys 22), idx)
    else (elim (map_error idx.gc_head 1) [
      | some x ↦ some (err x, idx)
      | none ↦ alloc_done map_error truncate_error npg idx st
    ])
