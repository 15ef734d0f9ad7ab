-- ===== src/Pg/Gc.antt =====
-- lib/pg.c: the lists of one gc page, `gc_list_*`, and the step that fills a list.
use eddy.Base.{
  ℕ, Bool, ◌+◌, ◌-◌, ◌*◌, ◌/◌, ◌%◌, ◌^◌, min, ltb, leb, ◌&&◌, if◌then◌else◌, Option, none, some,
  List, [], ◌∷◌, length, take, drop,
}
use eddy.Base.Mem.{Mem, put}
use eddy.Bpt.{pg_none}
use eddy.Pg.{GcPage, pg_gc, gc_data, align_size, gc_list_size, list_xid, list_npages, list_pages}

-- `gc_list_remain` for the list at the tail: a difference of `ssize_t`, returned as `uint16_t`. The
-- summand 2 ^ 35 keeps the difference positive for every 32-bit count and does not change it
-- modulo 2 ^ 16.
unfoldable pub gc_list_remain : ℕ → GcPage → ℕ
gc_list_remain page_size g =
    (gc_data page_size + 2 ^ 35 - g.state.tail - 12 - 4 * list_npages g.words g.state.tail) % 2 ^ 16

-- The assertion of `gc_list_remain`: the difference is not negative, and then not more than the size of
-- the data. The model does not stop where it fails.
unfoldable pub remain_asserted : ℕ → GcPage → Bool
remain_asserted page_size g =
    leb (g.state.tail + 12 + 4 * list_npages g.words g.state.tail) (gc_data page_size)

-- `gc_list_npages`
unfoldable pub gc_list_npages : ℕ → ℕ
gc_list_npages size = if leb size 12 then 0 else (size - 12) / 4

-- `gc_list_npages_for`; the argument is `none` for `NULL`.
unfoldable pub gc_list_npages_for : ℕ → Option GcPage → ℕ → ℕ
unfolding gc_list_remain gc_list_npages
gc_list_npages_for page_size none xid = 0
gc_list_npages_for page_size (some g) xid =
    let remain = gc_list_remain page_size g in
    if leb xid (list_xid g.words g.state.tail)
    then remain / 4
    else gc_list_npages (gc_data page_size - align_size (gc_data page_size - remain) 8)

-- A list with no pages.
unfoldable pub new_list : Mem ℕ → ℕ → ℕ → Mem ℕ
new_list words off xid =
    put (put (put words (off / 4) (xid % 2 ^ 32)) (off / 4 + 1) (xid / 2 ^ 32)) (off / 4 + 2) 0

-- `gc_list_next` behind the check for `NULL`; the result has the list's offset.
unfoldable pub gc_list_next : ℕ → GcPage → ℕ → Option (ℕ × GcPage)
unfolding gc_list_remain new_list
gc_list_next page_size g xid =
    let s = g.state in
    let remain = gc_list_remain page_size g in
    let tail =
      if ltb 0 s.nlists
      then (s.tail + gc_list_size (list_npages g.words s.tail)) % 2 ^ 16
      else s.head in
    if ltb 0 s.nlists && leb xid (list_xid g.words s.tail)
    then (if ltb remain 4 then none else some (s.tail, g))
    else if ltb remain 16
    then none
    else some (
      tail,
      record g {
        state = record s { tail = tail; nlists = (s.nlists + 1) % 2 ^ 16 };
        words = new_list g.words tail xid;
      },
    )

-- `gc_list_init`
unfoldable pub gc_list_init : ℕ → GcPage → ℕ → Option (ℕ × GcPage)
unfolding gc_list_next
gc_list_init page_size g xid =
    gc_list_next page_size
      (record g {
        type = pg_gc;
        next = pg_none;
        state = record { head = 0; tail = 0; nlists = 0; nskip = 0 };
        words = λ i. 0;
      })
      xid

-- The `memcpy` of page numbers to word `i`.
unfoldable pub put_pages : Mem ℕ → ℕ → List ℕ → Mem ℕ
put_pages words i [] = words
put_pages words i (p ∷ pgs) = put_pages (put words i p) (i + 1) pgs

-- The end of a round of `ed_free_pgno`: as many pages as there is room for go to the list at
-- `off`, which is the last one. The other pages are left.
unfoldable pub fill_list : ℕ → GcPage → ℕ → List ℕ → GcPage × List ℕ
unfolding gc_list_remain put_pages
fill_list page_size g off pgs =
    let npg = min (gc_list_remain page_size g / 4) (length pgs) in
    let n = list_npages g.words off in
    (
      record g {
        words = put (put_pages g.words (list_pages off + n) (take npg pgs)) (off / 4 + 2) (n + npg);
      },
      drop npg pgs,
    )
