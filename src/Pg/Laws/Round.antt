-- ===== src/Pg/Laws/Round.antt =====
-- `ed_free_pgno`: one round of the loop.
use eddy.Base.{
  ℕ, ◌+◌, ◌-◌, ◌/◌, ◌^◌, ◌≤◌, ◌<◌, ◌≡◌, ◌≢◌, refl, ltb, leb, min, arith, none, some, List, [], ◌++◌,
  inl, inr, true, false, length, take, length-drop,
}
use eddy.Bpt.{pg_none}
use eddy.Pg.{GcPage, pg_gc, gc_list_max, list_xid, list_npages, list_pages}
use eddy.Pg.Gc.{gc_list_remain, gc_list_next, gc_list_init, fill_list}
use eddy.Pg.Lists.{listed, IsGcPage}
use eddy.Pg.Laws.Fill.{put_pages_below, fill_list-listed, remain_eq}
use eddy.Pg.Laws.Next.{gc_list_next-IsNext}

module _ (page_size : ℕ) (small : page_size < 2 ^ 16) where
  -- A list that is handed out for transaction `xid`, with room for `room` pages.
  pub record Slot (xid room off : ℕ) (g : GcPage) : Type 0 where
    pub at_tail : off ≡ g.state.tail
    pub has_list : 0 < g.state.nlists
    pub valid : IsGcPage page_size g
    pub later : xid ≤ list_xid g.words off
    pub remain : gc_list_remain page_size g / 4 ≡ room

  -- The list after the filling.
  pub record Full (xid room : ℕ) (pgs : List ℕ) (g g' : GcPage) (rest : List ℕ) : Type 0 where
    pub same : listed g' ++ rest ≡ listed g ++ pgs
    pub valid : IsGcPage page_size g'
    pub has_list : 0 < g'.state.nlists
    pub no : g'.no ≡ g.no
    pub left : length rest ≡ length pgs - room
    pub full : 0 < length rest → gc_list_next page_size g' xid ≡ none

  next-full :
      (g : GcPage) (xid : ℕ)
      → 0 < g.state.nlists
      → xid ≤ list_xid g.words g.state.tail
      → gc_list_remain page_size g < 4
      → gc_list_next page_size g xid ≡ none
  unfolding gc_list_next
  next-full g xid lists newer few =
      let a : ltb 0 g.state.nlists ≡ true = ground arith in
      let b : leb xid (list_xid g.words g.state.tail) ≡ true = ground arith in
      let c : ltb (gc_list_remain page_size g) 4 ≡ true = ground arith in rw (a, b, c) refl

  pub fill_list-Full :
      (xid room : ℕ) (g : GcPage) (pgs : List ℕ)
      → Slot xid room g.state.tail g
      → let r = fill_list page_size g g.state.tail pgs in Full xid room pgs g r.0 r.1
  unfolding fill_list
  fill_list-Full xid room g pgs slot =
      let tail = g.state.tail in
      let m : ℕ = min (gc_list_remain page_size g / 4) (length pgs) in
      let n = list_npages g.words tail in
      let (same, valid) = fill_list-listed page_size small g pgs slot.valid slot.has_list in
      let g' = (fill_list page_size g tail pgs).0 in
      let count = length-drop m pgs in
      let before = remain_eq page_size g small slot.valid in
      let after = remain_eq page_size g' small valid in
      let at_count : list_npages g'.words tail ≡ n + m = ground arith in
      let kept = put_pages_below g.words (list_pages tail + n) (take m pgs) in
      let low : g'.words (tail / 4) ≡ g.words (tail / 4) =
        let k = kept (tail / 4) (omega arith) in ground arith in
      let high : g'.words (tail / 4 + 1) ≡ g.words (tail / 4 + 1) =
        let k = kept (tail / 4 + 1) (omega arith) in ground arith in
      record {
        same = same;
        valid = valid;
        has_list = slot.has_list;
        no = refl;
        left = omega (arith, count, slot.remain);
        full = λ more.
            next-full g' xid slot.has_list (rw (low, high) slot.later)
              (omega (arith, before, after, at_count, count, more));
      }

  -- The first list of a new page has room for `ED_GC_LIST_MAX` pages.
  pub record New (xid off : ℕ) (g g' : GcPage) : Type 0 where
    pub slot : Slot xid (gc_list_max page_size) off g'
    pub empty : listed g' ≡ []
    pub no : g'.no ≡ g.no

  abbrev initial : GcPage → GcPage
  initial g = record g {
    type = pg_gc;
    next = pg_none;
    state = record { head = 0; tail = 0; nlists = 0; nskip = 0 };
    words = λ i. 0;
  }

  initial-IsGcPage : (g : GcPage) → 64 ≤ page_size → IsGcPage page_size (initial g)
  initial-IsGcPage g large = record {
    aligned = refl;
    last = λ p. absurd (omega arith);
    empty = λ z. (refl, refl);
    fits = omega (arith, large);
    skipped = λ p. absurd (omega arith);
  }

  initial_room :
      (g : GcPage) (xid : ℕ) → 64 ≤ page_size → gc_list_next page_size (initial g) xid ≢ none
  unfolding gc_list_next
  initial_room g xid large none_left =
      let remain = remain_eq page_size (initial g) small (initial-IsGcPage g large) in
      let room : ltb (gc_list_remain page_size (initial g)) 16 ≡ false = ground arith in
      absurd (cc (rw room at none_left))

  pub gc_list_init-New :
      (g : GcPage) (xid : ℕ)
      → 64 ≤ page_size
      → (off : ℕ) × (g' : GcPage) × (gc_list_init page_size g xid ≡ some (off, g'))
        × New xid off g g'
  unfolding gc_list_init
  gc_list_init-New g xid large =
      elim (gc_list_next-IsNext page_size small (initial g) xid (initial-IsGcPage g large)) [
        | inl (none_left, h) ↦ absurd (initial_room g xid large none_left)
        | inr (off, g', eq, next) ↦
            let (at_head, no_pages) = next.first refl in
            let remain = remain_eq page_size g' small next.valid in
            (
              off,
              g',
              eq,
              record {
                slot = record {
                  at_tail = next.at_tail;
                  has_list = next.has_list;
                  valid = next.valid;
                  later = next.later;
                  remain = omega (arith, remain, at_head, no_pages);
                };
                empty = next.same;
                no = next.same_no;
              },
            )
      ]
