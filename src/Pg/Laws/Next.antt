-- ===== src/Pg/Laws/Next.antt =====
-- `gc_list_next`: the list that takes the next pages.
use eddy.Base.{
  ℕ, ◌+◌, ◌-◌, ◌/◌, ◌^◌, ◌≤◌, ◌<◌, ◌≡◌, refl, ◌∙◌, ltb, leb, ◌&&◌, arith, ◌⊎◌, true, false, none,
  some, Bool-cases, inl, inr,
}
use eddy.Pg.{GcPage, gc_data, align_size, gc_list_size, list_xid, list_npages}
use eddy.Pg.Gc.{gc_list_remain, gc_list_next, gc_list_npages, gc_list_npages_for}
use eddy.Pg.Lists.{listed, IsGcPage}
use eddy.Pg.Laws.Fill.{behind-aligned, remain_eq}
use eddy.Pg.Laws.Push.{
  behind_last, new_list_count, new_list_xid, next_off, pushed, nlists_small, next_off_eq,
  pushed-IsGcPage, listed-pushed,
}

module _ (page_size : ℕ) (small : page_size < 2 ^ 16) where
  -- What the list that is handed out is: the last one, with no pages lost, of this id or a later,
  -- with the room that `gc_list_npages_for` announced if the page had lists, and without pages if
  -- it had none.
  pub record IsNext (g : GcPage) (xid off : ℕ) (g' : GcPage) : Type 0 where
    pub at_tail : off ≡ g'.state.tail
    pub has_list : 0 < g'.state.nlists
    pub same : listed g' ≡ listed g
    pub valid : IsGcPage page_size g'
    pub later : xid ≤ list_xid g'.words off
    pub same_no : g'.no ≡ g.no
    pub room :
        0 < g.state.nlists
        → gc_list_npages_for page_size (some g) xid ≡ gc_list_remain page_size g' / 4
    pub first :
        g.state.nlists ≡ 0
        → (g'.state.tail ≡ g.state.head) × (list_npages g'.words g'.state.tail ≡ 0)

  room_after :
      (g : GcPage) (xid : ℕ)
      → IsGcPage page_size g
      → 16 ≤ gc_list_remain page_size g
      → 0 < g.state.nlists
      → list_xid g.words g.state.tail < xid
      → gc_list_npages_for page_size (some g) xid ≡ gc_list_remain page_size (pushed g xid) / 4
  unfolding gc_list_npages_for gc_list_npages
  room_after g xid ok room some_lists older =
      let words = g.words in
      let tail = g.state.tail in
      let off : ℕ = next_off g in
      let newer : leb xid (list_xid words tail) ≡ false = ground arith in
      let remain = remain_eq page_size g small ok in
      let aligned = behind-aligned words g.state.head (g.state.nlists - 1) ok.aligned in
      let last = ok.last some_lists in
      let (end, fits, off_aligned) = next_off_eq page_size small g ok room in
      let end' = behind_last words g.state.head g.state.nlists tail some_lists last in
      let remain' =
        remain_eq page_size (pushed g xid) small (pushed-IsGcPage page_size small g xid ok room) in
      let count = new_list_count words off xid in
      let off_eq : off ≡ tail + gc_list_size (list_npages words tail) = end ∙ end' in
      let start : align_size (gc_data page_size - gc_list_remain page_size g) 8 ≡ off =
        omega (arith, remain, off_eq, last, aligned) in
      let left : gc_list_remain page_size (pushed g xid) + off + 12 ≡ gc_data page_size =
        omega (arith, remain', count) in
      rw (newer, start) (ground arith)

  merged_room :
      (g : GcPage) (xid : ℕ)
      → xid ≤ list_xid g.words g.state.tail
      → gc_list_npages_for page_size (some g) xid ≡ gc_list_remain page_size g / 4
  unfolding gc_list_npages_for
  merged_room g xid newer =
      let test : leb xid (list_xid g.words g.state.tail) ≡ true = ground arith in rw test refl

  first_off : (g : GcPage) → g.state.nlists ≡ 0 → next_off g ≡ g.state.head
  first_off g z = rw z refl

  -- A list that is full, and a page without room for another one.
  pub full_list :
      (g : GcPage) (xid : ℕ)
      → xid ≤ list_xid g.words g.state.tail
      → gc_list_remain page_size g < 4
      → gc_list_npages_for page_size (some g) xid ≡ 0
  unfolding gc_list_npages_for
  full_list g xid newer full =
      let test : leb xid (list_xid g.words g.state.tail) ≡ true = ground arith in
      rw test (omega (arith, full))

  full_page :
      (g : GcPage) (xid : ℕ)
      → IsGcPage page_size g
      → list_xid g.words g.state.tail < xid
      → gc_list_remain page_size g < 16
      → gc_list_npages_for page_size (some g) xid ≡ 0
  unfolding gc_list_npages_for gc_list_npages
  full_page g xid ok older full =
      let test : leb xid (list_xid g.words g.state.tail) ≡ false = ground arith in
      let remain = remain_eq page_size g small ok in
      let size : ℕ =
        gc_data page_size - align_size (gc_data page_size - gc_list_remain page_size g) 8 in
      let le : size ≤ 15 = omega (arith, remain, full) in
      rw test (elim (Bool-cases (leb size 12)) [
        | inl none_left ↦ rw none_left refl
        | inr more ↦ rw more (omega (arith, le))
      ])

  -- In a gc page that is well formed, `gc_list_next` either finds no room, and then none was
  -- announced by `gc_list_npages_for` if the page has lists, or gives the last list of a
  -- well-formed page that lists the same pages. That list's transaction id is the one given or a
  -- later one, and its room is what was announced if the page had lists.
  pub gc_list_next-IsNext :
      (g : GcPage) (xid : ℕ)
      → IsGcPage page_size g
      → let r = gc_list_next page_size g xid in
        ((r ≡ none) × (0 < g.state.nlists → gc_list_npages_for page_size (some g) xid ≡ 0))
        ⊎ ((off : ℕ) × (g' : GcPage) × (r ≡ some (off, g')) × IsNext g xid off g')
  unfolding gc_list_next
  gc_list_next-IsNext g xid ok =
      let s = g.state in
      let newer = ltb 0 s.nlists && leb xid (list_xid g.words s.tail) in
      elim (Bool-cases newer) [
        | inl merge ↦ elim (Bool-cases (ltb (gc_list_remain page_size g) 4)) [
          | inl full ↦
              inl (rw (merge, full) refl, λ p. full_list g xid (ground arith) (ground arith))
          | inr room ↦ inr (
            s.tail,
            g,
            rw (merge, room) refl,
            record {
              at_tail = refl;
              has_list = ground arith;
              same = refl;
              valid = ok;
              later = ground arith;
              same_no = refl;
              room = λ p. merged_room g xid (ground arith);
              first = λ z. absurd (ground arith);
            },
          )
        ]
        | inr add ↦ elim (Bool-cases (ltb (gc_list_remain page_size g) 16)) [
          | inl full ↦
              inl (rw (add, full) refl, λ p. full_page g xid ok (ground arith) (ground arith))
          | inr room ↦
              let enough : 16 ≤ gc_list_remain page_size g = ground arith in
              let few = nlists_small page_size small g ok in
              inr (
                next_off g,
                pushed g xid,
                rw (add, room) refl,
                record {
                  at_tail = refl;
                  has_list = omega arith;
                  same = listed-pushed page_size small g xid ok enough;
                  valid = pushed-IsGcPage page_size small g xid ok enough;
                  later = omega (arith, new_list_xid g.words (next_off g) xid);
                  same_no = refl;
                  room = λ p. room_after g xid ok enough p (ground arith);
                  first = λ z. (first_off g z, new_list_count g.words (next_off g) xid);
                },
              )
        ]
      ]
