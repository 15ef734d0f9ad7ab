-- ===== src/Pg/Laws/Free.antt =====
-- `ed_free_pgno`: no freed page is lost, and as many new gc pages are used as were allocated.
use eddy.Base.{
  ℕ, zero, suc, ◌+◌, ◌*◌, ◌^◌, ◌≤◌, ◌<◌, ◌≡◌, refl, sym, ap, ap₂, ◌∙◌, arith, none, some, List, [],
  ◌∷◌, ◌++◌, inl, inr, length,
}
use eddy.Base.Mem.{Mem, put}
use eddy.Pg.{GcPage, Index, gc_list_max}
use eddy.Pg.Gc.{gc_list_npages_for, gc_list_next, gc_list_init}
use eddy.Pg.Lists.{listed, IsGcPage, link, all_listed}
use eddy.Pg.Free.{new_count, Spot, next_spot, start_page, spot_in, free_loop}
use eddy.Pg.Laws.Round.{Slot, gc_list_init-New}
use eddy.Pg.Laws.Next.{gc_list_next-IsNext}
use eddy.Pg.Laws.Freed.{IsDistinct, Freed, put_same, put_other, count_enough}
use eddy.Pg.Laws.Fills.{used_after, number-put, loop-spot, round-Outcome, Outcome, Continues}

module _ (page_size : ℕ) (small : page_size < 2 ^ 16) (large : 64 ≤ page_size) (xid : ℕ) where
  abbrev with_next : Index → ℕ → ℕ → GcPage
  with_next idx tail p = record (idx.pages tail) { next = p }

  abbrev linked_pages : Index → ℕ → ℕ → Mem GcPage
  linked_pages idx tail p = put idx.pages tail (with_next idx tail p)

  abbrev new_spot : Index → ℕ → ℕ → List ℕ → ℕ → GcPage → Spot
  new_spot idx tail p new off g = record {
    tail = p;
    off = off;
    new = new;
    idx = record idx { pages = put (linked_pages idx tail p) p g; gc_tail = p };
  }

  next_spot-new :
      (tail p : ℕ) (new : List ℕ) (idx : Index) (off : ℕ) (g : GcPage)
      → gc_list_next page_size (idx.pages tail) xid ≡ none
      → gc_list_init page_size (linked_pages idx tail p p) xid ≡ some (off, g)
      → next_spot page_size xid tail (p ∷ new) idx (gc_list_next page_size (idx.pages tail) xid)
        ≡ some (new_spot idx tail p new off g)
  unfolding next_spot start_page
  next_spot-new tail p new idx off g no_room init =
      ap (next_spot page_size xid tail (p ∷ new) idx) no_room ∙ ap (spot_in p new _) init

  with_next-IsGcPage :
      (idx : Index) (tail p : ℕ)
      → IsGcPage page_size (idx.pages tail)
      → IsGcPage page_size (with_next idx tail p)
  with_next-IsGcPage idx tail p v = record {
    aligned = v.aligned;
    last = v.last;
    empty = v.empty;
    fits = v.fits;
    skipped = v.skipped;
  }

  -- What is done from the new page on is done from the last page on.
  Freed-new :
      (tail p : ℕ) (new pgs : List ℕ) (idx : Index) (off : ℕ) (g : GcPage) (idx' : Index)
      → listed g ≡ []
      → (idx.pages tail).no ≡ tail
      → IsGcPage page_size (idx.pages tail)
      → IsDistinct (tail ∷ p ∷ new)
      → Freed page_size p new pgs (new_spot idx tail p new off g).idx idx'
      → Freed page_size tail (p ∷ new) pgs idx idx'
  Freed-new tail p new pgs idx off g idx' empty number valid distinct freed =
      let ((ne, apart), rest) = distinct in
      let pages = linked_pages idx tail p in
      let (same, not_last) = freed.others tail ne apart in
      let at_tail : idx'.pages tail ≡ with_next idx tail p =
        same ∙ put_other pages p g tail ne ∙ put_same idx.pages tail (with_next idx tail p) in
      let from_new : listed (idx'.pages p) ++ all_listed freed.chain ≡ pgs =
        freed.listed ∙ ap (λ x. listed x ++ pgs) (put_same pages p g) ∙ ap (λ l. l ++ pgs) empty in
      record {
        chain = idx'.pages p ∷ freed.chain;
        linked = rw at_tail (link (λ e. not_last (sym number ∙ e)) freed.linked);
        listed = ap₂ ◌++◌ (ap (λ x. listed x) at_tail) from_new;
        valid = (rw at_tail (with_next-IsGcPage idx tail p valid), freed.valid);
        number = rw at_tail number;
        others = λ q q_tail q_new.
            let (q_p, q_rest) = q_new in
            let (kept, behind) = freed.others q q_p q_rest in
            (
              kept
                  ∙ put_other pages p g q q_p
                  ∙ put_other idx.pages tail (with_next idx tail p) q q_tail,
              behind,
            );
      }

  -- The loop at a page without room goes on with a new page.
  full-Continues : (fuel : ℕ) → Continues page_size small large xid fuel
  full-Continues zero tail [] pgs idx no_room enough numbered valid at_end distinct pos le used =
      absurd (omega (arith, pos, le))
  full-Continues zero tail (p ∷ new) pgs idx no_room enough numbered valid at_end distinct pos le
        used =
      absurd (omega (arith, enough))
  full-Continues (suc fuel) tail [] pgs idx no_room enough numbered valid at_end distinct pos le
        used =
      absurd (omega (arith, pos, le))
  full-Continues (suc fuel) tail (p ∷ new) pgs idx no_room enough numbered valid at_end distinct pos
        le used =
      let pages = linked_pages idx tail p in
      let (off, g, init, fresh) = gc_list_init-New page_size small (pages p) xid large in
      let s = new_spot idx tail p new off g in
      let numbered' =
        number-put page_size small large xid idx.pages tail (with_next idx tail p) (numbered tail)
          numbered in
      let here = put_same pages p g in
      let more : (1 + length new) * gc_list_max page_size
          ≡ gc_list_max page_size + length new * gc_list_max page_size =
        grind arith in
      let (idx', eq, freed) =
        round-Outcome page_size small large xid fuel (gc_list_max page_size) pgs s
          (full-Continues fuel) (rw here fresh.slot) (omega (arith, enough))
          (number-put page_size small large xid pages p g (fresh.no ∙ numbered' p) numbered') refl
          distinct.1 (omega (arith, le, more)) (λ q. omega (arith, used, more)) in
      (
        idx',
        loop-spot page_size small large xid fuel tail (p ∷ new) pgs idx s
              (next_spot-new tail p new idx off g no_room init)
            ∙ eq,
        Freed-new tail p new pgs idx off g idx' fresh.empty (numbered tail) valid distinct freed,
      )

  -- If the last page `tail` of well-formed gc pages has lists, the page size is from 64 to below
  -- 2 ^ 16, every page stands under its own number, there is a page to be freed, and the new pages
  -- have other numbers and are as many as the code allocates, then the loop of `ed_free_pgno`
  -- returns: it uses all new pages, and links them behind `tail`, the last one as the index's last
  -- gc page. In order, the pages from `tail` on list what `tail` listed and then all the pages to be
  -- freed, they are well formed, and every other page is as it was.
  pub free_loop-Freed :
      (tail : ℕ) (new pgs : List ℕ) (idx : Index)
      → ((p : ℕ) → (idx.pages p).no ≡ p)
      → IsGcPage page_size (idx.pages tail)
      → 0 < (idx.pages tail).state.nlists
      → idx.gc_tail ≡ tail
      → IsDistinct (tail ∷ new)
      → 0 < length pgs
      → length new
        ≡ new_count page_size
            (gc_list_npages_for page_size (some (idx.pages tail)) xid)
            (length pgs)
      → Outcome page_size small large xid tail new pgs idx
          (free_loop (suc (length new)) page_size xid tail new pgs idx)
  unfolding next_spot
  free_loop-Freed tail new pgs idx numbered valid has_lists at_end distinct pos count =
      let room : ℕ = gc_list_npages_for page_size (some (idx.pages tail)) xid in
      let (le, used) = count_enough page_size large room (length pgs) (length new) count in
      elim (gc_list_next-IsNext page_size small (idx.pages tail) xid valid) [
        | inl (no_room, zero_room) ↦
            let r0 : room ≡ 0 = zero_room has_lists in
            full-Continues (suc (length new)) tail new pgs idx no_room (omega arith) numbered valid
              at_end distinct pos (omega (arith, le, r0))
              (used_after page_size small large xid new room (length pgs) (length pgs)
                (omega (arith, r0)) pos used)
        | inr (off, g, eq, next) ↦
            let s : Spot = record {
              tail = tail;
              off = off;
              new = new;
              idx = record idx { pages = put idx.pages tail g };
            } in
            let here = put_same idx.pages tail g in
            let slot : Slot page_size small xid room off g = record {
              at_tail = next.at_tail;
              has_list = next.has_list;
              valid = next.valid;
              later = next.later;
              remain = sym (next.room has_lists);
            } in
            let (idx', returned, freed) =
              round-Outcome page_size small large xid (length new) room pgs s
                (full-Continues (length new)) (rw here slot) (omega arith)
                (number-put page_size small large xid idx.pages tail g
                  (next.same_no ∙ numbered tail) numbered)
                at_end distinct le used in
            (
              idx',
              loop-spot page_size small large xid (length new) tail new pgs idx s
                    (ap (next_spot page_size xid tail new idx) eq)
                  ∙ returned,
              record {
                chain = freed.chain;
                linked = freed.linked;
                listed =
                    freed.listed ∙ ap (λ x. listed x ++ pgs) here ∙ ap (λ l. l ++ pgs) next.same;
                valid = freed.valid;
                number = freed.number;
                others = λ p ne apart.
                    let (same, behind) = freed.others p ne apart in
                    (same ∙ put_other idx.pages tail g p ne, behind);
              },
            )
      ]
