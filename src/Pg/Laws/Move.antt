-- ===== src/Pg/Laws/Move.antt =====
-- `ed_free_pgno`: the move of a gc page's lists, and the number of new pages.
use eddy.Base.{
  ℕ, zero, suc, ◌+◌, ◌-◌, ◌*◌, ◌/◌, ◌%◌, ◌^◌, ◌≤◌, ◌<◌, ◌≡◌, refl, sym, ap, ap₂, ◌∙◌, arith, [],
  ◌++◌,
}
use eddy.Base.Mem.{Mem, slice, slice_ext}
use eddy.Pg.{GcPage, gc_data, gc_list_size, list_npages, list_pages}
use eddy.Pg.Lists.{behind, pages_from, listed, IsGcPage}
use eddy.Pg.Free.{moved_lists}
use eddy.Pg.Laws.Fill.{le_behind, behind-aligned}

-- The words of `words` from offset `head` on are those of `new`, up to offset `end`.
abbrev Shifted : Mem ℕ → Mem ℕ → ℕ → ℕ → Type 0
Shifted words new head end = (j : ℕ) → head / 4 + j < end / 4 → new j ≡ words (head / 4 + j)

behind_shift :
    (words new : Mem ℕ) (head off n end : ℕ)
    → head % 8 ≡ 0
    → off % 8 ≡ 0
    → Shifted words new head end
    → behind words (head + off) n + 12 ≤ end
    → head + behind new off n ≡ behind words (head + off) n
behind_shift words new head off zero end hh ho same fits = refl
behind_shift words new head off (suc n) end hh ho same fits =
    let np : ℕ = list_npages words (head + off) in
    let le = le_behind words (head + off + gc_list_size np) n in
    let at : head / 4 + (off / 4 + 2) ≡ (head + off) / 4 + 2 = omega (arith, hh, ho) in
    let e : list_npages new off ≡ np =
      same (off / 4 + 2) (omega (arith, le, fits, hh, ho)) ∙ ap words at in
    let assoc : head + off + gc_list_size np ≡ head + (off + gc_list_size np) = omega arith in
    let fits' : behind words (head + (off + gc_list_size np)) n + 12 ≤ end = rw (← assoc) fits in
    rw e (
      behind_shift words new head (off + gc_list_size np) n end hh (omega (arith, ho)) same fits'
      ∙ ap (λ i. behind words i n) (sym assoc))

-- Lists that end at `end` or before.
pages_from_shift :
    (words new : Mem ℕ) (head off nskip n end : ℕ)
    → head % 8 ≡ 0
    → off % 8 ≡ 0
    → end % 4 ≡ 0
    → Shifted words new head end
    → let t = behind words (head + off) n in
      t + 12 + 4 * list_npages words t ≤ end
      → pages_from new off nskip (suc n) ≡ pages_from words (head + off) nskip (suc n)
pages_from_shift words new head off nskip zero end hh ho he same fits =
    let at : head / 4 + (off / 4 + 2) ≡ (head + off) / 4 + 2 = omega (arith, hh, ho) in
    let np : ℕ = list_npages words (head + off) in
    let e : list_npages new off ≡ np =
      same (off / 4 + 2) (omega (arith, fits, hh, ho)) ∙ ap words at in
    let first : slice new (list_pages off + nskip) (np - nskip)
        ≡ slice words (list_pages (head + off) + nskip) (np - nskip) =
      slice_ext new words _ _ (np - nskip) (λ i p.
        same (list_pages off + nskip + i) (omega (arith, fits, hh, ho, he, p))
        ∙ ap words (omega (arith, hh, ho))) in
    rw e (ap (λ l. l ++ []) first)
pages_from_shift words new head off nskip (suc n) end hh ho he same fits =
    let np : ℕ = list_npages words (head + off) in
    let next : ℕ = off + gc_list_size np in
    let assoc : head + off + gc_list_size np ≡ head + next = omega arith in
    let le = le_behind words (head + off + gc_list_size np) n in
    let at : head / 4 + (off / 4 + 2) ≡ (head + off) / 4 + 2 = omega (arith, hh, ho) in
    let e : list_npages new off ≡ np =
      same (off / 4 + 2) (omega (arith, le, fits, hh, ho)) ∙ ap words at in
    let first : slice new (list_pages off + nskip) (np - nskip)
        ≡ slice words (list_pages (head + off) + nskip) (np - nskip) =
      slice_ext new words _ _ (np - nskip) (λ i p.
        same (list_pages off + nskip + i) (omega (arith, le, fits, hh, ho, he, p))
        ∙ ap words (omega (arith, hh, ho))) in
    let rest =
      pages_from_shift words new head next 0 n end hh (omega (arith, ho)) he same
        (rw assoc at fits) in
    rw (e, assoc) (ap₂ ◌++◌ first rest)

module _ (page_size : ℕ) (small : page_size < 2 ^ 16) (even : page_size % 8 ≡ 0) where
  shifted :
      (g : GcPage)
      → g.state.head % 8 ≡ 0
      → Shifted g.words (moved_lists page_size g).words g.state.head (gc_data page_size)
  unfolding moved_lists
  shifted g hh j p = ground (arith, even)

  -- If the page size is a multiple of 8 below 2 ^ 16, the move of the lists to the start of a
  -- well-formed gc page with lists keeps the pages that are listed, and the page well formed.
  pub moved_lists-listed :
      (g : GcPage)
      → IsGcPage page_size g
      → 0 < g.state.nlists
      → (listed (moved_lists page_size g) ≡ listed g) × IsGcPage page_size (moved_lists page_size g)
  unfolding moved_lists
  moved_lists-listed g ok some_lists =
      let words = g.words in
      let head = g.state.head in
      let tail = g.state.tail in
      let n = g.state.nlists - 1 in
      let m = moved_lists page_size g in
      let one : suc n ≡ g.state.nlists = omega (arith, some_lists) in
      let none_off : head + 0 ≡ head = omega arith in
      let last = ok.last some_lists in
      let last' : behind words (head + 0) n ≡ tail = rw none_off last in
      let le : head ≤ tail = omega (arith, le_behind words head n, last) in
      let tail_aligned = behind-aligned words head n ok.aligned in
      let tail' : m.state.tail ≡ tail - head = omega (arith, le, ok.fits) in
      let same = shifted g ok.aligned in
      let end : behind words (head + 0) n + 12 ≤ gc_data page_size =
        omega (arith, last', ok.fits) in
      let behind_eq =
        behind_shift words m.words head 0 n (gc_data page_size) ok.aligned refl same end in
      let last_m : behind m.words 0 n ≡ m.state.tail = omega (arith, behind_eq, last', tail') in
      let at : head / 4 + (m.state.tail / 4 + 2) ≡ tail / 4 + 2 =
        omega (arith, tail', le, ok.aligned, tail_aligned, last) in
      let count : list_npages m.words m.state.tail ≡ list_npages words tail =
        same (m.state.tail / 4 + 2) (omega (arith, at, ok.fits)) ∙ ap words at in
      let first : list_npages m.words 0 ≡ list_npages words head =
        same 2 (omega (arith, le, ok.fits, ok.aligned)) in
      let inside : behind words (head + 0) n
            + 12
            + 4 * list_npages words (behind words (head + 0) n)
          ≤ gc_data page_size =
        rw last' ok.fits in
      let pages =
        pages_from_shift words m.words head 0 g.state.nskip n (gc_data page_size) ok.aligned refl
          (omega (arith, even)) same inside in
      let pages' : pages_from m.words 0 g.state.nskip g.state.nlists
          ≡ pages_from words head g.state.nskip g.state.nlists =
        rw (← one) (pages ∙ ap (λ i. pages_from words i g.state.nskip (suc n)) none_off) in
      (
        pages',
        record {
          aligned = refl;
          last = λ p. last_m;
          empty = λ z. absurd (omega (arith, some_lists, z));
          fits = omega (arith, count, tail', ok.fits);
          skipped = λ p. omega (arith, first, ok.skipped some_lists);
        },
      )
