-- ===== src/Pg/Laws/Mark.antt =====
-- `ed_pg_mark_gc` marks the freed pages that the gc pages list, and of the gc pages the first one.
use eddy.Base.{
  ℕ, zero, suc, ◌+◌, ◌-◌, ◌%◌, ◌^◌, ◌<◌, ◌≡◌, ◌≢◌, refl, sym, ap, ◌∙◌, true, false, not, ◌||◌, ltb,
  ◌==◌, arith, Option, none, some, List, [], ◌∷◌, append-nil, length,
}
use eddy.Base.Mem.{Mem, slice}
use eddy.Base.Result.{Error}
use eddy.Bpt.{pg_none}
use eddy.Stat.{Stat, stat_mark, stat_has_leak, mark_all}
use eddy.Stat.Marks.{mark_all-append, mark_all-no, mark_all-vec-mult, count}
use eddy.Pg.{GcPage, Index, gc_list_size, list_npages, list_pages}
use eddy.Pg.Lists.{behind, pages_from, listed, IsReadable, all_listed, AllReadable}
use eddy.Pg.Mark.{mark_pages, mark_lists, mark_chain, pg_mark_gc}
use eddy.Pg.Laws.Fill.{le_behind}
use eddy.Pg.Laws.Push.{behind_last}

pub mark_pages_eq :
    (words : Mem ℕ) (i n : ℕ) (s : Stat) → mark_pages words i n s ≡ mark_all s (slice words i n)
unfolding mark_pages
mark_pages_eq words i zero s = refl
mark_pages_eq words i (suc n) s = mark_pages_eq words (i + 1) n (stat_mark s (words i))

mark_lists_eq :
    (words : Mem ℕ) (head nskip n : ℕ) (s : Stat)
    → behind words head n < 2 ^ 16
    → mark_lists words head nskip n s ≡ mark_all s (pages_from words head nskip n)
unfolding mark_lists
mark_lists_eq words head nskip zero s lt = refl
mark_lists_eq words head nskip (suc n) s lt =
    let np : ℕ = list_npages words head in
    let next : ℕ = head + gc_list_size np in
    let le = le_behind words next n in
    let fits : next % 2 ^ 16 ≡ next = omega (arith, le, lt) in
    let here = slice words (list_pages head + nskip) (np - nskip) in
    ap (λ k. mark_lists words k 0 n (mark_pages words (list_pages head + nskip) (np - nskip) s))
      fits
    ∙ mark_lists_eq words next 0 n _ lt
    ∙ ap (λ st. mark_all st (pages_from words next 0 n))
        (mark_pages_eq words (list_pages head + nskip) (np - nskip) s)
    ∙ sym (mark_all-append s here (pages_from words next 0 n))

-- The gc pages behind a page, up to one without a next page.
pub data Linked (pages : Mem GcPage) : GcPage → List GcPage → Type 0 where
  last : {g : GcPage} → g.next ≡ pg_none → Linked pages g []
  link :
      {g : GcPage} {gs : List GcPage}
      → g.next ≢ pg_none
      → Linked pages (pages g.next) gs
      → Linked pages g (pages g.next ∷ gs)

mark_lists_some :
    (words : Mem ℕ) (head nskip n : ℕ) (s : Stat)
    → (0 < n → behind words head n < 2 ^ 16)
    → mark_lists words head nskip n s ≡ mark_all s (pages_from words head nskip n)
unfolding mark_lists
mark_lists_some words head nskip zero s fits = refl
mark_lists_some words head nskip (suc n) s fits =
    mark_lists_eq words head nskip (suc n) s (fits (omega arith))

module _ (page_size : ℕ) (small : page_size < 2 ^ 16) where
  mark_lists-listed :
      (g : GcPage) (s : Stat)
      → IsReadable page_size g g.state
      → mark_lists g.words g.state.head g.state.nskip g.state.nlists s ≡ mark_all s (listed g)
  mark_lists-listed g s r =
      mark_lists_some g.words g.state.head g.state.nskip g.state.nlists s (λ lists.
        let last =
          behind_last g.words g.state.head g.state.nlists g.state.tail lists (r.last lists) in
        omega (arith, last, r.fits lists))

  mark_chain-Linked :
      (pages : Mem GcPage) (map_error : ℕ → Option Error) (fuel : ℕ) (g : GcPage) {gs : List GcPage}
      (s : Stat)
      → ((pg : ℕ) → map_error pg ≡ none)
      → length gs < fuel
      → Linked pages g gs
      → AllReadable page_size (g ∷ gs)
      → mark_chain pages map_error fuel g s ≡ some (none, mark_all s (all_listed (g ∷ gs)))
  unfolding mark_chain
  mark_chain-Linked pages map_error zero g s mapped lt chain ok = absurd (omega (arith, lt))
  mark_chain-Linked pages map_error (suc fuel) g s mapped lt (last end) (ok, rest) =
      let test : (g.next == pg_none) ≡ true = ground arith in
      rw test (
        ap (λ st. some (none, st)) (mark_lists-listed g s ok)
        ∙ ap (λ l. some (none, mark_all s l)) (sym (append-nil (listed g))))
  mark_chain-Linked pages map_error (suc fuel) g s mapped lt (link {gs = gs} more chain)
        (ok, rest) =
      let test : (g.next == pg_none) ≡ false = ground arith in
      let next = pages g.next in
      let later =
        mark_chain-Linked pages map_error fuel next (mark_all s (listed g)) mapped
          (omega (arith, lt)) chain rest in
      rw (test, mapped g.next)
        (ap (λ st. mark_chain pages map_error fuel next st) (mark_lists-listed g s ok)
          ∙ later
          ∙ ap (λ st. some (none, st))
              (sym (mark_all-append s (listed g) (all_listed (next ∷ gs)))))

  -- If the gc pages are readable and no page fails to be mapped, `ed_pg_mark_gc` marks the first gc page
  -- and then, in order, the freed pages that the gc pages list. The other gc pages are not marked.
  pub pg_mark_gc-all_listed :
      (idx : Index) (map_error : ℕ → Option Error) (fuel : ℕ) (gs : List GcPage) (s : Stat)
      → ((pg : ℕ) → map_error pg ≡ none)
      → length gs < fuel
      → let g = idx.pages idx.gc_head in
        Linked idx.pages g gs
        → AllReadable page_size (g ∷ gs)
        → pg_mark_gc map_error fuel idx s ≡ some (none, mark_all s (g.no ∷ all_listed (g ∷ gs)))
  unfolding pg_mark_gc
  pg_mark_gc-all_listed idx map_error fuel gs s mapped lt chain ok =
      let g = idx.pages idx.gc_head in
      rw (pg_mark_gc, mapped idx.gc_head)
        (mark_chain-Linked idx.pages map_error fuel g (stat_mark s g.no) mapped lt chain ok)

  -- If a page has less than 2^16 bytes, the gc pages are readable and linked up to one without a next page, no page fails to be mapped and
  -- the fuel is more than the gc pages behind the first one, then `ed_pg_mark_gc` succeeds, and a page of
  -- the index is reported as a leak after it if and only if it was not marked before, is not the first gc
  -- page and is listed by no gc page.
  pub pg_mark_gc-stat_has_leak :
      (idx : Index) (map_error : ℕ → Option Error) (fuel : ℕ) (gs : List GcPage) (s : Stat)
      → ((pg : ℕ) → map_error pg ≡ none)
      → length gs < fuel
      → let g = idx.pages idx.gc_head in
        Linked idx.pages g gs
        → AllReadable page_size (g ∷ gs)
        → (s' : Stat) × (pg_mark_gc map_error fuel idx s ≡ some (none, s'))
          × ((p : ℕ)
              → p < s.no
              → stat_has_leak s' p ≡ not (s.vec p || ltb 0 (count p (g.no ∷ all_listed (g ∷ gs)))))
  unfolding stat_has_leak
  pg_mark_gc-stat_has_leak idx map_error fuel gs s mapped lt chain ok =
      let g = idx.pages idx.gc_head in
      let list = g.no ∷ all_listed (g ∷ gs) in
      (
        mark_all s list,
        pg_mark_gc-all_listed idx map_error fuel gs s mapped lt chain ok,
        λ p inside.
            let size = mark_all-no s list in
            let below : ltb p (mark_all s list).no ≡ true = ground arith in
            rw below (ap not (mark_all-vec-mult s list p (omega (arith, inside))).0),
      )
