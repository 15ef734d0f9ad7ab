-- ===== src/Pg/Laws/Fill.antt =====
-- `gc_list_next` and the filling of a list: no page number is lost.
use eddy.Base.{
  ℕ, zero, suc, ◌+◌, ◌-◌, ◌*◌, ◌/◌, ◌%◌, ◌^◌, ◌≤◌, ◌<◌, ◌≡◌, ◌≢◌, refl, sym, ap, ap₂, ◌∙◌, min,
  ◌==◌, true, arith, List, [], ◌∷◌, ◌++◌, length, length-take, take-append-drop, take, drop,
  append-nil, append_assoc, Bool-cases, inl, inr,
}
use eddy.Base.Mem.{Mem, put, slice, slice_ext, slice_split}
use eddy.Pg.{GcPage, gc_data, gc_list_size, list_npages, list_pages}
use eddy.Pg.Gc.{gc_list_remain, remain_asserted, put_pages, fill_list}
use eddy.Pg.Lists.{behind, pages_from, listed, IsGcPage}

pub le_behind : (words : Mem ℕ) (off n : ℕ) → off ≤ behind words off n
le_behind words off zero = omega arith
le_behind words off (suc n) =
    let h = le_behind words (off + gc_list_size (list_npages words off)) n in omega (arith, h)

pub behind-aligned : (words : Mem ℕ) (off n : ℕ) → off % 8 ≡ 0 → behind words off n % 8 ≡ 0
behind-aligned words off zero h = h
behind-aligned words off (suc n) h =
    behind-aligned words (off + gc_list_size (list_npages words off)) n (omega arith)

pub put_pages_below :
    (words : Mem ℕ) (i : ℕ) (pgs : List ℕ) (j : ℕ) → j < i → put_pages words i pgs j ≡ words j
unfolding put_pages
put_pages_below words i [] j h = refl
put_pages_below words i (p ∷ pgs) j h =
    put_pages_below (put words i p) (i + 1) pgs j (omega arith) ∙ ground arith

slice-put_pages :
    (words : Mem ℕ) (i : ℕ) (pgs : List ℕ) → slice (put_pages words i pgs) i (length pgs) ≡ pgs
unfolding put_pages
slice-put_pages words i [] = refl
slice-put_pages words i (p ∷ pgs) =
    ap₂ ◌∷◌ (put_pages_below (put words i p) (i + 1) pgs i (omega arith) ∙ ground arith)
      (slice-put_pages (put words i p) (i + 1) pgs)

-- The two arrays agree up to the last list's count.
abbrev pub Agrees : Mem ℕ → Mem ℕ → ℕ → Type 0
Agrees words new i = (j : ℕ) → j < i → new j ≡ words j

pub behind_eq :
    (words new : Mem ℕ) (off n : ℕ)
    → off % 8 ≡ 0
    → Agrees words new (behind words off n / 4)
    → behind new off n ≡ behind words off n
behind_eq words new off zero h same = refl
behind_eq words new off (suc n) h same =
    let le = le_behind words (off + gc_list_size (list_npages words off)) n in
    let e : list_npages new off ≡ list_npages words off = same (off / 4 + 2) (omega (arith, le)) in
    rw e (behind_eq words new (off + gc_list_size (list_npages words off)) n (omega arith) same)

-- Lists that lie before the changed words are as they were; `n` of them end at the list whose count
-- and pages may change.
pages_from_more :
    (words new : Mem ℕ) (off nskip n k : ℕ)
    → off % 8 ≡ 0
    → let t = behind words off n in
      ((j : ℕ) → j < t / 4 + 2 → new j ≡ words j)
      → ((j : ℕ) → j < list_npages words t → new (list_pages t + j) ≡ words (list_pages t + j))
      → list_npages new t ≡ list_npages words t + k
      → nskip ≤ list_npages words off
      → pages_from new off nskip (suc n)
        ≡ pages_from words off nskip (suc n) ++ slice new (list_pages t + list_npages words t) k
pages_from_more words new off nskip zero k h before kept more skip =
    let np : ℕ = list_npages words off in
    let at : ℕ = list_pages off + nskip in
    let count : list_npages new off - nskip ≡ (np - nskip) + k = omega (arith, more, skip) in
    let place : at + (np - nskip) ≡ list_pages off + np = omega (arith, skip) in
    let old : slice new at (np - nskip) ≡ slice words at (np - nskip) =
      slice_ext new words at at (np - nskip) (λ i p. ground (arith, kept (nskip + i))) in
    append-nil _
    ∙ ap (slice new at) count
    ∙ slice_split new at (np - nskip) k
    ∙ ap₂ ◌++◌ (old ∙ sym (append-nil _)) (ap (λ i. slice new i k) place)
pages_from_more words new off nskip (suc n) k h before kept more skip =
    let np : ℕ = list_npages words off in
    let next : ℕ = off + gc_list_size np in
    let le = le_behind words next n in
    let e : list_npages new off ≡ np = before (off / 4 + 2) (omega (arith, le)) in
    let first : slice new (list_pages off + nskip) (np - nskip)
        ≡ slice words (list_pages off + nskip) (np - nskip) =
      slice_ext new words _ _ (np - nskip)
        (λ i p. before (list_pages off + nskip + i) (omega (arith, le))) in
    let rest = pages_from_more words new next 0 n k (omega arith) before kept more (omega arith) in
    let t : ℕ = behind words next n in
    let added = slice new (list_pages t + list_npages words t) k in
    rw (e, first, rest)
      (sym (
        append_assoc (slice words (list_pages off + nskip) (np - nskip))
          (pages_from words next 0 (suc n)) added))

-- The same for a number of lists that is not zero, with the last list's offset given.
pages_from_filled :
    (words new : Mem ℕ) (off nskip n k t : ℕ)
    → 0 < n
    → off % 8 ≡ 0
    → behind words off (n - 1) ≡ t
    → ((j : ℕ) → j < t / 4 + 2 → new j ≡ words j)
    → ((j : ℕ) → j < list_npages words t → new (list_pages t + j) ≡ words (list_pages t + j))
    → list_npages new t ≡ list_npages words t + k
    → nskip ≤ list_npages words off
    → pages_from new off nskip n
      ≡ pages_from words off nskip n ++ slice new (list_pages t + list_npages words t) k
pages_from_filled words new off nskip zero k t pos h at before kept more skip = absurd (omega arith)
pages_from_filled words new off nskip (suc n) k t pos h at before kept more skip =
    let one : suc n - 1 ≡ n = omega arith in
    let at' : behind words off n ≡ t = rw (← one) at in
    rw (← at')
      (pages_from_more words new off nskip n k h (rw at' before) (rw at' kept) (rw at' more) skip)

-- The assertion of `gc_list_remain` does not fail on a page that is well formed.
remain_asserted-IsGcPage :
    (page_size : ℕ) (g : GcPage) → IsGcPage page_size g → remain_asserted page_size g ≡ true
unfolding remain_asserted
remain_asserted-IsGcPage page_size g ok = let fits = ok.fits in ground arith

pub remain_eq :
    (page_size : ℕ) (g : GcPage)
    → page_size < 2 ^ 16
    → IsGcPage page_size g
    → gc_list_remain page_size g + g.state.tail + 12 + 4 * list_npages g.words g.state.tail
      ≡ gc_data page_size
unfolding gc_list_remain
remain_eq page_size g small ok = let fits = ok.fits in omega arith

-- The words after pages have been put behind the last list's, and counted.
abbrev filled : Mem ℕ → ℕ → List ℕ → Mem ℕ
filled words t pgs =
    put (put_pages words (list_pages t + list_npages words t) pgs) (t / 4 + 2)
      (list_npages words t + length pgs)

filled_before :
    (words : Mem ℕ) (t : ℕ) (pgs : List ℕ) (j : ℕ)
    → j < list_pages t + list_npages words t
    → j ≢ t / 4 + 2
    → filled words t pgs j ≡ words j
filled_before words t pgs j h ne =
    let same = put_pages_below words (list_pages t + list_npages words t) pgs j h in ground arith

filled_count :
    (words : Mem ℕ) (t : ℕ) (pgs : List ℕ)
    → list_npages (filled words t pgs) t ≡ list_npages words t + length pgs
filled_count words t pgs = ground arith

slice-filled :
    (words : Mem ℕ) (t : ℕ) (pgs : List ℕ)
    → slice (filled words t pgs) (list_pages t + list_npages words t) (length pgs) ≡ pgs
slice-filled words t pgs =
    let i : ℕ = list_pages t + list_npages words t in
    slice_ext (filled words t pgs) (put_pages words i pgs) i i (length pgs) (λ k p. ground arith)
    ∙ slice-put_pages words i pgs

module _ (page_size : ℕ) (small : page_size < 2 ^ 16) where
  filled-IsGcPage :
      (g : GcPage) (pgs : List ℕ)
      → IsGcPage page_size g
      → 0 < g.state.nlists
      → 4 * length pgs ≤ gc_list_remain page_size g
      → IsGcPage page_size (record g { words = filled g.words g.state.tail pgs })
  filled-IsGcPage g pgs ok some_lists room =
      let t = g.state.tail in
      let head = g.state.head in
      let last = ok.last some_lists in
      let le = le_behind g.words head (g.state.nlists - 1) in
      let t_aligned = behind-aligned g.words head (g.state.nlists - 1) ok.aligned in
      let count = filled_count g.words t pgs in
      let remain = remain_eq page_size g small ok in
      let skip = ok.skipped some_lists in
      record {
        aligned = ok.aligned;
        last = λ p.
            behind_eq g.words _ head (g.state.nlists - 1) ok.aligned (λ j q.
              filled_before g.words t pgs j (omega (arith, last))
                (λ eq. absurd (omega (arith, last, eq))))
            ∙ last;
        empty = λ z. absurd (omega arith);
        fits = omega (arith, count, remain, room);
        skipped = λ p. elim (Bool-cases (head / 4 + 2 == t / 4 + 2)) [
          | inl at_tail ↦
              let eq : head / 4 + 2 ≡ t / 4 + 2 = ground arith in
              let skip' : g.state.nskip ≤ g.words (t / 4 + 2) = rw (← eq) skip in
              rw eq (omega (arith, count, skip'))
          | inr before ↦
              let same : filled g.words t pgs (head / 4 + 2) ≡ g.words (head / 4 + 2) =
                filled_before g.words t pgs (head / 4 + 2) (omega (arith, le, last))
                  (ground arith) in
              rw same skip
        ];
      }

  listed-filled :
      (g : GcPage) (pgs : List ℕ)
      → IsGcPage page_size g
      → 0 < g.state.nlists
      → listed (record g { words = filled g.words g.state.tail pgs }) ≡ listed g ++ pgs
  listed-filled g pgs ok some_lists =
      let t = g.state.tail in
      let last = ok.last some_lists in
      let new = filled g.words t pgs in
      pages_from_filled g.words new g.state.head g.state.nskip g.state.nlists (length pgs) t
        some_lists ok.aligned last
        (λ j p. filled_before g.words t pgs j (omega arith) (λ eq. absurd (omega arith)))
        (λ j p.
          filled_before g.words t pgs (list_pages t + j) (omega arith) (λ eq. absurd (omega arith)))
        (filled_count g.words t pgs) (ok.skipped some_lists)
      ∙ ap (λ l. listed g ++ l) (slice-filled g.words t pgs)

  -- In a well-formed gc page with lists, the filling of the last one loses no page: those that the
  -- gc page lists and those that are left together are the ones it listed before and those to be
  -- freed, in order. The page stays well formed.
  pub fill_list-listed :
      (g : GcPage) (pgs : List ℕ)
      → IsGcPage page_size g
      → 0 < g.state.nlists
      → let (g', rest) = fill_list page_size g g.state.tail pgs in
        (listed g' ++ rest ≡ listed g ++ pgs) × IsGcPage page_size g'
  unfolding fill_list
  fill_list-listed g pgs ok some_lists =
      let m : ℕ = min (gc_list_remain page_size g / 4) (length pgs) in
      let used = take m pgs in
      let count : length used ≡ m = omega (arith, length-take m pgs) in
      let all : listed (record g { words = filled g.words g.state.tail used }) ++ drop m pgs
          ≡ listed g ++ pgs =
        ap (λ l. l ++ drop m pgs) (listed-filled g used ok some_lists)
        ∙ append_assoc (listed g) used (drop m pgs)
        ∙ ap (λ l. listed g ++ l) (take-append-drop m pgs) in
      let ok' = filled-IsGcPage g used ok some_lists (omega (arith, count)) in
      (rw count at all, rw count at ok')
