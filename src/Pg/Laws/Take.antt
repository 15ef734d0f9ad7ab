-- ===== src/Pg/Laws/Take.antt =====
-- The body of the loop of `ed_alloc`: pages move from the head list to the staging area.
use eddy.Base.{
  ℕ, zero, suc, ◌+◌, ◌-◌, ◌*◌, ◌%◌, ◌^◌, ◌≤◌, ◌<◌, ◌≡◌, refl, sym, ap, ◌∙◌, ◌⊎◌, min, Bool, true,
  false, ltb, leb, ◌==◌, ◌&&◌, arith, ◌++◌, append_assoc, length, length-append, Bool-cases, inl,
  inr,
}
use eddy.Base.Mem.{Mem, slice, slice_split, length-slice}
use eddy.Pg.{GcState, GcPage, gc_data, gc_list_size, list_xid, list_npages, list_pages}
use eddy.Pg.Alloc.{Stage, take_list}
use eddy.Pg.Lists.{behind, pages_from, listed_in, IsReadable}
use eddy.Pg.Laws.Fill.{le_behind}

-- The first list, and those behind it.
pages_from_pos :
    (words : Mem ℕ) (off nskip n : ℕ)
    → 0 < n
    → pages_from words off nskip n
      ≡ slice words (list_pages off + nskip) (list_npages words off - nskip)
        ++ pages_from words (off + gc_list_size (list_npages words off)) 0 (n - 1)
pages_from_pos words off nskip zero pos = absurd (omega arith)
pages_from_pos words off nskip (suc n) pos = let e : suc n - 1 ≡ n = omega arith in rw e refl

behind_pos :
    (words : Mem ℕ) (off n : ℕ)
    → 0 < n
    → behind words off n ≡ behind words (off + gc_list_size (list_npages words off)) (n - 1)
behind_pos words off zero pos = absurd (omega arith)
behind_pos words off (suc n) pos = let e : suc n - 1 ≡ n = omega arith in rw e refl

gate_eq : (xid xmin : ℕ) → (ltb 0 xid && leb xmin xid) ≡ false → (xid ≡ 0) ⊎ (xid < xmin)
gate_eq xid xmin h = elim (Bool-cases (xid == 0)) [
  | inl z ↦ inl (ground arith)
  | inr s ↦ inr (ground arith)
]

module _ (page_size : ℕ) (small : page_size < 2 ^ 16) where
  -- What one round keeps.
  pub record Takes (npg xmin : ℕ) (st : Stage) (r : Bool × Stage) : Type 0 where
    pub same_gc : r.1.gc ≡ st.gc
    pub same_recycled : r.1.recycled ≡ st.recycled
    pub readable : IsReadable page_size r.1.gc r.1.state
    pub kept : r.1.pgno ++ listed_in r.1.gc r.1.state ≡ st.pgno ++ listed_in st.gc st.state
    pub goes_on : r.0 ≡ true → r.1.state.nlists + 1 ≡ st.state.nlists
    pub within :
        length st.pgno + length st.recycled ≤ npg → length r.1.pgno + length r.1.recycled ≤ npg
    pub gated :
        length st.pgno < length r.1.pgno
        → (list_xid st.gc.words st.state.head ≡ 0) ⊎ (list_xid st.gc.words st.state.head < xmin)

  -- The head list ends in the page.
  head_fits :
      (g : GcPage) (s : GcState)
      → IsReadable page_size g s
      → 0 < s.nlists
      → s.head + 12 + 4 * list_npages g.words s.head ≤ gc_data page_size
  head_fits g s ok pos = elim (Bool-cases (s.nlists == 1)) [
    | inl one ↦
        let e : s.nlists - 1 ≡ 0 = ground arith in
        let at : s.head ≡ s.tail = rw e at (ok.last pos) in let fits = ok.fits pos in rw at fits
    | inr more ↦
        let several : 0 < s.nlists - 1 = ground arith in
        let last = ok.last pos in
        let next = behind_pos g.words s.head (s.nlists - 1) several in
        let le =
          le_behind g.words (s.head + gc_list_size (list_npages g.words s.head))
            (s.nlists - 1 - 1) in
        let fits = ok.fits pos in omega (arith, last, next, le)
  ]

  -- The state behind the head list, and that behind `k` more of its pages.
  abbrev behind_head : GcPage → GcState → GcState
  behind_head g s = record s {
    head = (s.head + gc_list_size (list_npages g.words s.head)) % 2 ^ 16;
    nlists = s.nlists - 1;
    nskip = 0;
  }

  skip-IsReadable :
      (g : GcPage) (s : GcState) (k : ℕ)
      → IsReadable page_size g s
      → s.nskip + k ≤ list_npages g.words s.head
      → IsReadable page_size g (record s { nskip = s.nskip + k })
  skip-IsReadable g s k ok le = record {
    aligned = ok.aligned;
    last = ok.last;
    fits = ok.fits;
    skipped = λ p. le;
  }

  listed_in-skip :
      (g : GcPage) (s : GcState) (k : ℕ)
      → 0 < s.nlists
      → s.nskip + k ≤ list_npages g.words s.head
      → slice g.words (list_pages s.head + s.nskip) k
          ++ listed_in g (record s { nskip = s.nskip + k })
        ≡ listed_in g s
  listed_in-skip g s k pos le =
      let words = g.words in
      let np = list_npages words s.head in
      let at : ℕ = list_pages s.head + s.nskip in
      let left : ℕ = np - (s.nskip + k) in
      let sum : np - s.nskip ≡ k + left = omega (arith, le) in
      let place : list_pages s.head + (s.nskip + k) ≡ at + k = omega arith in
      let others = pages_from words (s.head + gc_list_size np) 0 (s.nlists - 1) in
      ap (λ l. slice words at k ++ l)
        (pages_from_pos words s.head (s.nskip + k) s.nlists pos
          ∙ ap (λ i. slice words i left ++ others) place)
      ∙ sym (append_assoc (slice words at k) (slice words (at + k) left) others)
      ∙ ap (λ l. l ++ others) (sym (ap (slice words at) sum ∙ slice_split words at k left))
      ∙ sym (pages_from_pos words s.head s.nskip s.nlists pos)

  behind_head_eq :
      (g : GcPage) (s : GcState)
      → IsReadable page_size g s
      → 0 < s.nlists
      → (behind_head g s).head ≡ s.head + gc_list_size (list_npages g.words s.head)
  behind_head_eq g s ok pos = let fits = head_fits g s ok pos in omega (arith, fits)

  behind_head-IsReadable :
      (g : GcPage) (s : GcState)
      → IsReadable page_size g s
      → 0 < s.nlists
      → IsReadable page_size g (behind_head g s)
  behind_head-IsReadable g s ok pos =
      let e = behind_head_eq g s ok pos in
      record {
        aligned = omega (arith, e, ok.aligned);
        last = λ p. rw e (sym (behind_pos g.words s.head (s.nlists - 1) p) ∙ ok.last pos);
        fits = λ p. ok.fits pos;
        skipped = λ p. omega arith;
      }

  listed_in-behind_head :
      (g : GcPage) (s : GcState)
      → IsReadable page_size g s
      → 0 < s.nlists
      → slice g.words (list_pages s.head + s.nskip) (list_npages g.words s.head - s.nskip)
          ++ listed_in g (behind_head g s)
        ≡ listed_in g s
  listed_in-behind_head g s ok pos =
      let e = behind_head_eq g s ok pos in
      rw e (sym (pages_from_pos g.words s.head s.nskip s.nlists pos))

  -- A round of the loop of `ed_alloc` on a readable gc page with lists: the pages that go to the
  -- staging area and those still listed are the ones before, in order, and no more than `npg` are
  -- taken. Pages are taken only if the list's transaction id is 0 or below `xmin`. The page stays
  -- readable, and if the loop goes on there is one list less.
  pub take_list-Takes :
      (npg xmin : ℕ) (st : Stage)
      → IsReadable page_size st.gc st.state
      → 0 < st.state.nlists
      → Takes npg xmin st (take_list npg xmin st)
  unfolding take_list
  take_list-Takes npg xmin st ok pos =
      let s = st.state in
      let words = st.gc.words in
      let xid = list_xid words s.head in
      let np = list_npages words s.head in
      let all : ℕ = (np + 2 ^ 16 - s.nskip) % 2 ^ 16 in
      let nuse : ℕ = min all (npg - length st.pgno - length st.recycled) in
      let fits = head_fits st.gc s ok pos in
      let skipped = ok.skipped pos in
      let all_eq : all ≡ np - s.nskip = omega (arith, fits, skipped) in
      let taken = slice words (list_pages s.head + s.nskip) nuse in
      let len : length (st.pgno ++ taken) ≡ length st.pgno + nuse = omega (
        arith,
        length-append st.pgno taken,
        length-slice words (list_pages s.head + s.nskip) nuse,
      ) in
      elim (Bool-cases (ltb 0 xid && leb xmin xid)) [
        | inl early ↦ rw early (record {
          same_gc = refl;
          same_recycled = refl;
          readable = ok;
          kept = refl;
          goes_on = λ h. absurd cc;
          within = λ h. h;
          gated = λ h. absurd (omega arith);
        })
        | inr ready ↦
            let gate : (xid ≡ 0) ⊎ (xid < xmin) = gate_eq xid xmin ready in
            elim (Bool-cases (ltb nuse all)) [
              | inl part ↦
                  let le : s.nskip + nuse ≤ np = ground (arith, all_eq, skipped) in
                  rw (ready, part)
                    (record {
                      same_gc = refl;
                      same_recycled = refl;
                      readable = skip-IsReadable st.gc s nuse ok le;
                      kept =
                          append_assoc st.pgno taken _
                          ∙ ap (λ l. st.pgno ++ l) (listed_in-skip st.gc s nuse pos le);
                      goes_on = λ h. absurd cc;
                      within = λ h. omega (arith, len, h);
                      gated = λ h. gate;
                    })
              | inr whole ↦
                  let every : nuse ≡ np - s.nskip = ground (arith, all_eq) in
                  rw (ready, whole)
                    (record {
                      same_gc = refl;
                      same_recycled = refl;
                      readable = behind_head-IsReadable st.gc s ok pos;
                      kept =
                          append_assoc st.pgno taken _
                          ∙ ap (λ l. st.pgno ++ l)
                              (ap
                                  (λ k.
                                    slice words (list_pages s.head + s.nskip) k
                                    ++ listed_in st.gc (behind_head st.gc s))
                                  every
                                ∙ listed_in-behind_head st.gc s ok pos);
                      goes_on = λ h. omega (arith, pos);
                      within = λ h. omega (arith, len, h);
                      gated = λ h. gate;
                    })
            ]
      ]
