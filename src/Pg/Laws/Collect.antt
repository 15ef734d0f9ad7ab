-- ===== src/Pg/Laws/Collect.antt =====
-- The loop of `ed_alloc` over the lists and the gc pages.
use eddy.Base.{
  ℕ, zero, suc, ◌+◌, ◌^◌, ◌≤◌, ◌<◌, ◌≡◌, ◌≢◌, refl, sym, ap, ◌∙◌, ◌⊎◌, Bool, true, ltb, leb, ◌==◌,
  if◌then◌else◌, arith, Option, none, some, List, [], ◌∷◌, ◌++◌, append_assoc, append-nil, length,
  length-append, Bool-cases, Option-cases, inl, inr,
}
use eddy.Base.Mem.{Mem}
use eddy.Base.Result.{Error, Result, ok, err}
use eddy.Pg.{GcPage}
use eddy.Pg.Alloc.{Stage, take_list, collect}
use eddy.Pg.Lists.{
  listed, listed_in, IsReadable, Chain, end, link, all_listed, all_lists, page_numbers, AllReadable,
}
use eddy.Pg.Laws.Take.{Takes, take_list-Takes}

module _ (page_size : ℕ) (small : page_size < 2 ^ 16) (pages : Mem GcPage) (gc_tail : ℕ)
    (map_error : ℕ → ℕ → Option Error) (npg xmin : ℕ) where
  -- The gc page in use, the ones behind it, and what they list.
  pub record Collected (st st' : Stage) (gs behind : List GcPage) : Type 0 where
    pub chain : Chain pages gc_tail st'.gc behind
    pub readable : IsReadable page_size st'.gc st'.state
    pub others : AllReadable page_size behind
    pub kept :
        st'.pgno ++ listed_in st'.gc st'.state ++ all_listed behind
        ≡ st.pgno ++ listed_in st.gc st.state ++ all_listed gs
    pub recycled :
        st'.recycled ++ page_numbers (st'.gc ∷ behind) ≡ st.recycled ++ page_numbers (st.gc ∷ gs)
    pub within : length st'.pgno + length st'.recycled ≤ npg
    pub own : ((p : ℕ) → (pages p).no ≡ p) → pages st.gc.no ≡ st.gc → pages st'.gc.no ≡ st'.gc

  abbrev pub Ends : Stage → List GcPage → Option (Result Stage) → Type 0
  Ends st gs r =
      ((x : Error) × (r ≡ some (err x)))
      ⊎ ((st' : Stage) × (gs' : List GcPage) × (r ≡ some (ok st')) × Collected st st' gs gs')

  -- The end of the loop without a further round.
  stays :
      (st : Stage) (gs : List GcPage)
      → Chain pages gc_tail st.gc gs
      → IsReadable page_size st.gc st.state
      → AllReadable page_size gs
      → length st.pgno + length st.recycled ≤ npg
      → Collected st st gs gs
  stays st gs chain readable others within = record {
    chain = chain;
    readable = readable;
    others = others;
    kept = refl;
    recycled = refl;
    within = within;
    own = λ numbered h. h;
  }

  Takes-Collected :
      (st : Stage) (r : Bool × Stage) (gs : List GcPage)
      → Takes page_size small npg xmin st r
      → Chain pages gc_tail st.gc gs
      → AllReadable page_size gs
      → length st.pgno + length st.recycled ≤ npg
      → Collected st r.1 gs gs
  Takes-Collected st r gs t chain others within = record {
    chain = rw t.same_gc chain;
    readable = t.readable;
    others = others;
    kept = ap (λ l. l ++ all_listed gs) t.kept;
    recycled = rw (t.same_gc, t.same_recycled) refl;
    within = t.within within;
    own = λ numbered h. rw t.same_gc h;
  }

  Collected-trans :
      {a b c : Stage} {gs hs ks : List GcPage}
      → Collected a b gs hs
      → Collected b c hs ks
      → Collected a c gs ks
  Collected-trans ab bc = record {
    chain = bc.chain;
    readable = bc.readable;
    others = bc.others;
    kept = bc.kept ∙ ab.kept;
    recycled = bc.recycled ∙ ab.recycled;
    within = bc.within;
    own = λ numbered h. bc.own numbered (ab.own numbered h);
  }

  Ends-trans :
      {a b : Stage} {gs hs : List GcPage} {r : Option (Result Stage)}
      → Collected a b gs hs
      → Ends b hs r
      → Ends a gs r
  Ends-trans c (inl e) = inl e
  Ends-trans c (inr (st', ks, e, d)) = inr (st', ks, e, Collected-trans c d)

  abbrev moved : Stage → Stage
  moved st =
      let next = pages st.gc.next in
      record st { gc = next; state = next.state; recycled = st.recycled ++ st.gc.no ∷ [] }

  -- An empty gc page that is not the last is handed out itself.
  moved-Collected :
      (st : Stage) (gs : List GcPage)
      → Chain pages gc_tail (pages st.gc.next) gs
      → AllReadable page_size (pages st.gc.next ∷ gs)
      → st.state.nlists ≡ 0
      → length st.pgno + length st.recycled < npg
      → Collected st (moved st) (pages st.gc.next ∷ gs) gs
  moved-Collected st gs chain others empty within =
      let next = pages st.gc.next in
      let len = length-append st.recycled (st.gc.no ∷ []) in
      let no_pages : listed_in st.gc st.state ≡ [] = rw empty refl in
      record {
        chain = chain;
        readable = others.0;
        others = others.1;
        kept =
            append_assoc st.pgno (listed next) (all_listed gs)
            ∙ ap (λ l. l ++ (listed next ++ all_listed gs))
                (sym (ap (λ l. st.pgno ++ l) no_pages ∙ append-nil st.pgno));
        recycled = append_assoc st.recycled (st.gc.no ∷ []) (page_numbers (next ∷ gs));
        within = omega (arith, len, within);
        own = λ numbered h. ap pages (numbered st.gc.next);
      }

  round-Ends :
      (st : Stage) (r : Bool × Stage) (gs : List GcPage) (rest : Option (Result Stage))
      → Collected st r.1 gs gs
      → (r.0 ≡ true → Ends r.1 gs rest)
      → Ends st gs (if r.0 then rest else some (ok r.1))
  round-Ends st r gs rest c on = elim (Bool-cases r.0) [
    | inl more ↦ rw more (Ends-trans c (on more))
    | inr stop ↦ rw stop (inr (r.1, gs, refl, c))
  ]

  -- A page with lists gives pages, and the loop goes on behind a list that is used up.
  page-Ends :
      (fuel : ℕ) (st : Stage) (gs : List GcPage)
      → Chain pages gc_tail st.gc gs
      → IsReadable page_size st.gc st.state
      → AllReadable page_size gs
      → length st.pgno + length st.recycled ≤ npg
      → 0 < st.state.nlists
      → st.state.nlists + all_lists gs < suc fuel
      → ((u : Stage)
          → Chain pages gc_tail u.gc gs
          → IsReadable page_size u.gc u.state
          → length u.pgno + length u.recycled ≤ npg
          → u.state.nlists + all_lists gs < fuel
          → Ends u gs (collect pages gc_tail map_error npg xmin fuel u))
      → let r = take_list npg xmin st in
        Ends st gs
          (if r.0 then collect pages gc_tail map_error npg xmin fuel r.1 else some (ok r.1))
  page-Ends fuel st gs chain readable others within pos enough rest =
      let r = take_list npg xmin st in
      let t = take_list-Takes page_size small npg xmin st readable pos in
      let c = Takes-Collected st r gs t chain others within in
      round-Ends st r gs (collect pages gc_tail map_error npg xmin fuel r.1) c
        (λ more. rest r.1 c.chain c.readable c.within (omega (arith, t.goes_on more, enough)))

  abbrev Rest : ℕ → Type 0
  Rest fuel =
      (u : Stage) (gs : List GcPage)
      → Chain pages gc_tail u.gc gs
      → IsReadable page_size u.gc u.state
      → AllReadable page_size gs
      → length u.pgno + length u.recycled ≤ npg
      → u.state.nlists + all_lists gs < fuel
      → Ends u gs (collect pages gc_tail map_error npg xmin fuel u)

  -- The next gc page, after an empty one.
  next-Ends :
      (fuel : ℕ) (st : Stage) (gs : List GcPage)
      → Chain pages gc_tail st.gc gs
      → AllReadable page_size gs
      → length st.pgno + length st.recycled < npg
      → st.state.nlists ≡ 0
      → st.gc.no ≢ gc_tail
      → st.state.nlists + all_lists gs < suc fuel
      → Rest fuel
      → let r = take_list npg xmin (moved st) in
        Ends st gs (elim (map_error st.gc.next 1) [
          | some x ↦ some (err x)
          | none ↦
              if (pages st.gc.next).state.nlists == 0
              then some (ok (moved st))
              else if r.0
              then collect pages gc_tail map_error npg xmin fuel r.1
              else some (ok r.1)
        ])
  next-Ends fuel st [] (end last) others within empty ne enough rest = absurd (ne last)
  next-Ends fuel st (g ∷ gs) (link _ chain) others within empty ne enough rest =
      let c = moved-Collected st gs chain others empty within in
      elim (Option-cases (map_error st.gc.next 1)) [
        | inr (x, fails) ↦ rw fails (inl (x, refl))
        | inl maps ↦ elim (Bool-cases ((pages st.gc.next).state.nlists == 0)) [
          | inl bare ↦ rw (maps, bare) (inr (moved st, gs, refl, c))
          | inr lists ↦
              rw (maps, lists)
                (Ends-trans c (
                  page-Ends fuel (moved st) gs chain others.0 others.1 c.within (ground arith)
                    (omega (arith, enough, empty)) (λ u d ok w e. rest u gs d ok others.1 w e)))
        ]
      ]

  -- With fuel for all lists the loop ends, by an error of `ed_pg_map` or with pages collected.
  pub collect-Ends :
      (fuel : ℕ) (st : Stage) (gs : List GcPage)
      → Chain pages gc_tail st.gc gs
      → IsReadable page_size st.gc st.state
      → AllReadable page_size gs
      → length st.pgno + length st.recycled ≤ npg
      → st.state.nlists + all_lists gs < fuel
      → Ends st gs (collect pages gc_tail map_error npg xmin fuel st)
  unfolding collect
  collect-Ends zero st gs chain readable others within enough = absurd (omega arith)
  collect-Ends (suc fuel) st gs chain readable others within enough =
      elim (Bool-cases (leb npg (length st.pgno + length st.recycled))) [
        | inl full ↦ rw full (inr (st, gs, refl, stays st gs chain readable others within))
        | inr more ↦ elim (Bool-cases (ltb 0 st.state.nlists)) [
          | inl lists ↦
              rw (more, lists)
                (page-Ends fuel st gs chain readable others within (ground arith) enough
                  (λ u c ok w e. collect-Ends fuel u gs c ok others w e))
          | inr empty ↦ elim (Bool-cases (st.gc.no == gc_tail)) [
            | inl last ↦
                rw (more, empty, last)
                  (inr (st, gs, refl, stays st gs chain readable others within))
            | inr ne ↦
                rw (more, empty, ne)
                  (next-Ends fuel st gs chain others (ground arith) (ground arith) (ground arith)
                    enough (collect-Ends fuel))
          ]
        ]
      ]
