-- ===== src/Pg/Laws/Alloc.antt =====
-- `ed_alloc`: what it hands out, and what stays for the next call.
use eddy.Base.{
  ℕ, zero, suc, ◌+◌, ◌-◌, ◌^◌, ◌≤◌, ◌<◌, ◌≡◌, ◌≢◌, refl, sym, ap, ◌∙◌, false, ltb, leb, ◌==◌, ◌&&◌,
  arith, Option, none, some, List, [], ◌∷◌, ◌++◌, length, length-append, Bool-cases, Option-cases,
  inl, inr,
}
use mathlib.Core.Path.{subst}
use eddy.Base.Mem.{Mem, put}
use eddy.Base.Result.{Error, Result, ok, err}
use eddy.Pg.{GcState, GcPage, Index}
use eddy.Pg.Alloc.{
  Stage, insert_page, sort_pages, map_sorted_pages, numbers, live_pages, map_end_pages, end_error,
  settled, alloc_start, alloc_end, alloc_done, alloc,
}
use eddy.Pg.Lists.{
  listed, listed_in, Chain, end, link, all_listed, all_lists, page_numbers, AllReadable,
}
use eddy.Pg.Laws.Freed.{put_same, put_other}
use eddy.Pg.Laws.Collect.{Collected, collect-Ends}

length-insert_page : (p : ℕ) (pgs : List ℕ) → length (insert_page p pgs) ≡ suc (length pgs)
unfolding insert_page
length-insert_page p [] = refl
length-insert_page p (q ∷ pgs) = elim (Bool-cases (leb p q)) [
  | inl le ↦ rw le refl
  | inr gt ↦ rw gt (ap suc (length-insert_page p pgs))
]

length-sort_pages : (pgs : List ℕ) → length (sort_pages pgs) ≡ length pgs
unfolding sort_pages
length-sort_pages [] = refl
length-sort_pages (p ∷ pgs) = length-insert_page p (sort_pages pgs) ∙ ap suc (length-sort_pages pgs)

length-numbers : (start n : ℕ) → length (numbers start n) ≡ n
unfolding numbers
length-numbers start zero = refl
length-numbers start (suc n) = ap suc (length-numbers (start + 1) n)

-- What `ed_alloc` hands out: gc pages without lists, listed pages in order, and pages behind the
-- end. The listed pages and the gc pages that stay, linked from the head to the tail, are the others.
pub record Alloced (npg : ℕ) (idx idx' : Index) (gs : List GcPage) (pgs : List ℕ) : Type 0 where
  pub pgno : List ℕ
  pub recycled : List ℕ
  pub behind : List GcPage
  pub count : length pgs ≡ npg
  pub handed :
      pgs
      ≡ recycled
        ++ sort_pages pgno
        ++ numbers idx.tail_start (npg - (length pgno + length recycled))
  pub kept :
      pgno ++ listed (idx'.pages idx'.gc_head) ++ all_listed behind
      ≡ listed (idx.pages idx.gc_head) ++ all_listed gs
  pub chain :
      recycled ++ idx'.gc_head ∷ page_numbers behind ≡ (idx.pages idx.gc_head).no ∷ page_numbers gs
  pub linked : Chain idx'.pages idx'.gc_tail (idx'.pages idx'.gc_head) behind
  pub tail : idx'.tail_start ≡ idx.tail_start + (npg - (length pgno + length recycled))

-- After an error no page has been taken.
pub record Unchanged (idx idx' : Index) : Type 0 where
  pub pages : idx'.pages ≡ idx.pages
  pub gc_head : idx'.gc_head ≡ idx.gc_head
  pub tail_start : idx'.tail_start ≡ idx.tail_start

abbrev pub Outcome : ℕ → Index → List GcPage → Result (List ℕ) × Index → Type 0
Outcome npg idx gs r =
    ((pgs : List ℕ) → r.0 ≡ ok pgs → Alloced npg idx r.1 gs pgs)
    × ((x : Error) → r.0 ≡ err x → Unchanged idx r.1)

no_numbers : (start n : ℕ) → n ≡ 0 → [] ≡ numbers start n
unfolding numbers
no_numbers start n z = rw z refl

live_pages-at :
    (pages : Mem GcPage) (start n p : ℕ) → (pages p).no ≡ p → live_pages pages start n p ≡ pages p
unfolding live_pages
live_pages-at pages start n p number = elim (Bool-cases (leb start p && ltb p (start + n))) [
  | inl inside ↦ rw inside (ap (λ k. record (pages p) { no = k }) (sym number))
  | inr outside ↦ rw outside refl
]

-- `map_end_pages` succeeds with `n` pages from the end, or changes only the count behind it.
record Ended (idx : Index) (n : ℕ) (r : Result (List ℕ) × Index) : Type 0 where
  ends :
      (pgs : List ℕ)
      → r.0 ≡ ok pgs
      → (pgs ≡ numbers idx.tail_start n) × (r.1.tail_start ≡ idx.tail_start + n)
  pages : ((p : ℕ) → (idx.pages p).no ≡ p) → (p : ℕ) → r.1.pages p ≡ idx.pages p
  gc_tail : r.1.gc_tail ≡ idx.gc_tail
  fails : (x : Error) → r.0 ≡ err x → Unchanged idx r.1

map_end_pages-Ended :
    (map_error : ℕ → ℕ → Option Error) (truncate_error : ℕ → Option Error) (idx : Index) (n : ℕ)
    → Ended idx n (map_end_pages map_error truncate_error idx n)
unfolding map_end_pages
map_end_pages-Ended map_error truncate_error idx n =
    let start = idx.tail_start in
    let stays : Unchanged idx idx = record { pages = refl; gc_head = refl; tail_start = refl } in
    elim (Bool-cases (n == 0)) [
      | inl zero_pages ↦
          let z : n ≡ 0 = ground arith in
          rw zero_pages (record {
            ends = λ pgs h.
                let empty : pgs ≡ [] = cc h in (empty ∙ no_numbers start n z, omega (arith, z));
            pages = λ numbered p. refl;
            gc_tail = refl;
            fails = λ x h. absurd (cc h);
          })
      | inr some_pages ↦ elim (Option-cases (end_error truncate_error idx n)) [
        | inr (x, cut) ↦
            rw (some_pages, cut)
              (record {
                ends = λ pgs h. absurd (cc h);
                pages = λ numbered p. refl;
                gc_tail = refl;
                fails = λ y h. stays;
              })
        | inl long ↦ elim (Option-cases (map_error start n)) [
          | inr (x, unmapped) ↦
              rw (some_pages, long, unmapped)
                (record {
                  ends = λ pgs h. absurd (cc h);
                  pages = λ numbered p. refl;
                  gc_tail = refl;
                  fails = λ y h. record { pages = refl; gc_head = refl; tail_start = refl };
                })
          | inl mapped ↦
              rw (some_pages, long, mapped)
                (record {
                  ends = λ pgs h. let same : pgs ≡ numbers start n = cc h in (same, refl);
                  pages = λ numbered p. live_pages-at idx.pages start n p (numbered p);
                  gc_tail = refl;
                  fails = λ y h. absurd (cc h);
                })
        ]
      ]
    ]

-- A gc page has one list of gc pages behind it.
Chain-length :
    {pages : Mem GcPage} {tail : ℕ} {g : GcPage} {gs hs : List GcPage}
    → Chain pages tail g gs
    → Chain pages tail g hs
    → length gs ≡ length hs
Chain-length (end last) (end also) = refl
Chain-length (end last) (link ne more) = absurd (ne last)
Chain-length (link ne more) (end last) = absurd (ne last)
Chain-length (link ne more) (link also rest) = ap suc (Chain-length more rest)

-- A change of page `c` that keeps its link does not break the chain behind it.
Chain-put :
    (pages : Mem GcPage) (tail : ℕ) (numbered : (p : ℕ) → (pages p).no ≡ p) (c : ℕ)
    (pages' : Mem GcPage) (others : (p : ℕ) → p ≢ c → pages' p ≡ pages p) (g g' : GcPage)
    (gs : List GcPage)
    → Chain pages tail g gs
    → ((hs : List GcPage) → Chain pages tail (pages c) hs → length gs ≤ length hs)
    → g'.no ≡ g.no
    → g'.next ≡ g.next
    → Chain pages' tail g' gs
Chain-put pages tail numbered c pages' others g g' _ (end last) bound same next = end (same ∙ last)
Chain-put pages tail numbered c pages' others g g' _ (link {gs = gs} ne more) bound same next =
    let apart : g.next ≢ c = λ eq.
      let short = bound gs (subst (λ p. Chain pages tail (pages p) gs) eq more) in
      absurd (omega (arith, short)) in
    let same_page : pages' g'.next ≡ pages g.next = ap pages' next ∙ others g.next apart in
    let rest =
      Chain-put pages tail numbered c pages' others (pages g.next) (pages' g'.next) gs more
        (λ hs other. omega (arith, bound hs other)) (ap (λ k. k.no) same_page)
        (ap (λ k. k.next) same_page) in
    subst (λ k. Chain pages' tail g' (k ∷ gs)) same_page (link (λ last. ne (sym same ∙ last)) rest)

-- The gc page in use after `ed_alloc`.
listed-settled :
    (g h : GcPage) (s : GcState)
    → h.words ≡ g.words
    → listed (record h { state = settled s }) ≡ listed_in g s
listed-settled g h s same = rw same refl

no_change : (idx : Index) → Unchanged idx idx
no_change idx = record { pages = refl; gc_head = refl; tail_start = refl }

module _ (page_size : ℕ) (small : page_size < 2 ^ 16) (map_error : ℕ → ℕ → Option Error)
    (truncate_error : ℕ → Option Error) (npg xmin : ℕ) (idx : Index) where
  alloc_end-Outcome :
      (st : Stage) (gs gs' : List GcPage) (mapped : Option Error) (r : Result (List ℕ))
      (idx' : Index)
      → ((p : ℕ) → (idx.pages p).no ≡ p)
      → Collected page_size small idx.pages idx.gc_tail map_error npg xmin
          (alloc_start idx)
          st
          gs
          gs'
      → Ended idx (npg - (length st.pgno + length st.recycled)) (r, idx')
      → Outcome npg idx gs (alloc_end idx st mapped r idx')
  unfolding alloc_end
  alloc_end-Outcome st gs gs' (some x) r idx' numbered c e =
      (λ pgs h. absurd (cc h), λ y h. no_change idx)
  alloc_end-Outcome st gs gs' none (err x) idx' numbered c e =
      (λ pgs h. absurd (cc h), λ y h. e.fails x refl)
  alloc_end-Outcome st gs gs' none (ok tail) idx' numbered c e =
      let gc = st.gc.no in
      let (from_end, start) = e.ends tail refl in
      let own = c.own numbered (ap idx.pages (numbered idx.gc_head)) in
      let new : GcPage = record (idx'.pages gc) { state = settled st.state } in
      let pages' : Mem GcPage = put idx'.pages gc new in
      let here : pages' gc ≡ new = put_same idx'.pages gc new in
      let others = λ (p : ℕ) (ne : p ≢ gc). put_other idx'.pages gc new p ne ∙ e.pages numbered p in
      let at_gc = λ (hs : List GcPage) (other : Chain idx.pages idx.gc_tail (idx.pages gc) hs).
        subst (λ g. Chain idx.pages idx.gc_tail g hs) own other in
      let words : (idx'.pages gc).words ≡ st.gc.words =
        ap (λ g. g.words) (e.pages numbered gc ∙ own) in
      let now = listed-settled st.gc (idx'.pages gc) st.state words in
      let all = st.recycled ++ sort_pages st.pgno ++ tail in
      let len : length all ≡ npg = omega (
        arith,
        length-append (st.recycled ++ sort_pages st.pgno) tail,
        length-append st.recycled (sort_pages st.pgno),
        length-sort_pages st.pgno,
        ap length from_end,
        length-numbers idx.tail_start (npg - (length st.pgno + length st.recycled)),
        c.within,
      ) in
      (
        λ pgs h.
            let same : pgs ≡ all = cc h in
            rw same (record {
              pgno = st.pgno;
              recycled = st.recycled;
              behind = gs';
              count = len;
              handed = ap (λ l. st.recycled ++ sort_pages st.pgno ++ l) from_end;
              kept =
                  ap (λ l. st.pgno ++ l ++ all_listed gs')
                    (ap listed (put_same idx'.pages gc _) ∙ now)
                  ∙ c.kept;
              chain = c.recycled;
              linked =
                  subst (λ t. Chain pages' t (pages' gc) gs') (sym e.gc_tail)
                    (Chain-put idx.pages idx.gc_tail numbered gc pages' others st.gc (pages' gc) gs'
                      c.chain (λ hs other. omega (arith, Chain-length c.chain (at_gc hs other)))
                      (ap (λ g. g.no) here ∙ ap (λ g. g.no) (e.pages numbered gc ∙ own))
                      (ap (λ g. g.next) here ∙ ap (λ g. g.next) (e.pages numbered gc ∙ own)));
              tail = start;
            }),
        λ y h. absurd (cc h),
      )

  -- In an index with pages of less than 2^16 bytes whose gc pages, from the head to the tail, have readable lists, with pages under
  -- their own numbers: on fuel for all lists `ed_alloc` ends for every `npg`, not 0 and no more than
  -- 1024. If it succeeds, it hands out `npg` pages: gc pages without lists, listed pages, and pages
  -- behind the end where these are too few. What the gc pages list afterwards are the other listed
  -- pages, in order: the gc pages are linked from the new head to the tail, and none is lost. If it fails, the pages and the head are unchanged.
  pub alloc-Outcome :
      (fuel : ℕ) (gs : List GcPage)
      → ((p : ℕ) → (idx.pages p).no ≡ p)
      → Chain idx.pages idx.gc_tail (idx.pages idx.gc_head) gs
      → AllReadable page_size (idx.pages idx.gc_head ∷ gs)
      → all_lists (idx.pages idx.gc_head ∷ gs) < fuel
      → 0 < npg
      → npg ≤ 1024
      → (r : Result (List ℕ) × Index) × (alloc map_error truncate_error xmin fuel idx npg ≡ some r)
        × Outcome npg idx gs r
  unfolding alloc alloc_done
  alloc-Outcome fuel gs numbered chain readable enough pos le =
      let a : (npg == 0) ≡ false = ground arith in
      let b : ltb 1024 npg ≡ false = ground arith in
      let ends =
        collect-Ends page_size small idx.pages idx.gc_tail map_error npg xmin fuel (alloc_start idx)
          gs chain readable.0 readable.1 (omega arith) enough in
      elim (Option-cases (map_error idx.gc_head 1)) [
        | inr (x, unmapped) ↦
            ((err x, idx), rw (a, b, unmapped) refl, (λ pgs h. absurd (cc h), λ y h. no_change idx))
        | inl mapped ↦ elim ends [
          | inl (x, fails) ↦ (
            (err x, idx),
            rw (a, b, mapped, fails) refl,
            (λ pgs h. absurd (cc h), λ y h. no_change idx),
          )
          | inr (st, gs', runs, c) ↦
              let n = npg - (length st.pgno + length st.recycled) in
              let r = map_end_pages map_error truncate_error idx n in
              let sorted = map_sorted_pages map_error (sort_pages st.pgno) in
              let o =
                alloc_end-Outcome st gs gs' sorted r.0 r.1 numbered c
                  (map_end_pages-Ended map_error truncate_error idx n) in
              (alloc_end idx st sorted r.0 r.1, rw (a, b, mapped, runs) refl, o)
        ]
      ]
