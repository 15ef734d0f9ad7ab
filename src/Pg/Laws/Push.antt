-- ===== src/Pg/Laws/Push.antt =====
-- lib/pg.c: the new list of `gc_list_next`, behind the others.
use eddy.Base.{
  ℕ, zero, suc, ◌+◌, ◌-◌, ◌*◌, ◌/◌, ◌%◌, ◌^◌, ◌≤◌, ◌<◌, ◌≡◌, refl, sym, ap, ◌∙◌, ltb, if◌then◌else◌,
  arith, ◌++◌, Bool-cases, inl, inr,
}
use eddy.Base.Mem.{Mem, slice, slice_ext}
use eddy.Pg.{GcPage, gc_data, gc_list_size, list_xid, list_npages, list_pages}
use eddy.Pg.Gc.{gc_list_remain, new_list}
use eddy.Pg.Lists.{behind, pages_from, listed, IsGcPage}
use eddy.Pg.Laws.Fill.{le_behind, behind-aligned, behind_eq, Agrees, remain_eq}

-- A list takes 16 bytes or more.
le_behind_many : (words : Mem ℕ) (off n : ℕ) → off + 16 * n ≤ behind words off n
le_behind_many words off zero = omega arith
le_behind_many words off (suc n) =
    let h = le_behind_many words (off + gc_list_size (list_npages words off)) n in omega (arith, h)

behind_suc :
    (words : Mem ℕ) (off n : ℕ)
    → let t = behind words off n in
      behind words off (suc n) ≡ t + gc_list_size (list_npages words t)
behind_suc words off zero = refl
behind_suc words off (suc n) = behind_suc words (off + gc_list_size (list_npages words off)) n

pub behind_last :
    (words : Mem ℕ) (off n t : ℕ)
    → 0 < n
    → behind words off (n - 1) ≡ t
    → behind words off n ≡ t + gc_list_size (list_npages words t)
behind_last words off zero t pos h = absurd (omega arith)
behind_last words off (suc n) t pos h =
    let one : suc n - 1 ≡ n = omega arith in
    let at : behind words off n ≡ t = rw (← one) h in rw (← at) (behind_suc words off n)

-- A new list without pages behind the others changes no pages.
pages_from_new :
    (words new : Mem ℕ) (off nskip n : ℕ)
    → off % 8 ≡ 0
    → Agrees words new (behind words off n / 4)
    → list_npages new (behind words off n) ≡ 0
    → pages_from new off nskip (suc n) ≡ pages_from words off nskip n
pages_from_new words new off nskip zero h same no_pages =
    let e : list_npages new off - nskip ≡ 0 = omega (arith, no_pages) in rw e refl
pages_from_new words new off nskip (suc n) h same no_pages =
    let np : ℕ = list_npages words off in
    let next : ℕ = off + gc_list_size np in
    let le = le_behind words next n in
    let e : list_npages new off ≡ np = same (off / 4 + 2) (omega (arith, le)) in
    let first : slice new (list_pages off + nskip) (np - nskip)
        ≡ slice words (list_pages off + nskip) (np - nskip) =
      slice_ext new words _ _ (np - nskip)
        (λ i p. same (list_pages off + nskip + i) (omega (arith, le))) in
    let rest = pages_from_new words new next 0 n (omega arith) same no_pages in
    rw (e, first) (ap (λ l. slice words (list_pages off + nskip) (np - nskip) ++ l) rest)

new_list_before : (words : Mem ℕ) (off xid : ℕ) → Agrees words (new_list words off xid) (off / 4)
unfolding new_list
new_list_before words off xid j h = ground arith

pub new_list_count : (words : Mem ℕ) (off xid : ℕ) → list_npages (new_list words off xid) off ≡ 0
unfolding new_list
new_list_count words off xid = ground arith

pub new_list_xid : (words : Mem ℕ) (off xid : ℕ) → list_xid (new_list words off xid) off ≡ xid
unfolding new_list
new_list_xid words off xid = ground arith

-- Where the new list goes.
abbrev pub next_off : GcPage → ℕ
next_off g =
    if ltb 0 g.state.nlists
    then (g.state.tail + gc_list_size (list_npages g.words g.state.tail)) % 2 ^ 16
    else g.state.head

abbrev pub pushed : GcPage → ℕ → GcPage
pushed g xid = record g {
  state = record g.state { tail = next_off g; nlists = (g.state.nlists + 1) % 2 ^ 16 };
  words = new_list g.words (next_off g) xid;
}

module _ (page_size : ℕ) (small : page_size < 2 ^ 16) where
  pub nlists_small : (g : GcPage) → IsGcPage page_size g → g.state.nlists + 1 < 2 ^ 16
  nlists_small g ok =
      let many = le_behind_many g.words g.state.head (g.state.nlists - 1) in
      let fits = ok.fits in grind (arith, ok.last)

  -- The new list starts behind all lists.
  pub next_off_eq :
      (g : GcPage)
      → IsGcPage page_size g
      → 16 ≤ gc_list_remain page_size g
      → (next_off g ≡ behind g.words g.state.head g.state.nlists)
        × (next_off g + 12 ≤ gc_data page_size)
        × (next_off g % 8 ≡ 0)
  next_off_eq g ok room =
      let words = g.words in
      let head = g.state.head in
      let tail = g.state.tail in
      let n = g.state.nlists in
      let remain = remain_eq page_size g small ok in
      elim (Bool-cases (ltb 0 n)) [
        | inl pos ↦
            let some_lists : 0 < n = ground arith in
            let last = ok.last some_lists in
            let end = behind_last words head n tail some_lists last in
            let aligned = behind-aligned words head (n - 1) ok.aligned in
            let fits : (tail + gc_list_size (list_npages words tail)) % 2 ^ 16
                ≡ tail + gc_list_size (list_npages words tail) =
              omega (arith, remain, room) in
            rw (pos, fits)
              (sym end, omega (arith, remain, room, last, aligned), omega (arith, last, aligned))
        | inr empty ↦
            let no_lists : n ≡ 0 = ground arith in
            let at_head = (ok.empty no_lists).0 in
            let start : behind words head n ≡ head = rw no_lists refl in
            rw empty (sym start, omega (arith, ok.fits, at_head), ok.aligned)
      ]

  pub pushed-IsGcPage :
      (g : GcPage) (xid : ℕ)
      → IsGcPage page_size g
      → 16 ≤ gc_list_remain page_size g
      → IsGcPage page_size (pushed g xid)
  pushed-IsGcPage g xid ok room =
      let words = g.words in
      let head = g.state.head in
      let n = g.state.nlists in
      let (end, fits, aligned) = next_off_eq g ok room in
      let new = new_list words (next_off g) xid in
      let count = new_list_count words (next_off g) xid in
      let more : (n + 1) % 2 ^ 16 ≡ n + 1 = omega (arith, nlists_small g ok) in
      let one : (n + 1) % 2 ^ 16 - 1 ≡ n = omega (arith, more) in
      let before : Agrees words new (behind words head n / 4) =
        rw (← end) (new_list_before words (next_off g) xid) in
      record {
        aligned = ok.aligned;
        last = λ p. rw one (behind_eq words new head n ok.aligned before ∙ sym end);
        empty = λ z. absurd (omega (arith, more));
        fits = omega (arith, count, fits);
        skipped = λ p. elim (Bool-cases (ltb 0 n)) [
          | inl pos ↦
              let many = le_behind_many words head n in
              let some_lists : 0 < n = ground arith in
              let same = before (head / 4 + 2) (omega (arith, many, some_lists)) in
              rw same (ok.skipped some_lists)
          | inr without ↦ let no_skip = (ok.empty (ground arith)).1 in omega (arith, no_skip)
        ];
      }

  pub listed-pushed :
      (g : GcPage) (xid : ℕ)
      → IsGcPage page_size g
      → 16 ≤ gc_list_remain page_size g
      → listed (pushed g xid) ≡ listed g
  listed-pushed g xid ok room =
      let words = g.words in
      let head = g.state.head in
      let n = g.state.nlists in
      let (end, fits, aligned) = next_off_eq g ok room in
      let new = new_list words (next_off g) xid in
      let count : list_npages new (behind words head n) ≡ 0 =
        rw (← end) (new_list_count words (next_off g) xid) in
      let before : Agrees words new (behind words head n / 4) =
        rw (← end) (new_list_before words (next_off g) xid) in
      let more : (n + 1) % 2 ^ 16 ≡ suc n = omega (arith, nlists_small g ok) in
      rw more (pages_from_new words new head g.state.nskip n ok.aligned before count)
