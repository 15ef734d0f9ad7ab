-- ===== src/Cache/Laws/Reserve.antt =====
-- The region that `obj_reserve` finds where the first lock is granted.
use eddy.Base.{
  ℕ, zero, suc, ◌+◌, ◌-◌, ◌*◌, ◌/◌, ◌%◌, ◌≤◌, ◌<◌, ◌≡◌, refl, sym, ap, ◌∙◌, true, false, ltb, arith,
  Bool-cases, inl, inr, if◌then◌else◌, Option, none, some,
}
use native.Mathlib.Nat.{mod-lt, div-add-mod, mul-add, mul-mod_right}
use eddy.Base.Result.{Error, ok}
use eddy.Cache.{EntryBlock}
use eddy.Cache.Reserve.{
  Blocks, Search, or_old, wrap, searched_at, search_once, reserve_loop, reserve_region,
}

module _ {S : Type 0} (ops : Blocks S) (block_size block_count len : ℕ) where
  -- A region of the slab: block `no` is that of the position found, and `len` bytes from there on are in
  -- the slab. The position is `vno` if they fit there, and else the start of the next round.
  pub record IsRegion (vno : ℕ) (s : Search S) : Type 0 where
    pub place : s.start ≡ s.no * block_size
    pub block_of : s.vno % block_count ≡ s.no
    pub fits : s.start + len ≤ block_count * block_size
    pub stays : vno % block_count * block_size + len ≤ block_count * block_size → s.vno ≡ vno
    pub next_round :
        block_count * block_size < vno % block_count * block_size + len
        → s.vno ≡ vno + (block_count - vno % block_count)

  -- The rest of a round is the next multiple.
  round_up :
      (vno : ℕ) → 0 < block_count → (vno + (block_count - vno % block_count)) % block_count ≡ 0
  round_up vno pos =
      let e = div-add-mod vno block_count in
      let lt = mod-lt vno pos in
      let multiple : vno + (block_count - vno % block_count)
          ≡ block_count * (vno / block_count + 1) =
        omega (arith, e, lt, mul-add block_count (vno / block_count) 1) in
      ap (λ k. k % block_count) multiple ∙ mul-mod_right block_count (vno / block_count + 1)

  start_search : ℕ → S → Search S
  start_search vno db = record {
    vno = vno;
    no = vno % block_count;
    start = vno % block_count * block_size;
    searched = false;
    block = none;
    db = db;
  }

  -- The region before and after it is wrapped.
  wrap-IsRegion :
      (vno : ℕ) (db : S)
      → 0 < block_count
      → len ≤ block_count * block_size
      → (w : Search S) × (wrap ops block_size block_count len (start_search vno db) ≡ w)
        × IsRegion vno w
        × (w.searched ≡ false)
        × (w.db ≡ db)
  unfolding wrap start_search
  wrap-IsRegion vno db pos small =
      let no : ℕ = vno % block_count in
      let behind : ℕ = vno + (block_count - no) in
      let lt = mod-lt vno pos in
      elim (Bool-cases (ltb (block_count * block_size) (no * block_size + len))) [
        | inl out ↦
            let w : Search S = record {
              vno = behind;
              no = behind % block_count;
              start = 0;
              searched = false;
              block = none;
              db = db;
            } in
            (
              w,
              rw out refl,
              record {
                place =
                    let z : 0 * block_size ≡ 0 = omega arith in
                    sym (ap (λ k. k * block_size) (round_up vno pos) ∙ z);
                block_of = refl;
                fits = omega (arith, small);
                stays = λ le. absurd (ground arith);
                next_round = λ gt. refl;
              },
              refl,
              refl,
            )
        | inr inside ↦
            let w : Search S = start_search vno db in
            (
              w,
              rw inside refl,
              record {
                place = refl;
                block_of = refl;
                fits = ground arith;
                stays = λ le. refl;
                next_round = λ gt. absurd (ground arith);
              },
              refl,
              refl,
            )
      ]

  -- `obj_reserve` for an object that fits into the slab, which is not empty, if `ed_bpt_find` does not fail and the first lock
  -- is granted, on fuel for one attempt: the locked region has `len` bytes of the slab, it starts at the block of the
  -- position found, and that is the position asked for if the bytes fit into the slab there, and
  -- else the start of the slab's next round.
  pub reserve_region-IsRegion :
      (lock_error : ℕ → ℕ → Option Error) (fuel vno : ℕ) (db : S)
      → 0 < block_count
      → len ≤ block_count * block_size
      → 0 < fuel
      → ((start : ℕ) → lock_error 0 start ≡ none)
      → ((no : ℕ) → (b : Option EntryBlock) × (db' : S) × (ops.find no db ≡ (ok b, db')))
      → (s : Search S) × (reserve_region ops block_size block_count len lock_error fuel vno db
          ≡ some (ok s))
        × IsRegion vno s
  unfolding reserve_region reserve_loop search_once start_search
  reserve_region-IsRegion lock_error zero vno db pos small lt free finds =
      absurd (omega (arith, lt))
  reserve_region-IsRegion lock_error (suc fuel) vno db pos small lt free finds =
      let (w, eq, region, fresh, same) = wrap-IsRegion vno db pos small in
      let (b, db', found) = finds w.no in
      let s : Search S = record w { searched = true; block = or_old b w.block; db = db' } in
      let once : search_once ops block_size block_count len w ≡ ok s =
        ap
          (λ k.
            if k then ok w else searched_at ops block_size block_count len w (ops.find w.no w.db))
          fresh
        ∙ ap (λ d. searched_at ops block_size block_count len w (ops.find w.no d)) same
        ∙ ap (searched_at ops block_size block_count len w) found in
      (
        s,
        rw (reserve_loop, eq, once, free w.start) refl,
        record {
          place = region.place;
          block_of = region.block_of;
          fits = region.fits;
          stays = region.stays;
          next_round = region.next_round;
        },
      )
