-- ===== src/Pg/Laws/Fills.antt =====
-- `ed_free_pgno`: a round of the loop, with what comes after it.
use eddy.Base.{
  ℕ, suc, ◌+◌, ◌-◌, ◌*◌, ◌^◌, ◌≤◌, ◌<◌, ◌≡◌, refl, sym, ap, ◌∙◌, ◌==◌, if◌then◌else◌, arith, Option,
  none, some, List, [], ◌∷◌, ◌++◌, Bool-cases, inl, inr, length,
}
use eddy.Base.Mem.{Mem, put}
use eddy.Pg.{GcPage, Index, gc_list_max}
use eddy.Pg.Gc.{gc_list_next, fill_list}
use eddy.Pg.Lists.{listed, IsGcPage, end}
use eddy.Pg.Free.{Spot, next_spot, fill_spot, free_loop}
use eddy.Pg.Laws.Round.{Slot, Full, fill_list-Full}
use eddy.Pg.Laws.Freed.{IsDistinct, Freed, put_same, put_other, length_nil}

module _ (page_size : ℕ) (small : page_size < 2 ^ 16) (large : 64 ≤ page_size) (xid : ℕ) where
  abbrev pub max_pages : ℕ
  max_pages = gc_list_max page_size

  none_left :
      (new : List ℕ) (room n : ℕ)
      → n ≤ room
      → (0 < length new → room + length new * max_pages < n + max_pages)
      → new ≡ []
  none_left [] room n few used = refl
  none_left (p ∷ new) room n few used =
      let h = used (omega arith) in
      let more : (1 + length new) * max_pages ≡ max_pages + length new * max_pages = grind arith in
      absurd (omega (arith, h, more))

  pub used_after :
      (new : List ℕ) (room n rest : ℕ)
      → rest ≡ n - room
      → 0 < rest
      → (0 < length new → room + length new * max_pages < n + max_pages)
      → length new * max_pages < rest + max_pages
  used_after [] room n rest eq pos used = omega (arith, pos)
  used_after (p ∷ new) room n rest eq pos used =
      let h = used (omega arith) in omega (arith, h, eq, pos)

  pub number-put :
      (pages : Mem GcPage) (i : ℕ) (g : GcPage)
      → g.no ≡ i
      → ((p : ℕ) → (pages p).no ≡ p)
      → (p : ℕ) → (put pages i g p).no ≡ p
  number-put pages i g at numbered p = elim (Bool-cases (i == p)) [
    | inl here ↦ let e : i ≡ p = ground arith in rw here (at ∙ e)
    | inr other ↦ rw other (numbered p)
  ]

  -- The outcome of the loop.
  abbrev pub Outcome : ℕ → List ℕ → List ℕ → Index → Option (List ℕ × Index) → Type 0
  Outcome tail new pgs idx r =
      (idx' : Index) × (r ≡ some ([], idx')) × Freed page_size tail new pgs idx idx'

  -- The loop at a gc page without room, on some fuel.
  abbrev pub Continues : ℕ → Type 0
  Continues fuel =
      (tail : ℕ) (new pgs : List ℕ) (idx : Index)
      → gc_list_next page_size (idx.pages tail) xid ≡ none
      → length new ≤ fuel
      → ((p : ℕ) → (idx.pages p).no ≡ p)
      → IsGcPage page_size (idx.pages tail)
      → idx.gc_tail ≡ tail
      → IsDistinct (tail ∷ new)
      → 0 < length pgs
      → length pgs ≤ length new * max_pages
      → length new * max_pages < length pgs + max_pages
      → Outcome tail new pgs idx (free_loop fuel page_size xid tail new pgs idx)

  pub loop-spot :
      (fuel tail : ℕ) (new pgs : List ℕ) (idx : Index) (s : Spot)
      → next_spot page_size xid tail new idx (gc_list_next page_size (idx.pages tail) xid) ≡ some s
      → let r = fill_spot page_size pgs s in
        free_loop (suc fuel) page_size xid tail new pgs idx ≡ (
          if length r.rest == 0
          then some (r.new, r.idx)
          else free_loop fuel page_size xid r.tail r.new r.rest r.idx)
  unfolding free_loop
  loop-spot fuel tail new pgs idx s h = rw (free_loop, h) refl

  fill_list-Full_at :
      (room off : ℕ) (g : GcPage) (pgs : List ℕ)
      → Slot page_size small xid room off g
      → let r = fill_list page_size g off pgs in Full page_size small xid room pgs g r.0 r.1
  fill_list-Full_at room off g pgs slot =
      let at = slot.at_tail in rw at (fill_list-Full page_size small xid room g pgs (rw at at slot))

  -- A round, from the list that takes pages on.
  pub round-Outcome :
      (fuel room : ℕ) (pgs : List ℕ) (s : Spot)
      → Continues fuel
      → Slot page_size small xid room s.off (s.idx.pages s.tail)
      → length s.new ≤ fuel
      → ((p : ℕ) → (s.idx.pages p).no ≡ p)
      → s.idx.gc_tail ≡ s.tail
      → IsDistinct (s.tail ∷ s.new)
      → length pgs ≤ room + length s.new * max_pages
      → (0 < length s.new → room + length s.new * max_pages < length pgs + max_pages)
      → let r = fill_spot page_size pgs s in
        Outcome s.tail s.new pgs s.idx (
          if length r.rest == 0
          then some (r.new, r.idx)
          else free_loop fuel page_size xid r.tail r.new r.rest r.idx)
  unfolding fill_spot
  round-Outcome fuel room pgs s go slot enough numbered at_end distinct le used =
      let tail = s.tail in
      let g = s.idx.pages tail in
      let r = fill_list page_size g s.off pgs in
      let full = fill_list-Full_at room s.off g pgs slot in
      let now : put s.idx.pages tail r.0 tail ≡ r.0 = put_same s.idx.pages tail r.0 in
      let left = full.left in
      elim (Bool-cases (length r.1 == 0)) [
        | inl done ↦
            let no_rest : length r.1 ≡ 0 = ground arith in
            let few : length pgs ≤ room = omega (arith, left, no_rest) in
            let no_new : s.new ≡ [] = none_left s.new room (length pgs) few used in
            let rest_nil : r.1 ≡ [] = length_nil r.1 no_rest in
            (
              record s.idx { pages = put s.idx.pages tail r.0 },
              rw (done, no_new) refl,
              record {
                chain = [];
                linked = rw now (end (full.no ∙ numbered tail ∙ sym at_end));
                listed = rw now (ap (λ l. listed r.0 ++ l) (sym rest_nil) ∙ full.same);
                valid = rw now (full.valid, tt);
                number = rw now (full.no ∙ numbered tail);
                others = λ p ne apart.
                    (put_other s.idx.pages tail r.0 p ne, λ e. absurd (ne (e ∙ at_end)));
              },
            )
        | inr more ↦
            let idx2 : Index = record s.idx { pages = put s.idx.pages tail r.0 } in
            let rest : 0 < length r.1 = ground arith in
            let numbered' : (p : ℕ) → (idx2.pages p).no ≡ p =
              λ p. number-put s.idx.pages tail r.0 (full.no ∙ numbered tail) numbered p in
            let le' : length r.1 ≤ length s.new * max_pages = omega (arith, left, le) in
            let used' = used_after s.new room (length pgs) (length r.1) left rest used in
            let (idx', eq, freed) =
              go tail s.new r.1 idx2 (rw now (full.full rest)) enough numbered' (rw now full.valid)
                at_end distinct rest le' used' in
            (
              idx',
              rw more eq,
              record {
                chain = freed.chain;
                linked = freed.linked;
                listed = freed.listed ∙ ap (λ x. listed x ++ r.1) now ∙ full.same;
                valid = freed.valid;
                number = freed.number;
                others = λ p ne apart.
                    let (same, behind) = freed.others p ne apart in
                    (same ∙ put_other s.idx.pages tail r.0 p ne, behind);
              },
            )
      ]
