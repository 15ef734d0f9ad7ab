-- ===== src/Bpt/Laws/SplitPoint.antt =====
-- `split_point` chooses where a full leaf is split: never between repeated keys.
use eddy.Base.{
  ℕ, zero, suc, ◌+◌, ◌-◌, ◌/◌, ◌%◌, ◌^◌, ◌≤◌, ◌<◌, ◌≡◌, ◌≢◌, sym, ◌∙◌, Bool, ltb, leb, ◌==◌, ◌&&◌,
  arith, Option, none, some, if◌then◌else◌, Bool-cases, inl, inr,
}
use eddy.Base.Mem.{Mem}
use eddy.Bpt.{Keyed}
use eddy.Bpt.Leaf.{Cursor, leaf_key, scan_back, scan_on, split_run, split_point, first_match}

module _ {E : Type 0} ⦃e : Keyed E⦄ where
  -- The keys of the first `n` slots do not fall.
  abbrev pub IsSorted : Mem E → ℕ → Type 0
  IsSorted l n = (i j : ℕ) → i ≤ j → j < n → leaf_key l i ≤ leaf_key l j

  -- The slots `lo ..< hi` have the key `key`.
  abbrev pub Run : Mem E → ℕ → ℕ → ℕ → Type 0
  Run l key lo hi = (i : ℕ) → lo ≤ i → i < hi → leaf_key l i ≡ key

  record ScannedOn (l : Mem E) (key max n r : ℕ) : Type 0 where
    above : max ≤ r
    below : r ≤ n
    same : Run l key max r
    stops : r < n → leaf_key l r ≢ key

  scan_on_lem :
      (l : Mem E) (key n left max : ℕ)
      → max + left ≡ n
      → ScannedOn l key max n (scan_on l key left max)
  unfolding scan_on
  scan_on_lem l key n zero max h = record {
    above = omega arith;
    below = omega arith;
    same = λ i p q. absurd (omega arith);
    stops = λ p. absurd (omega arith);
  }
  scan_on_lem l key n (suc left) max h = elim (Bool-cases (leaf_key l max == key)) [
    | inl eq ↦
        let r = scan_on_lem l key n left (max + 1) (omega arith) in
        rw eq (record {
          above = omega (arith, r.above);
          below = r.below;
          same = λ i p q. ground (arith, r.same i);
          stops = r.stops;
        })
    | inr ne ↦ rw ne (record {
      above = omega arith;
      below = omega arith;
      same = λ i p q. absurd (omega arith);
      stops = λ p. ground arith;
    })
  ]

  record ScannedBack (l : Mem E) (key min r : ℕ) : Type 0 where
    below : r ≤ min
    same : Run l key r min
    stops : 0 < r → leaf_key l (r - 1) ≢ key

  scan_back_lem : (l : Mem E) (key min : ℕ) → ScannedBack l key min (scan_back l key min)
  unfolding scan_back
  scan_back_lem l key zero = record {
    below = omega arith;
    same = λ i p q. absurd (omega arith);
    stops = λ p. absurd (omega arith);
  }
  scan_back_lem l key (suc min) = elim (Bool-cases (leaf_key l min == key)) [
    | inl eq ↦
        let r = scan_back_lem l key min in
        rw eq (record {
          below = omega (arith, r.below);
          same = λ i p q. ground (arith, r.same i);
          stops = r.stops;
        })
    | inr ne ↦ rw ne (record {
      below = omega arith;
      same = λ i p q. absurd (omega arith);
      stops = λ p. ground arith;
    })
  ]

  -- A split point lies inside the leaf and between different keys; there is none only if all keys
  -- are the same.
  abbrev pub Splits : Mem E → ℕ → Option ℕ → Type 0
  Splits l n none = (i : ℕ) → i < n → leaf_key l i ≡ leaf_key l 0
  Splits l n (some m) = (0 < m) × (m < n) × (leaf_key l (m - 1) < leaf_key l m)

  -- The choice between the two ends of the run.
  scanned-Splits :
      (l : Mem E) (n key min max r : ℕ)
      → IsSorted l n
      → min < max
      → Run l key min max
      → ((i : ℕ) → i < min → leaf_key l i < key)
      → ScannedOn l key max n r
      → Splits l n (if min == 0 && r == n then none else some (if leb (n - r) min then min else r))
  scanned-Splits l n key min max r sorted lt same less s =
      let run : Run l key min r = λ i p q. ground (arith, same i, s.same i) in
      elim (Bool-cases (min == 0 && r == n)) [
        | inl whole ↦
            let first : min ≡ 0 = ground arith in
            let last : r ≡ n = ground arith in
            rw whole
              (λ i p. run i (omega arith) (omega arith) ∙ sym (run 0 (omega arith) (omega arith)))
        | inr part ↦ elim (Bool-cases (leb (n - r) min)) [
          | inl le ↦
              let before : 0 < min = ground (arith, s.below) in
              rw (part, le)
                (
                  before,
                  omega (arith, s.above, s.below),
                  grind (arith, less (min - 1), run min, s.above),
                )
          | inr gt ↦
              let inside : r < n = ground arith in
              rw (part, gt)
                (
                  omega (arith, s.above),
                  inside,
                  let eq = run (r - 1) (omega (arith, s.above)) (omega (arith, s.above)) in
                      let le = sorted (r - 1) r (omega arith) inside in
                      let ne = s.stops inside in ground arith,
                )
        ]
      ]

  split_run-Splits :
      (l : Mem E) (n mid key min max : ℕ)
      → IsSorted l n
      → 0 < mid
      → mid < max
      → min ≤ mid
      → max ≤ n
      → Run l key min max
      → ((i : ℕ) → i < min → leaf_key l i < key)
      → Splits l n (split_run l n mid key min max)
  unfolding split_run
  split_run-Splits l n mid key min max sorted pos below start fits same less =
      elim (Bool-cases (min == mid)) [
        | inl eq ↦ rw eq (pos, omega (arith, below, fits), grind (arith, less (mid - 1), same mid))
        | inr ne ↦
            let r = scan_on_lem l key n (n - max) max (omega (arith, fits)) in
            rw ne
              (scanned-Splits l n key min max _ sorted (omega (arith, start, below)) same less r)
      ]

  -- The cursor stands at a search's result: on a miss no entry has the key, on a hit the matches
  -- that were counted end at the cursor, behind the smaller keys.
  pub record AtSearch (c : Cursor) (l : Mem E) (n : ℕ) : Type 0 where
    pub miss : c.nmatches ≡ 0 → (i : ℕ) → i < n → leaf_key l i ≢ c.key
    pub inside : 0 < c.nmatches → (c.entry_index < n) × (c.nmatches ≤ c.entry_index + 1)
    pub hits : 0 < c.nmatches → Run l c.key (c.entry_index + 1 - c.nmatches) (c.entry_index + 1)
    pub before :
        0 < c.nmatches → (i : ℕ) → i < c.entry_index + 1 - c.nmatches → leaf_key l i < c.key

  scanned_less :
      (l : Mem E) (n mid r : ℕ)
      → IsSorted l n
      → mid < n
      → ScannedBack l (leaf_key l mid) mid r
      → (i : ℕ) → i < r
      → leaf_key l i < leaf_key l mid
  scanned_less l n mid r sorted h s i p =
      let a = sorted i (r - 1) (omega arith) (omega (arith, s.below)) in
      let b = sorted (r - 1) mid (omega (arith, s.below)) h in
      let ne = s.stops (omega arith) in ground arith

  -- The middle of a leaf with two entries or more, in a run that starts at `min`.
  middle-Splits :
      (l : Mem E) (n min : ℕ)
      → IsSorted l n
      → 2 ≤ n
      → min ≤ n / 2
      → Run l (leaf_key l (n / 2)) min (n / 2)
      → ((i : ℕ) → i < min → leaf_key l i < leaf_key l (n / 2))
      → Splits l n (split_run l n (n / 2) (leaf_key l (n / 2)) min (n / 2 + 1))
  middle-Splits l n min sorted two le same less =
      split_run-Splits l n (n / 2) _ min (n / 2 + 1) sorted (omega arith) (omega arith) le
        (omega arith) (λ i p q. grind (arith, same i)) less

  -- In a sorted leaf of two to 2 ^ 16 - 1 entries, with the cursor at a search's result,
  -- `split_point` gives a place inside the leaf between two different keys, and fails only where
  -- all keys of the leaf are the same.
  pub split_point-Splits :
      (c : Cursor) (l : Mem E) (n : ℕ)
      → 2 ≤ n
      → n < 2 ^ 16
      → IsSorted l n
      → AtSearch c l n
      → Splits l n (split_point c l n)
  unfolding split_point
  split_point-Splits c l n two small sorted at =
      let mid : ℕ = n / 2 in
      let first : ℕ = c.entry_index + 1 - c.nmatches in
      let half : mid < n = omega arith in
      let here : Bool = ltb 0 c.nmatches && leb mid c.entry_index && leb (first_match c) mid in
      let first_eq : 0 < c.nmatches → first_match c ≡ first =
        λ p. let inside = at.inside p in omega arith in
      let first_eq' : 0 < c.nmatches → first_match c % 2 ^ 16 ≡ first =
        λ p. let inside = at.inside p in omega arith in
      elim (Bool-cases here) [
        | inl here ↦
            let some_hits : 0 < c.nmatches = ground arith in
            let inside = at.inside some_hits in
            let last : (c.entry_index + 1) % 2 ^ 16 ≡ c.entry_index + 1 = omega arith in
            let first_le : first ≤ mid = grind (arith, first_eq) in
            rw (here, last, first_eq' some_hits)
              (split_run-Splits l n mid c.key first (c.entry_index + 1) sorted (omega arith)
                (ground arith) first_le (omega (arith, inside)) (at.hits some_hits)
                (at.before some_hits))
        | inr away ↦ elim (Bool-cases (leaf_key l mid == c.key)) [
          | inl eq ↦
              let same_key : leaf_key l mid ≡ c.key = ground arith in
              let some_hits : 0 < c.nmatches = grind (arith, at.miss _ mid half) in
              let le : first ≤ mid = grind (arith, at.before some_hits mid) in
              let same : Run l (leaf_key l mid) first mid = λ i p q. grind (
                arith,
                at.hits some_hits i,
                at.hits some_hits c.entry_index,
                at.inside some_hits,
                sorted c.entry_index i,
                sorted i mid,
              ) in
              rw (away, eq, first_eq' some_hits)
                (middle-Splits l n first sorted two le same
                  (λ i p. grind (arith, at.before some_hits i p)))
          | inr ne ↦
              let s = scan_back_lem l (leaf_key l mid) mid in
              rw (away, ne)
                (middle-Splits l n (scan_back l (leaf_key l mid) mid) sorted two s.below s.same
                  (scanned_less l n mid _ sorted half s))
        ]
      ]
