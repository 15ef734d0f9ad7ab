-- ===== src/Stat/Marks.antt =====
-- Marks in a row: which pages are marked, and which are reported as referred to more than once.
use eddy.Base.{
  ℕ, suc, ◌+◌, ◌-◌, ◌≤◌, ◌≡◌, refl, sym, ◌∙◌, true, false, ◌||◌, ltb, ◌==◌, if◌then◌else◌, arith,
  List, [], ◌∷◌, ◌++◌, Bool-cases, inl, inr,
}
use eddy.Stat.{Stat, stat_mark, push_double_page, mark_all}

-- How often a page occurs.
abbrev pub count : ℕ → List ℕ → ℕ
count p [] = 0
count p (q ∷ pgs) = if q == p then suc (count p pgs) else count p pgs

pub count-append : (p : ℕ) (xs ys : List ℕ) → count p (xs ++ ys) ≡ count p xs + count p ys
count-append p [] ys = omega arith
count-append p (x ∷ xs) ys = let rest = count-append p xs ys in ground (arith, rest)

-- One mark, for a page of the index.
record Marked (s s' : Stat) (q p : ℕ) : Type 0 where
  same_no : s'.no ≡ s.no
  vec : s'.vec p ≡ (if q == p then true else s.vec p)
  mult : count p s'.mult ≡ count p s.mult + (if q == p then (if s.vec p then 1 else 0) else 0)

stat_mark-Marked : (s : Stat) (q p : ℕ) → p ≤ s.no → Marked s (stat_mark s q) q p
unfolding stat_mark push_double_page
stat_mark-Marked s q p le = elim (Bool-cases (ltb s.no q)) [
  | inl out ↦
      let ne : (q == p) ≡ false = ground arith in
      rw out (record { same_no = refl; vec = rw ne refl; mult = rw ne (omega arith) })
  | inr inside ↦ elim (Bool-cases (s.vec q)) [
    | inl on ↦
        let more = count-append p s.mult (q ∷ []) in
        rw (inside, on)
          (record {
            same_no = refl;
            vec = elim (Bool-cases (q == p)) [
              | inl eq ↦ let e : q ≡ p = ground arith in rw (eq, ← e, on) refl
              | inr ne ↦ rw ne refl
            ];
            mult = elim (Bool-cases (q == p)) [
              | inl eq ↦
                  let e : q ≡ p = ground arith in
                  let on' : s.vec p ≡ true = rw (← e) on in rw (eq, on') (rw eq at more)
              | inr ne ↦ rw ne (rw ne at more)
            ];
          })
    | inr off ↦
        rw (inside, off)
          (record {
            same_no = refl;
            vec = refl;
            mult = elim (Bool-cases (q == p)) [
              | inl eq ↦
                  let e : q ≡ p = ground arith in
                  let off' : s.vec p ≡ false = rw (← e) off in rw (eq, off') (omega arith)
              | inr ne ↦ rw ne (omega arith)
            ];
          })
  ]
]

-- After marks of `pgs`, of the pages up to the number of pages of the index: a page is marked if
-- and only if it was before or is one of `pgs`, and it is reported as often as it was marked again:
-- once less than it occurs, or as often as it occurs if it was marked before.
pub mark_all-vec-mult :
    (s : Stat) (pgs : List ℕ) (p : ℕ)
    → p ≤ s.no
    → ((mark_all s pgs).vec p ≡ (s.vec p || ltb 0 (count p pgs)))
      × (count p (mark_all s pgs).mult
          ≡ count p s.mult + (if s.vec p then count p pgs else count p pgs - 1))
mark_all-vec-mult s [] p le = elim (Bool-cases (s.vec p)) [
  | inl on ↦ rw on (refl, omega arith)
  | inr off ↦ rw off (refl, omega arith)
]
mark_all-vec-mult s (q ∷ pgs) p le =
    let m = stat_mark-Marked s q p le in
    let no_eq = m.same_no in
    let (vec, mult) = mark_all-vec-mult (stat_mark s q) pgs p (omega (arith, no_eq)) in
    let now = m.vec in
    let times = m.mult in
    elim (Bool-cases (q == p)) [
      | inl eq ↦
          let now' : (stat_mark s q).vec p ≡ true = now ∙ rw eq refl in
          let vec' = rw now' at vec in
          let mult' = rw now' at mult in
          elim (Bool-cases (s.vec p)) [
            | inl on ↦ rw (eq, on) (vec', omega (arith, mult', rw (eq, on) at times))
            | inr off ↦
                let positive : ltb 0 (suc (count p pgs)) ≡ true = ground arith in
                rw (eq, off) (vec' ∙ sym positive, omega (arith, mult', rw (eq, off) at times))
          ]
      | inr ne ↦
          let now' : (stat_mark s q).vec p ≡ s.vec p = now ∙ rw ne refl in
          let vec' = rw now' at vec in
          let mult' = rw now' at mult in rw ne (vec', omega (arith, mult', rw ne at times))
    ]

pub mark_all-append :
    (s : Stat) (xs ys : List ℕ) → mark_all s (xs ++ ys) ≡ mark_all (mark_all s xs) ys
mark_all-append s [] ys = refl
mark_all-append s (x ∷ xs) ys = mark_all-append (stat_mark s x) xs ys

stat_mark-no : (s : Stat) (p : ℕ) → (stat_mark s p).no ≡ s.no
unfolding stat_mark push_double_page
stat_mark-no s p = ground arith

pub mark_all-no : (s : Stat) (pgs : List ℕ) → (mark_all s pgs).no ≡ s.no
mark_all-no s [] = refl
mark_all-no s (p ∷ pgs) = mark_all-no (stat_mark s p) pgs ∙ stat_mark-no s p
