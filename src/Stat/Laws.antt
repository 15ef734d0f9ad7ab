-- ===== src/Stat/Laws.antt =====
-- What the marks of lib/stat.c find.
use eddy.Base.{
  ℕ, zero, suc, ◌+◌, ◌-◌, ◌*◌, ◌/◌, ◌≤◌, ◌<◌, ◌≡◌, refl, ◌↔◌, Bool, true, false, not, ◌&&◌, ltb,
  ◌==◌, if◌then◌else◌, arith, Bool-cases, inl, inr,
}
use eddy.Base.Mem.{Mem}
use eddy.Stat.{Stat, all_set, all_clear, all_ones, stat_has_leaks, stat_has_leak}

abbrev AllSet : Mem Bool → ℕ → ℕ → Type 0
AllSet vec i n = (j : ℕ) → i ≤ j → j < i + n → vec j ≡ true

all_set_iff : (vec : Mem Bool) (i n : ℕ) → (all_set vec i n ≡ true) ↔ AllSet vec i n
unfolding all_set
all_set_iff vec i zero = (λ h j p q. absurd (omega arith), λ h. refl)
all_set_iff vec i (suc n) =
    let (to, from) = all_set_iff vec (i + 1) n in
    elim (Bool-cases (vec i)) [
      | inl on ↦ rw on (
        λ h j p q. elim (Bool-cases (i == j)) [
          | inl here ↦ let e : i ≡ j = ground arith in rw (← e) on
          | inr later ↦ to h j (ground arith) (omega arith)
        ],
        λ all. from (λ j p q. all j (omega arith) (omega arith)),
      )
      | inr off ↦
          rw off (λ h. absurd cc, λ all. let on = all i (omega arith) (omega arith) in absurd cc)
    ]

all_clear_lem :
    (vec : Mem Bool) (i n : ℕ) → ((j : ℕ) → i ≤ j → vec j ≡ false) → all_clear vec i n ≡ true
unfolding all_clear
all_clear_lem vec i zero off = refl
all_clear_lem vec i (suc n) off =
    rw (off i (omega arith)) (all_clear_lem vec (i + 1) n (λ j p. off j (omega arith)))

all_ones_iff :
    (vec : Mem Bool) (size i n : ℕ) → (all_ones vec size i n ≡ true) ↔ AllSet vec i (n * size)
unfolding all_ones
all_ones_iff vec size i zero = (λ h j p q. absurd (omega arith), λ h. refl)
all_ones_iff vec size i (suc n) =
    let (to, from) = all_set_iff vec i size in
    let (to', from') = all_ones_iff vec size (i + size) n in
    let total : suc n * size ≡ size + n * size = grind arith in
    elim (Bool-cases (all_set vec i size)) [
      | inl on ↦ rw on (
        λ h j p q. elim (Bool-cases (ltb j (i + size))) [
          | inl here ↦ to on j p (ground arith)
          | inr later ↦ to' h j (ground arith) (omega (arith, total))
        ],
        λ all. from' (λ j p q. all j (omega arith) (omega (arith, total))),
      )
      | inr off ↦ rw off (
        λ h. absurd cc,
        λ all. let on = from (λ j p q. all j p (omega (arith, total))) in absurd cc,
      )
    ]

-- The tests of `ed_stat_has_leaks` by their outcomes.
abbrev verdict : Bool → Bool → ℕ → Bool → Bool → Bool
verdict words bytes last set clear =
    if not words then true else if not bytes then true else ltb 0 last && not (set && clear)

verdict-false :
    (words bytes : Bool) (last : ℕ) (set clear : Bool)
    → verdict words bytes last set clear ≡ false
    → (words ≡ true) × (bytes ≡ true) × (0 < last → set ≡ true)
verdict-false false bytes last set clear h = absurd cc
verdict-false true false last set clear h = absurd cc
verdict-false true true last true clear h = (refl, refl, λ p. refl)
verdict-false true true last false clear h = (refl, refl, λ p. ground arith)

verdict-true :
    (words bytes : Bool) (last : ℕ) (set clear : Bool)
    → words ≡ true
    → bytes ≡ true
    → set ≡ true
    → clear ≡ true
    → verdict words bytes last set clear ≡ false
verdict-true words bytes last set clear a b c d = rw (a, b, c, d) (ground arith)

leak_eq : (s : Stat) (p : ℕ) → (p < s.no → s.vec p ≡ true) → stat_has_leak s p ≡ false
unfolding stat_has_leak
leak_eq s p h = elim (Bool-cases (ltb p s.no)) [
  | inl inside ↦ let on = h (ground arith) in rw (inside, on) refl
  | inr outside ↦ rw outside refl
]

marked_eq : (s : Stat) (p : ℕ) → p < s.no → stat_has_leak s p ≡ false → s.vec p ≡ true
unfolding stat_has_leak
marked_eq s p inside h = elim (Bool-cases (s.vec p)) [
  | inl on ↦ on
  | inr off ↦ let lt : ltb p s.no ≡ true = ground arith in absurd (cc (rw (lt, off) at h))
]

-- If no bit from the number of pages on is set, `ed_stat_has_leaks` reports leaks exactly where some
-- page is one by `ed_stat_has_leak`: it reports none if and only if every page is marked.
pub stat_has_leaks_iff :
    (s : Stat)
    → ((p : ℕ) → s.no ≤ p → s.vec p ≡ false)
    → (stat_has_leaks s ≡ false) ↔ ((p : ℕ) → stat_has_leak s p ≡ false)
unfolding stat_has_leaks
stat_has_leaks_iff s off =
    let bytes : ℕ = s.no / 8 in
    let words : ℕ = bytes / 8 in
    let last : ℕ = s.no - bytes * 8 in
    let (to_words, from_words) = all_ones_iff s.vec 64 0 words in
    let (to_bytes, from_bytes) = all_ones_iff s.vec 8 (words * 64) (bytes - words * 8) in
    let (to_bits, from_bits) = all_set_iff s.vec (bytes * 8) last in
    let clear =
      all_clear_lem s.vec (bytes * 8 + last) (8 - last) (λ j p. off j (omega (arith, p))) in
    let words_set = all_ones s.vec 64 0 words in
    let bytes_set = all_ones s.vec 8 (words * 64) (bytes - words * 8) in
    let bits_set = all_set s.vec (bytes * 8) last in
    let bits_clear = all_clear s.vec (bytes * 8 + last) (8 - last) in
    (
      λ h p.
          let (a, b, c) = verdict-false words_set bytes_set last bits_set bits_clear h in
          leak_eq s p (λ inside. elim (Bool-cases (ltb p (words * 64))) [
            | inl in_words ↦ to_words a p (omega arith) (ground arith)
            | inr behind ↦ elim (Bool-cases (ltb p (bytes * 8))) [
              | inl in_bytes ↦ to_bytes b p (ground arith) (ground arith)
              | inr in_last ↦ to_bits (c (ground arith)) p (ground arith) (ground arith)
            ]
          ]),
      λ no_leak.
          let marked : (p : ℕ) → p < s.no → s.vec p ≡ true =
            λ p inside. marked_eq s p inside (no_leak p) in
          verdict-true words_set bytes_set last bits_set bits_clear
            (from_words (λ j p q. marked j (omega arith)))
            (from_bytes (λ j p q. marked j (omega arith)))
            (from_bits (λ j p q. marked j (omega arith))) clear,
    )
