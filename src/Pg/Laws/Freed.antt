-- ===== src/Pg/Laws/Freed.antt =====
-- `ed_free_pgno`: what the loop leaves, and how many new gc pages it needs.
use eddy.Base.{
  ℕ, zero, suc, ◌+◌, ◌-◌, ◌*◌, ◌≤◌, ◌<◌, ◌≡◌, ◌≢◌, refl, ltb, ◌==◌, arith, List, [], ◌∷◌, ◌++◌,
  Bool-cases, inl, inr, false, length,
}
use native.Mathlib.Nat.{div-add-mod', mod-lt}
use eddy.Base.Mem.{Mem, put}
use eddy.Pg.{GcPage, Index, count_size, gc_list_max}
use eddy.Pg.Lists.{listed, IsGcPage, Chain, all_listed}
use eddy.Pg.Free.{new_count}

-- A number that is none of a list's, and a list without repeats.
abbrev pub Apart : ℕ → List ℕ → Type 0
Apart p [] = Unit
Apart p (q ∷ qs) = (p ≢ q) × Apart p qs

abbrev pub IsDistinct : List ℕ → Type 0
IsDistinct [] = Unit
IsDistinct (p ∷ ps) = Apart p ps × IsDistinct ps

abbrev pub AllGcPages : ℕ → List GcPage → Type 0
AllGcPages page_size [] = Unit
AllGcPages page_size (g ∷ gs) = IsGcPage page_size g × AllGcPages page_size gs

-- What the loop leaves, started at the gc page `tail` with the pages `new`: the gc pages from there
-- on are linked up to the last one, and list what the first one listed and the pages `pgs`.
pub record Freed (page_size : ℕ) (tail : ℕ) (new pgs : List ℕ) (idx idx' : Index) : Type 0 where
  pub chain : List GcPage
  pub linked : Chain idx'.pages idx'.gc_tail (idx'.pages tail) chain
  pub listed : listed (idx'.pages tail) ++ all_listed chain ≡ listed (idx.pages tail) ++ pgs
  pub valid : IsGcPage page_size (idx'.pages tail) × AllGcPages page_size chain
  pub number : (idx'.pages tail).no ≡ tail
  pub others : (p : ℕ) → p ≢ tail → Apart p new → (idx'.pages p ≡ idx.pages p) × (p ≢ idx'.gc_tail)

pub put_same : {A : Type 0} (m : Mem A) (i : ℕ) (v : A) → put m i v i ≡ v
put_same m i v = ground arith

pub put_other : {A : Type 0} (m : Mem A) (i : ℕ) (v : A) (j : ℕ) → j ≢ i → put m i v j ≡ m j
put_other m i v j ne = let t : (i == j) ≡ false = ground arith in rw t refl

Apart-at : (p : ℕ) (ps : List ℕ) (q : ℕ) → Apart p (q ∷ ps) → p ≢ q
Apart-at p ps q a = a.0

pub length_nil : (xs : List ℕ) → length xs ≡ 0 → xs ≡ []
length_nil [] h = refl
length_nil (x ∷ xs) h = absurd (omega (arith, h))

pub count_size_bounds : (r m : ℕ) → 1 ≤ m → (r ≤ count_size r m * m) × (count_size r m * m < r + m)
count_size_bounds r m pos =
    let whole = div-add-mod' (r + (m - 1)) m in
    let small = mod-lt (r + (m - 1)) {m = m} pos in
    (omega (arith, whole, small, pos), omega (arith, whole, small, pos))

no_less : (k m : ℕ) → 0 < k → k * m < 0 + m → ⊥
no_less zero m pos few = absurd (omega (arith, pos))
no_less (suc k) m pos few =
    let more : suc k * m ≡ m + k * m = grind arith in absurd (omega (arith, few, more))

-- The new pages that `ed_free_pgno` allocates suffice, and none is left.
pub count_enough :
    (page_size : ℕ)
    → 64 ≤ page_size
    → (room n k : ℕ) → k ≡ new_count page_size room n
    → (n ≤ room + k * gc_list_max page_size)
      × (0 < k → room + k * gc_list_max page_size < n + gc_list_max page_size)
count_enough page_size large room n k count = elim (Bool-cases (ltb n room)) [
  | inl all ↦
      let (above, below) = count_size_bounds 0 (gc_list_max page_size) (omega arith) in
      let zero_k : k ≡ count_size 0 (gc_list_max page_size) = rw all at count in
      let few : k * gc_list_max page_size < 0 + gc_list_max page_size = rw zero_k below in
      let lt : n < room = ground arith in
      (omega (arith, lt), λ pos. absurd (no_less k (gc_list_max page_size) pos few))
  | inr some_left ↦
      let r : ℕ = n - room in
      let (above, below) = count_size_bounds r (gc_list_max page_size) (omega arith) in
      let some_k : k ≡ count_size r (gc_list_max page_size) = rw some_left at count in
      let le : room ≤ n = ground arith in
      (rw some_k (omega (arith, above)), λ pos. rw some_k (omega (arith, below, le)))
]
