-- ===== src/Base/Mem.antt =====
-- Arrays in mapped pages: a function from the slot's index, of which the code uses the slots that
-- the page holds. `memcpy` and `memmove` are one function here, since a function is read before
-- it is replaced.
use Prim.Native.Nat.{ℕ, zero, suc, ◌+◌, ◌-◌, ◌<◌}
use mathlib.Core.Path.{◌≡◌, refl, ap, ap₂}
use mathlib.Core.Logic.{◌≢◌}
use mathlib.Core.Bool.{true, false, ◌&&◌}
use mathlib.Core.List.{List, [], ◌∷◌, ◌++◌}
use native.Mathlib.Omega.{arith}
use eddy.Base.Tests.{ltb, leb, ◌==◌, if◌then◌else◌}
use eddy.Base.Lists.{length}

abbrev pub Mem {ℓ} : Type ℓ → Type ℓ
Mem A = ℕ → A

module _ {ℓ} {A : Type ℓ} where
  -- `move dst d src s n` copies `n` slots from index `s` of `src` to index `d` of `dst`.
  abbrev pub move : Mem A → ℕ → Mem A → ℕ → ℕ → Mem A
  move dst d src s n i = if leb d i && ltb i (d + n) then src (i - d + s) else dst i

  abbrev pub put : Mem A → ℕ → A → Mem A
  put m i v j = if i == j then v else m j

  pub put_apart : (m : Mem A) (i : ℕ) (v : A) (j : ℕ) → j ≢ i → put m i v j ≡ m j
  put_apart m i v j away = let e : (i == j) ≡ false = ground (arith, away) in rw e refl

  pub put_at : (m : Mem A) (i : ℕ) (v : A) → put m i v i ≡ v
  put_at m i v = let e : (i == i) ≡ true = ground arith in rw e refl

  -- The `n` slots from index `i` on.
  abbrev pub slice : Mem A → ℕ → ℕ → List A
  slice m i zero = []
  slice m i (suc n) = m i ∷ slice m (i + 1) n

  pub length-slice : (m : Mem A) (i n : ℕ) → length (slice m i n) ≡ n
  length-slice m i zero = refl
  length-slice m i (suc n) = omega (arith, length-slice m (i + 1) n)

  -- Slices with equal slots are equal, also from different places.
  pub slice_ext :
      (m w : Mem A) (i j n : ℕ)
      → ((k : ℕ) → k < n → m (i + k) ≡ w (j + k))
      → slice m i n ≡ slice w j n
  slice_ext m w i j zero h = refl
  slice_ext m w i j (suc n) h =
      ap₂ ◌∷◌ (ground (arith, h 0 (omega arith)))
        (slice_ext m w (i + 1) (j + 1) n (λ k p. ground (arith, h (k + 1) (omega arith))))

  pub slice_split : (m : Mem A) (i a b : ℕ) → slice m i (a + b) ≡ slice m i a ++ slice m (i + a) b
  slice_split m i zero b = ground arith
  slice_split m i (suc a) b =
      let e : suc a + b ≡ suc (a + b) = omega arith in
      let e' : i + suc a ≡ i + 1 + a = omega arith in
      rw (e, e') (ap (λ l. m i ∷ l) (slice_split m (i + 1) a b))
