-- ===== src/Lck/Laws.antt =====
-- What a call of `ed_lck` leaves held.
use eddy.Base.{
  ℕ, zero, suc, ◌+◌, ◌<◌, ◌≡◌, refl, ap, ◌∙◌, Bool, true, false, not, ◌==◌, arith, if◌then◌else◌,
  Option, none, some,
}
use mathlib.Core.Bool.{true≢false}
use eddy.Base.Mem.{Mem}
use eddy.Base.Result.{Error}
use eddy.Lck.{LckType, shared, exclusive, unlock, is_unlock, eintr, Lck, flck, lck_done, lck}

either : {A : Type 0} (b : Bool) (x : A) → (if b then x else x) ≡ x
either true x = refl
either false x = refl

-- The outcome of `ed_flck` once it is granted after `k` interruptions.
flck_granted :
    (type : LckType) (fcntl : Mem (Option Error)) (fuel k i : ℕ) (rc : Option Error) (l : Lck)
    → ((j : ℕ) → j < k → fcntl (i + j) ≡ some eintr)
    → fcntl (i + k) ≡ none
    → k < fuel
    → flck type fcntl fuel i rc l
      ≡ some (if k == 0 then rc else some eintr, record l { file = not (is_unlock type) })
unfolding flck
flck_granted type fcntl zero k i rc l broken granted lt = absurd (omega (arith, lt))
flck_granted type fcntl (suc fuel) zero i rc l broken granted lt =
    let here : fcntl i ≡ none = ap fcntl (omega arith) ∙ granted in rw (flck, here) refl
flck_granted type fcntl (suc fuel) (suc k) i rc l broken granted lt =
    let here : fcntl i ≡ some eintr = ap fcntl (omega arith) ∙ broken 0 (omega arith) in
    let test : (suc k == 0) ≡ false = ground arith in
    let later =
      flck_granted type fcntl fuel k (i + 1) (some eintr) l
        (λ j p. ap fcntl (omega arith) ∙ broken (suc j) (omega (arith, p)))
        (ap fcntl (omega arith) ∙ granted) (omega (arith, lt)) in
    rw (flck, here, test)
      (later
        ∙ ap (λ rc'. some (rc', record l { file = not (is_unlock type) }))
            (either (k == 0) (some eintr)))

lck_done_granted :
    (type : LckType) (first : Bool)
    → is_unlock type ≡ false
    → lck_done type true (
        some (
          if first then none else some eintr,
          record { threads = true; file = not (is_unlock type) },
        ))
      ≡ some (if first then none else some eintr, record { threads = first; file = true })
lck_done_granted shared true e = refl
lck_done_granted shared false e = refl
lck_done_granted exclusive true e = refl
lck_done_granted exclusive false e = refl
lck_done_granted unlock first e = absurd (true≢false e)

-- `ed_lck` for a shared or an exclusive lock, with the lock of threads, that `fcntl` grants at the call after
-- `k` interrupted ones: if `k` is 0, there is no error and both locks are held. Otherwise the result
-- is EINTR, the lock of threads is given back, and the lock of the file is held all the same.
pub lck-flck :
    (type : LckType) (fcntl : Mem (Option Error)) (fuel k : ℕ) (l : Lck)
    → is_unlock type ≡ false
    → ((j : ℕ) → j < k → fcntl j ≡ some eintr)
    → fcntl k ≡ none
    → k < fuel
    → lck type true 0 fcntl fuel l
      ≡ some (if k == 0 then none else some eintr, record { threads = k == 0; file = true })
unfolding lck
lck-flck type fcntl fuel k l locks broken granted lt =
    let r =
      flck_granted type fcntl fuel k 0 none (record l { threads = true })
        (λ j p. ap fcntl (omega arith) ∙ broken j p) (ap fcntl (omega arith) ∙ granted) lt in
    rw (lck, locks) (ap (lck_done type true) r ∙ lck_done_granted type (k == 0) locks)
