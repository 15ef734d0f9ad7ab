-- ===== src/Lck/Tests.antt =====
-- A lock that is granted at the second call of `fcntl`.
use eddy.Base.{ℕ, zero, suc, ◌<◌, ◌≡◌, refl, false, true, arith, Option, none, some}
use eddy.Base.Mem.{Mem}
use eddy.Base.Result.{Error}
use eddy.Lck.{Lck, exclusive, eintr, lck}
use eddy.Lck.Laws.{lck-flck}

abbrev interrupted : Mem (Option Error)
interrupted zero = some eintr
interrupted (suc i) = none

abbrev free : Lck
free = record { threads = false; file = false }

once : (j : ℕ) → j < 1 → interrupted j ≡ some eintr
once zero p = refl
once (suc j) p = absurd (omega arith)

lck_example :
    lck exclusive true 0 interrupted 2 free
    ≡ some (some eintr, record { threads = false; file = true })
lck_example = lck-flck exclusive interrupted 2 1 free refl once refl (omega arith)
