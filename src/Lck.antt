-- ===== src/Lck.antt =====
-- lib/lck.c: `ed_flck` and `ed_lck`, a lock of threads around a lock of processes on the index file.
--
-- `fcntl` is given by the outcomes of its calls, one after the other, and fuel for their number; the lock
-- of threads by the outcome of its one call. That of `pthread_rwlock_unlock` is not looked at.
pub mod Laws
mod Tests
use eddy.Base.{
  ℕ, zero, suc, ◌+◌, Bool, true, false, not, ◌&&◌, ◌||◌, ◌==◌, if◌then◌else◌, is_none, Option, none,
  some,
}
use eddy.Base.Mem.{Mem}
use eddy.Base.Result.{Error, sys}

-- `EdLckType`
pub data LckType : Type 0 where
  shared exclusive unlock : LckType

abbrev pub is_unlock : LckType → Bool
is_unlock shared = false
is_unlock exclusive = false
is_unlock unlock = true

-- `ed_esys(EINTR)`
abbrev pub eintr : Error
eintr = sys 4

abbrev pub is_eintr : Error → Bool
is_eintr (sys e) = e == 4
is_eintr other = false

-- What the caller holds: the lock of threads, and that of the file.
pub record Lck : Type 0 where
  pub threads : Bool
  pub file : Bool

-- `ed_flck` from call `i` of `fcntl` on, with `rc`.
unfoldable pub flck :
    LckType → Mem (Option Error) → ℕ → ℕ → Option Error → Lck → Option (Option Error × Lck)
flck type fcntl zero i rc l = none
flck type fcntl (suc fuel) i rc l =
    let again = λ (x : Error). flck type fcntl fuel (i + 1) (some x) l in
    elim (fcntl i) [
      | none ↦ some (rc, record l { file = not (is_unlock type) })
      | some x ↦ if is_eintr x then again x else some (some x, l)
    ]

-- The end of `ed_lck`, by the outcome of `ed_flck`.
abbrev pub lck_done : LckType → Bool → Option (Option Error × Lck) → Option (Option Error × Lck)
lck_done type thread none = none
lck_done type thread (some (rc, l)) =
    some (
      rc,
      if thread && (not (is_none rc) || is_unlock type) then record l { threads = false } else l,
    )

-- `ed_lck`; `thread` is `ed_lck_thread(flags)`, and `rwlock` the number that the lock of threads returns.
unfoldable pub lck : LckType → Bool → ℕ → Mem (Option Error) → ℕ → Lck → Option (Option Error × Lck)
unfolding flck
lck type thread rwlock fcntl fuel l =
    let locks = thread && not (is_unlock type) in
    if locks && not (rwlock == 0)
    then some (some (sys rwlock), l)
    else lck_done type thread
        (flck type fcntl fuel 0 none (if locks then record l { threads = true } else l))
