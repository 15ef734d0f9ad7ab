-- ===== src/Time/Tests.antt =====
-- Conversions at concrete times: the epoch is the start of 2018.
use eddy.Base.{◌≡◌, ◌↔◌, refl, true, arith}
use eddy.Base.Int.{ℤ, pos, negsuc}
use eddy.Time.{time_inf, time_from_unix, time_to_unix, expiry_at, ttl_at, expired_at}
use eddy.Time.Laws.{time_to_unix-time_from_unix, expired_at-time_from_unix, expired_at-ttl_at_iff}

abbrev epoch : ℤ
epoch = pos 1514764800

abbrev today : ℤ
today = pos 1530000000

to_from_example : time_to_unix epoch (time_from_unix epoch today) ≡ today
to_from_example = time_to_unix-time_from_unix epoch today (omega arith) (omega arith) (omega arith)

expired_example : expired_at epoch (time_from_unix epoch today) (pos 1530000001) ≡ true
expired_example =
    expired_at-time_from_unix epoch today (pos 1530000001) (omega arith) (omega arith) (omega arith)

expired_iff_example : (expired_at epoch 0 today ≡ true) ↔ (ttl_at epoch 0 today ≡ pos 0)
expired_iff_example = expired_at-ttl_at_iff epoch 0 today

-- A negative time-to-live never expires.
forever_example : expiry_at epoch (negsuc 0) today ≡ time_inf
unfolding expiry_at
forever_example = refl
