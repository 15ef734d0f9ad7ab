-- ===== src/Time/Laws.antt =====
-- What the conversions of lib/time.c promise to each other.
use eddy.Base.{ℕ, ◌≤◌, ◌≡◌, ◌↔◌, true, arith}
use eddy.Base.Int.{ℤ, pos, ◌+ℤ◌, ◌≤ℤ◌, ◌<ℤ◌, leb_ℤ}
use eddy.Time.{time_max, time_from_unix, time_to_unix, expiry_at, ttl_at, expired_at}

-- A UNIX time after a non-negative epoch and not past `ED_TIME_MAX` comes back unchanged.
pub time_to_unix-time_from_unix :
    (epoch at : ℤ)
    → pos 0 ≤ℤ epoch
    → epoch <ℤ at
    → at ≤ℤ pos time_max
    → time_to_unix epoch (time_from_unix epoch at) ≡ at
unfolding time_to_unix time_from_unix
time_to_unix-time_from_unix epoch at h k l = ground arith

-- An expiry set from a UNIX time after a non-negative epoch and not past `ED_TIME_MAX` expires
-- exactly from that time on.
pub expired_at-time_from_unix :
    (epoch exp at : ℤ)
    → pos 0 ≤ℤ epoch
    → epoch <ℤ exp
    → exp ≤ℤ pos time_max
    → expired_at epoch (time_from_unix epoch exp) at ≡ leb_ℤ exp at
unfolding expired_at time_from_unix
expired_at-time_from_unix epoch exp at h k l = ground arith

-- An internal time is expired exactly when its time-to-live is zero, whatever the epoch.
pub expired_at-ttl_at_iff :
    (epoch : ℤ) (exp : ℕ) (at : ℤ)
    → (expired_at epoch exp at ≡ true) ↔ (ttl_at epoch exp at ≡ pos 0)
unfolding expired_at ttl_at
expired_at-ttl_at_iff epoch exp at = ground arith

-- The time-to-live read back at the moment it was set is the one that was set, if it is not negative
-- and the expiry lies
-- after a non-negative epoch and not past `ED_TIME_MAX`.
pub ttl_at-expiry_at :
    (epoch ttl at : ℤ)
    → pos 0 ≤ℤ epoch
    → pos 0 ≤ℤ ttl
    → epoch <ℤ at +ℤ ttl
    → at +ℤ ttl ≤ℤ pos time_max
    → ttl_at epoch (expiry_at epoch ttl at) at ≡ ttl
unfolding ttl_at expiry_at ◌+ℤ◌
ttl_at-expiry_at epoch ttl at h k l m = ground arith

-- With a non-negative epoch, of two non-negative UNIX times the later has no earlier internal time,
-- over the whole range.
pub time_from_unix_mono :
    (epoch a b : ℤ)
    → pos 0 ≤ℤ epoch
    → pos 0 ≤ℤ a
    → a ≤ℤ b
    → time_from_unix epoch a ≤ time_from_unix epoch b
unfolding time_from_unix
time_from_unix_mono epoch a b h k l = ground arith
