-- ===== src/Time.antt =====
-- lib/time.c: internal times (seconds from the index's epoch) against UNIX times.
--
-- `EdTime` is a `uint32_t`, a number below 2 ^ 32. `EdTimeUnix` and `EdTimeTTL` are `time_t`, an
-- integer; sums of these overflow only past 2 ^ 63 seconds, which C leaves undefined.
pub mod Laws
mod Tests
use eddy.Base.{ℕ, ◌-◌, ◌^◌, Bool, true, false, ◌==◌, if◌then◌else◌}
use eddy.Base.Int.{ℤ, pos, negsuc, ◌+ℤ◌, ◌-ℤ◌, ltb_ℤ, leb_ℤ, to_u32}

-- `ED_TIME_DELETE`
abbrev pub time_delete : ℕ
time_delete = 0

-- `ED_TIME_MAX`
abbrev pub time_max : ℕ
time_max = 2 ^ 32 - 1 - 1

-- `ED_TIME_INF`
abbrev pub time_inf : ℕ
time_inf = 2 ^ 32 - 1

unfoldable pub time_from_unix : ℤ → ℤ → ℕ
unfolding ◌-ℤ◌
time_from_unix epoch at =
    if ltb_ℤ (pos time_max) at
    then time_max
    else if ltb_ℤ at (pos 0)
    then time_inf
    else if leb_ℤ at epoch
    then time_delete
    else to_u32 (at -ℤ epoch)

unfoldable pub time_to_unix : ℤ → ℕ → ℤ
unfolding ◌+ℤ◌
time_to_unix epoch at =
    if at == time_inf then negsuc 0 else if at == time_delete then pos 0 else pos at +ℤ epoch

unfoldable pub expiry_at : ℤ → ℤ → ℤ → ℕ
unfolding ◌+ℤ◌ time_from_unix
expiry_at epoch ttl at = if ltb_ℤ ttl (pos 0) then time_inf else time_from_unix epoch (at +ℤ ttl)

unfoldable pub ttl_at : ℤ → ℕ → ℤ → ℤ
unfolding ◌-ℤ◌ time_to_unix
ttl_at epoch exp at =
    if exp == time_inf
    then negsuc 0
    else if exp == time_delete
    then pos 0
    else let ttl = time_to_unix epoch exp -ℤ at in if ltb_ℤ ttl (pos 0) then pos 0 else ttl

unfoldable pub unix_from_ttl_at : ℤ → ℤ → ℤ
unfolding ◌+ℤ◌
unix_from_ttl_at ttl at = if ltb_ℤ ttl (pos 0) then negsuc 0 else ttl +ℤ at

unfoldable pub expired_at : ℤ → ℕ → ℤ → Bool
unfolding time_to_unix
expired_at epoch exp at =
    if exp == time_inf
    then false
    else if exp == time_delete
    then true
    else leb_ℤ (time_to_unix epoch exp) at
