-- ===== src/Idx/Xmin.antt =====
-- lib/idx.c: `ed_idx_xmin`, the oldest transaction id that a connection may still read.
use eddy.Base.{
  ℕ, zero, suc, ◌+◌, ◌-◌, ◌%◌, ◌^◌, Bool, not, ◌&&◌, ◌||◌, ltb, ◌==◌, if◌then◌else◌, Option, none,
  some,
}
use eddy.Base.Mem.{Mem, put}
use eddy.Base.Result.{Error}
use eddy.Idx.{Conn, Hdr, conn_cleared}

-- A slot with a transaction.
abbrev pub is_live : Conn → Bool
is_live c = not ((c.pid == 0) || (c.xid == 0))

-- Whether the code tries to lock a slot that is not its own.
abbrev pub is_suspect : ℕ → ℕ → Conn → Bool
is_suspect xmin tmin c = ltb c.xid xmin || (ltb 0 tmin && (ltb 0 c.active && ltb tmin c.active))

-- The loop over `n` slots from slot `i` on, with `xid`.
unfoldable pub xmin_loop : (ℕ → Option Error) → ℕ → ℕ → ℕ → ℕ → ℕ → ℕ → Mem Conn → ℕ × Mem Conn
xmin_loop lock_error own xmin tmin zero i xid conns = (xid, conns)
xmin_loop lock_error own xmin tmin (suc n) i xid conns =
    let c = conns i in
    let skipped = xmin_loop lock_error own xmin tmin n (i + 1) xid conns in
    let cleared = xmin_loop lock_error own xmin tmin n (i + 1) xid (put conns i conn_cleared) in
    let read =
      xmin_loop lock_error own xmin tmin n (i + 1) (if ltb c.xid xid then c.xid else xid) conns in
    if not (is_live c)
    then skipped
    else if not (i == own) && is_suspect xmin tmin c
    then (elim (lock_error i) [ none ↦ cleared | some x ↦ read ])
    else read

-- `ed_idx_xmin` of the process with slot `own` that knows of `nconns` slots; `clock` is the time read
-- if `now` is 0.
unfoldable pub idx_xmin : (ℕ → Option Error) → ℕ → ℕ → ℕ → ℕ → Hdr → ℕ × Hdr
unfolding xmin_loop
idx_xmin lock_error own nconns clock now h =
    let at = if now == 0 then clock else now in
    let xid = (h.xid + 2 ^ 64 - 1) % 2 ^ 64 in
    let xmin = if ltb 16 xid then xid - 16 else 0 in
    let tmin = (at + 2 ^ 32 - 10) % 2 ^ 32 in
    let r = xmin_loop lock_error own xmin tmin nconns 0 xid h.conns in
    (r.0, record h { conns = r.1 })
