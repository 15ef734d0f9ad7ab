-- ===== src/Idx/Slots.antt =====
-- lib/idx.c: `conn_acquire`, `conn_release`, and the transaction id and snapshot of a connection.
use eddy.Base.{
  ℕ, zero, suc, ◌+◌, Bool, true, false, not, ◌&&◌, ◌||◌, ltb, leb, ◌==◌, if◌then◌else◌, Option,
  none, some, List, [], ◌∷◌,
}
use eddy.Base.Int.{ℤ}
use eddy.Base.Mem.{Mem, put}
use eddy.Base.Result.{Error, Result, ok, err, sys}
use eddy.Bpt.{pg_none}
use eddy.Time.{time_from_unix}
use eddy.Idx.{Conn, Hdr}

-- `ed_esys(EAGAIN)`
abbrev pub again : Error
again = sys 11

abbrev pub is_again : Error → Bool
is_again (sys e) = e == 11
is_again other = false

-- Slots that the first pass leaves out: those of a process with no transaction, or a recent one.
abbrev pub in_use : ℕ → Conn → Bool
in_use xmin c = ltb 0 c.pid && ((c.xid == 0) || leb xmin c.xid)

-- The inner loop for `n` slots from slot `i` on. `none`: no slot could be locked, and `rc` is EAGAIN.
unfoldable pub acquire_pass :
    (ℕ → Option Error) → Bool → ℕ → ℕ → ℕ → ℕ → Mem Conn → Option (Result ℕ × Mem Conn)
acquire_pass lock_error all xmin pid zero i conns = none
acquire_pass lock_error all xmin pid (suc n) i conns =
    let rest = acquire_pass lock_error all xmin pid n (i + 1) conns in
    let c = conns i in
    if not all && in_use xmin c then rest else (elim (lock_error i) [
      | none ↦ some (ok i, put conns i (record c { pid = pid; xid = 0 }))
      | some x ↦ if is_again x then rest else some (err x, conns)
    ])

-- The outcome of a pass, or what follows it.
abbrev pub acquired : Hdr → Option (Result ℕ × Mem Conn) → Result ℕ × Hdr → Result ℕ × Hdr
acquired h (some r) next = (r.0, record h { conns = r.1 })
acquired h none next = next

-- `conn_acquire`; `lock_error x i` is the outcome of the lock of slot `i` in pass `x`. The slot is
-- given by its index.
unfoldable pub conn_acquire : (ℕ → ℕ → Option Error) → ℕ → ℕ → Hdr → Result ℕ × Hdr
unfolding acquire_pass
conn_acquire lock_error xmin pid h =
    acquired h (acquire_pass (lock_error 0) false xmin pid h.nconns 0 h.conns)
      (acquired h (acquire_pass (lock_error 1) true xmin pid h.nconns 0 h.conns) (err again, h))

-- `conn_release` of slot `i`, if there is a connection.
unfoldable pub conn_release : Option ℕ → Hdr → Hdr
conn_release none h = h
conn_release (some i) h = record h {
  conns = put h.conns i (record (h.conns i) { pid = 0; active = 0; xid = 0 });
}

-- `ed_idx_acquire_xid` and `ed_idx_release_xid` of the connection in slot `i`; `at` is the time read.
unfoldable pub idx_acquire_xid : ℤ → ℤ → ℕ → Hdr → ℕ × Hdr
unfolding time_from_unix
idx_acquire_xid epoch at i h = (
  h.xid,
  record h {
    conns = put h.conns i (record (h.conns i) { xid = h.xid; active = time_from_unix epoch at });
  },
)

unfoldable pub idx_release_xid : ℤ → ℤ → ℕ → Hdr → Hdr
unfolding time_from_unix
idx_release_xid epoch at i h =
    let c = h.conns i in
    if ltb 0 c.xid
    then record h { conns = put h.conns i (record c { xid = 0; active = time_from_unix epoch at }) }
    else h

-- `ed_pg_load` of a root into an empty place.
abbrev pub load_root : (ℕ → Option Error) → ℕ → Result (Option ℕ)
load_root map_error pg =
    if pg == pg_none
    then ok none
    else (elim (map_error pg) [ none ↦ ok (some pg) | some x ↦ err x ])

-- The loop of `ed_idx_acquire_snapshot` over `n` trees from tree `i` on.
unfoldable pub load_roots : (ℕ → Option Error) → Mem ℕ → ℕ → ℕ → Result (List (Option ℕ))
load_roots map_error tree zero i = ok []
load_roots map_error tree (suc n) i = elim (load_root map_error (tree i)) [
  | err x ↦ err x
  | ok root ↦ elim (load_roots map_error tree n (i + 1)) [
    | err x ↦ err x
    | ok roots ↦ ok (root ∷ roots)
  ]
]

-- `ED_NDB`
abbrev pub ndb : ℕ
ndb = 2

-- `ed_idx_acquire_snapshot`
unfoldable pub idx_acquire_snapshot :
    (ℕ → Option Error) → ℤ → ℤ → ℕ → Hdr → Result (List (Option ℕ)) × Hdr
unfolding load_roots idx_acquire_xid idx_release_xid
idx_acquire_snapshot map_error epoch at i h =
    let h' = (idx_acquire_xid epoch at i h).1 in
    elim (load_roots map_error h'.tree ndb 0) [
      | ok roots ↦ (ok roots, h')
      | err x ↦ (err x, idx_release_xid epoch at i h')
    ]

-- `ed_idx_release_snapshot`: the trees are unmapped.
unfoldable pub idx_release_snapshot : ℤ → ℤ → ℕ → Hdr → List (Option ℕ) → List (Option ℕ) × Hdr
unfolding idx_release_xid
idx_release_snapshot epoch at i h roots = (none ∷ none ∷ [], idx_release_xid epoch at i h)
