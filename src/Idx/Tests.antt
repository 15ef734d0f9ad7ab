-- ===== src/Idx/Tests.antt =====
-- An index of two connections, of which the one in slot 1 reads transaction 7.
use eddy.Base.{
  ℕ, zero, suc, ◌≤◌, ◌<◌, ◌≡◌, ◌⊎◌, refl, sym, ap, Bool, true, ltb, ◌==◌, if◌then◌else◌, arith,
  Option, none, some, is_none, List, [], ◌∷◌, length,
}
use mathlib.Core.Bool.{true≢false}
use eddy.Base.Int.{pos}
use eddy.Base.Result.{Error, Result, ok, sys}
use eddy.Bpt.{pg_none}
use eddy.Stat.{Stat, stat_has_leak}
use eddy.Pg.{list_xid}
use eddy.Pg.Alloc.{take_list}
use eddy.Pg.Tests.{two_lists-IsReadable, stage, index}
use eddy.Idx.{Conn, Hdr, conn_default, index_default}
use eddy.Idx.Slots.{is_again, conn_acquire, idx_acquire_snapshot, idx_acquire_xid, load_roots}
use eddy.Idx.Xmin.{idx_xmin, xmin_loop}
use eddy.Idx.Repair.{idx_repair_leaks}
use eddy.Idx.Laws.Slots.{Acquired, conn_acquire-Acquired, conn_acquire_succeeds}
use eddy.Idx.Laws.Reuse.{take_list-idx_xmin}
use eddy.Idx.Laws.Snapshot.{Snapped, idx_acquire_snapshot-Snapped, idx_xmin-idx_acquire_snapshot}
use eddy.Idx.Laws.Repair.{leaks_from, freed_at_once, idx_repair_leaks-leaks_from}

abbrev reader : Conn
reader = record conn_default { pid = 12; active = 100; xid = 7 }

abbrev hdr : Hdr
hdr = record (index_default 4096 true) {
  nconns = 2;
  xid = 9;
  tree = λ i. if i == 0 then 4 else pg_none;
  conns = λ i. if i == 0 then record conn_default { pid = 11 } else reader;
}

abbrev eagain : Error
eagain = sys 11

-- Slot 0 can be locked, slot 1 is locked by its process.
abbrev locks : ℕ → ℕ → Option Error
locks p zero = none
locks p (suc i) = some eagain

acquire_example : Acquired locks 3 13 hdr (conn_acquire locks 3 13 hdr)
acquire_example = conn_acquire-Acquired locks 3 13 hdr

locks_again : (p k : ℕ) (x : Error) → locks p k ≡ some x → is_again x ≡ true
locks_again p zero x eq = absurd (true≢false (ap is_none eq))
locks_again p (suc k) x eq = sym (ap stays eq)
  where
    stays : Option Error → Bool
    stays none = true
    stays (some y) = is_again y

acquire_succeeds_example : (i : ℕ) × (h' : Hdr) × (conn_acquire locks 3 13 hdr ≡ (ok i, h'))
acquire_succeeds_example = conn_acquire_succeeds locks 3 13 hdr 0 (omega arith) refl locks_again

snapshot_example :
    Snapped (λ pg. none) 0 hdr (idx_acquire_snapshot (λ pg. none) (pos 5) (pos 120) 0 hdr)
snapshot_example = idx_acquire_snapshot-Snapped (λ pg. none) (pos 5) (pos 120) 0 hdr

taken_tail : 0 < length (take_list 4 (idx_xmin (locks 0) 0 2 0 150 hdr).0 stage).1.pgno
unfolding take_list idx_xmin xmin_loop
taken_tail = omega arith

-- Two pages are taken from the list of transaction 3, which is older than the reader's.
reuse_example : (list_xid stage.gc.words 0 ≡ 0) ⊎ (list_xid stage.gc.words 0 < 7)
unfolding idx_xmin xmin_loop
reuse_example =
    take_list-idx_xmin 4096 (omega arith) (locks 0) 0 2 0 150 4 hdr stage (two_lists-IsReadable 1)
      (omega arith) taken_tail 1 (omega arith) refl

-- The connection in slot 1 takes a snapshot; later the header is at transaction 40.
abbrev held : Result (List (Option ℕ)) × Hdr
held = idx_acquire_snapshot (λ pg. none) (pos 5) (pos 120) 1 hdr

held_opened : held.0 ≡ ok (some 4 ∷ none ∷ [])
unfolding idx_acquire_snapshot idx_acquire_xid load_roots
held_opened = refl

held_example :
    let later = record held.1 { xid = 40 } in
    let r = idx_xmin (locks 0) 0 2 0 150 later in (r.0 ≤ 9) × (r.1.conns 1 ≡ held.1.conns 1)
held_example =
    idx_xmin-idx_acquire_snapshot (λ pg. none) (locks 0) (pos 5) (pos 120) 0 2 0 150 1 hdr
      (record held.1 { xid = 40 }) (some 4 ∷ none ∷ []) (omega arith) (omega arith) (omega arith)
      (λ e. absurd (true≢false (sym (ap is_none e)))) held_opened refl

-- Pages 6 and 7 are leaks.
abbrev two_leaks : Stat
two_leaks = record { no = 8; vec = λ p. ltb p 6; mult = []; marks = 0 }

two_leaks_few : length (leaks_from two_leaks 8 0) < 64
unfolding stat_has_leak
two_leaks_few = omega arith

repair_example :
    idx_repair_leaks 4096 (λ pg n. none) (λ n. none) 7 9 none two_leaks index
    ≡ freed_at_once 4096 (λ pg n. none) (λ n. none) 7 9 none index (leaks_from two_leaks 8 0)
repair_example =
    idx_repair_leaks-leaks_from 4096 (λ pg n. none) (λ n. none) 7 9 none two_leaks index
      two_leaks_few
