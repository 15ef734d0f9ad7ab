-- ===== src/Txn/Tests.antt =====
-- A transaction with two allocated pages, 7 and 8, of which the first is the new root, committed and
-- opened again.
use eddy.Base.{ℕ, zero, suc, ◌≡◌, ◌<◌, refl, true, false, Option, none, some, [], ◌∷◌}
use eddy.Base.Int.{pos}
use eddy.Base.Mem.{Mem}
use eddy.Base.Result.{ok}
use eddy.Bpt.Edit.{Db}
use eddy.Pg.Free.{free_pgno}
use eddy.Pg.Tests.{index}
use eddy.Idx.{conn_default, index_default}
use eddy.Idx.Slots.{idx_acquire_snapshot, idx_acquire_xid, load_roots}
use eddy.Txn.{Transaction, opened, Store, Env, free_pages, array_of, flush_active}
use eddy.Txn.Open.{txn_open}
use eddy.Txn.Close.{txn_commit, publish, set_pending, root_no, emptied}
use eddy.Txn.Laws.Lists.{IsIdle, IsWriting}
use eddy.Txn.Laws.Close.{kept_pages, released, txn_commit-IsIdle}
use eddy.Txn.Laws.Open.{txn_open-IsWriting}

abbrev env : Env
env = record {
  page_size = 4096;
  own = 0;
  nconns = 4;
  epoch = pos 0;
  at = pos 100;
  clock = 100;
  fuel = 9;
  lock_error = none;
  root_error = λ pg. none;
  conn_error = λ i. none;
  map_error = λ pg n. none;
  truncate_error = λ n. none;
}

abbrev db : Db
db = record {
  find = none;
  key = 0;
  kmin = 0;
  kmax = 0;
  start = none;
  nsplits = 0;
  matched = false;
  nmatches = 0;
  nloops = 0;
  haskey = false;
  hasfind = false;
  hasentry = false;
}

abbrev txn : Transaction
txn = record {
  pg = 7 ∷ 8 ∷ [];
  npgused = 1;
  gc = [];
  xid = 10;
  vno = 3;
  nolock = false;
  state = opened;
  error = none;
  isrdonly = false;
  root = array_of_roots;
  db = λ i. db;
}
  where
    array_of_roots : Mem (Option ℕ)
    array_of_roots zero = some 7
    array_of_roots (suc i) = none

abbrev store : Store
store = record {
  hdr = record (index_default 4096 true) {
    xid = 9;
    nactive = 2;
    active = array_of (7 ∷ 8 ∷ []) (λ i. 0);
    conns = λ i. record conn_default { pid = 11; xid = 9 };
  };
  index = index;
  locked = true;
}

txn-IsWriting : IsWriting env txn store
txn-IsWriting = record {
  state = refl;
  for_writing = refl;
  active = refl;
  npending = refl;
  next_xid = refl;
  snapshot = refl;
  locked = refl;
}

abbrev published : Store
published = publish txn (flush_active store)

nothing_freed : (xid : ℕ) (st : Store) → free_pages env xid [] st ≡ some (none, st)
unfolding free_pages free_pgno
nothing_freed xid st = refl

commit_example :
    (t' : Transaction) × (st' : Store) × (txn_commit env true txn store ≡ some (none, some t', st'))
    × IsIdle env t' st'
    × (t'.pg ≡ kept_pages (8 ∷ []))
    × (st'.hdr.xid ≡ 10)
    × (st'.hdr.vno ≡ 3)
    × ((i : ℕ) → i < 2 → st'.hdr.tree i ≡ root_no (txn.root i))
commit_example =
    txn_commit-IsIdle env txn store none none published
      (set_pending env true (kept_pages (8 ∷ [])) (flush_active (released env published)))
      txn-IsWriting refl (nothing_freed 10 published)
      (nothing_freed 0
        (set_pending env true (kept_pages (8 ∷ [])) (flush_active (released env published))))

-- The transaction with page 8 pending.
abbrev idle : Transaction
idle = emptied (record txn { pg = 8 ∷ [] })

abbrev idle_store : Store
idle_store = record store {
  hdr = record store.hdr {
    xid = 10;
    nactive = 0;
    conns = λ i. record conn_default { pid = 11; npending = 1; pending = λ k. 8 };
  };
  locked = false;
}

idle-IsIdle : IsIdle env idle idle_store
idle-IsIdle = record {
  state = refl;
  error = refl;
  pending = refl;
  inactive = refl;
  no_xid = refl;
  unlocked = refl;
}

roots_loaded :
    (idx_acquire_snapshot env.root_error env.epoch env.at env.own idle_store.hdr).0
    ≡ ok (none ∷ none ∷ [])
unfolding idx_acquire_snapshot idx_acquire_xid load_roots
roots_loaded = refl

open_example :
    (t' : Transaction) × (st' : Store) × (txn_open env false true idle idle_store
      ≡ some (none, t', st'))
    × IsWriting env t' st'
    × (t'.pg ≡ 8 ∷ [])
    × (st'.index ≡ idle_store.index)
open_example =
    txn_open-IsWriting env true idle idle_store (none ∷ none ∷ []) idle-IsIdle refl roots_loaded
