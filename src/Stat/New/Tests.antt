-- ===== src/Stat/New/Tests.antt =====
-- The marks of an index with a connection, two gc pages and a tree of the keys.
use eddy.Base.{
  ℕ, ◌^◌, ◌≤◌, ◌≡◌, refl, true, ◌||◌, ltb, arith, none, some, [], ◌∷◌, ◌++◌, if◌then◌else◌, ◌==◌,
}
use eddy.Base.Int.{pos}
use eddy.Base.Result.{ok}
use eddy.Base.Mem.{slice}
use eddy.Bpt.{pg_none}
use eddy.Stat.Marks.{count}
use eddy.Pg.Lists.{all_listed}
use eddy.Bpt.Laws.Mark.{tree_pages}
use eddy.Bpt.TreeTests.{number_key, pages, pages-IsTree}
use eddy.Pg.MarkTests.{chain, chained, chain-Linked, chained-IsReadable}
use eddy.Idx.{Hdr, conn_default, index_default}
use eddy.Idx.Slots.{idx_acquire_snapshot, idx_acquire_xid, load_roots}
use eddy.Stat.New.{Report, Env, stat_new}
use eddy.Stat.New.Laws.{no_tree, tree, pending_pages, end_of, in_header, in_tail, stat_new-bits}

abbrev env : Env
env = record {
  page_size = 4096;
  own = 0;
  nconns = 1;
  epoch = pos 5;
  at = pos 120;
  fuel = 2;
  stat_error = none;
  lock_error = none;
  root_error = λ pg. none;
  map_error = λ pg. none;
}

abbrev hdr : Hdr
hdr = record (index_default 4096 true) {
  nconns = 1;
  xid = 9;
  tree = λ i. if i == 0 then 1 else pg_none;
  conns = λ i. record conn_default { npending = 1; pending = λ k. 12 };
  tail_start = 40;
  tail_count = 6;
}

abbrev held : Hdr
held = (idx_acquire_snapshot (λ pg. none) (pos 5) (pos 120) 0 hdr).1

snapshot :
    idx_acquire_snapshot (λ pg. none) (pos 5) (pos 120) 0 hdr ≡ (ok (some 1 ∷ none ∷ []), held)
unfolding idx_acquire_snapshot idx_acquire_xid load_roots
snapshot = refl

stat_new_example :
    (r : Report) × (h2 : Hdr) × (stat_new pages pages env chain hdr ≡ some (ok r, h2))
    × ((p : ℕ)
        → p ≤ end_of held
        → r.stat.vec p ≡ (
            in_header 4096 1 held p
            || in_tail held p
            || ltb 0 (
                count p (
                  (pending_pages held.conns 0 1 ++ slice held.active 0 held.nactive)
                  ++ ((1 ∷ all_listed (chained 1 ∷ chained 2 ∷ []))
                      ++ (tree_pages pages 1 1 ++ []))))))
stat_new_example =
    stat_new-bits pages pages env (λ pg. refl) (omega arith) chain hdr held (some 1) none
      (chained 2 ∷ []) (tree_pages pages 1 1) [] refl refl snapshot (omega arith) chain-Linked
      (chained-IsReadable 1, (chained-IsReadable 2, tt))
      (tree 1 1 0 (2 ^ 64) pages-IsTree refl (omega arith)) no_tree
