-- ===== src/Stat/New.antt =====
-- lib/stat.c: `ed_stat_new`, the marks of every page that the index refers to.
--
-- Allocation and the copy of the path are taken to succeed. The counters that `stat->mark` points to, one
-- after the other, are fields of the result.
pub mod Laws
mod Tests
use eddy.Base.{
  false, ℕ, zero, suc, ◌+◌, ◌-◌, ◌%◌, ◌^◌, if◌then◌else◌, Option, none, some, List, [], ◌∷◌,
}
use eddy.Base.Int.{ℤ}
use eddy.Base.Mem.{Mem}
use eddy.Base.Result.{Error, Result, ok, err}
use eddy.Bpt.{Bpt}
use eddy.Bpt.Mark.{Marking, bpt_mark}
use eddy.Pg.{Index}
use eddy.Pg.Mark.{mark_pages, pg_mark_gc}
use eddy.Idx.{Conn, Hdr, idx_pages}
use eddy.Idx.Slots.{idx_acquire_snapshot, idx_release_snapshot}
use eddy.Stat.{Stat, set_range, stat_mark}

-- `struct EdStat` with its counters.
pub record Report : Type 0 where
  pub stat : Stat
  pub npending : ℕ
  pub nactive : ℕ
  pub ngc : ℕ
  pub nbpt : ℕ

-- The outcomes of the system for a process with slot `own` of `nconns`, and the fuel of the walk over
-- the gc pages.
pub record Env : Type 0 where
  pub page_size : ℕ
  pub own : ℕ
  pub nconns : ℕ
  pub epoch : ℤ
  pub at : ℤ
  pub fuel : ℕ
  pub stat_error : Option Error
  pub lock_error : Option Error
  pub root_error : ℕ → Option Error
  pub map_error : ℕ → Option Error

-- The pending pages of `n` connections from connection `i` on.
unfoldable pub mark_conns : Mem Conn → ℕ → ℕ → Stat → Stat
unfolding mark_pages
mark_conns conns i zero s = s
mark_conns conns i (suc n) s =
    let c = conns i in mark_conns conns (i + 1) n (mark_pages c.pending 0 c.npending s)

-- The bits that are set at the start: the header's pages and the tail.
unfoldable pub first_marks : ℕ → ℕ → Hdr → Stat
unfolding set_range idx_pages
first_marks page_size nconns h =
    let pages = (h.tail_start + h.tail_count) % 2 ^ 32 in
    let vec = set_range (λ p. false) 0 (h.no + idx_pages page_size nconns) in
    record {
      no = pages;
      vec = set_range vec h.tail_start (pages - h.tail_start);
      mult = [];
      marks = 0;
    }

-- The pending and the active pages, with their counters.
unfoldable pub mark_lists_of : ℕ → Hdr → Stat → Report
unfolding mark_conns
mark_lists_of nconns h s =
    let pending = mark_conns h.conns 0 nconns s in
    let active = mark_pages h.active 0 h.nactive (record pending { marks = 0 }) in
    record {
      stat = record active { marks = 0 };
      npending = pending.marks;
      nactive = active.marks;
      ngc = 0;
      nbpt = 0;
    }

-- After the gc pages.
abbrev pub with_gc : Report → Option (Option Error × Stat) → Option (Option Error × Report)
with_gc r none = none
with_gc r (some (rc, s)) = some (rc, record r { stat = record s { marks = 0 }; ngc = s.marks })

-- After a tree.
abbrev pub with_tree : Report → Option Marking → Option (Option Error × Report)
with_tree r none = none
with_tree r (some m) = some (m.error, record r { stat = m.stat; nbpt = m.stat.marks })

-- What follows a step that did not fail.
abbrev pub then_mark :
    (Report → Option (Option Error × Report))
    → Option (Option Error × Report)
    → Option (Option Error × Report)
then_mark next none = none
then_mark next (some (some x, r)) = some (some x, r)
then_mark next (some (none, r)) = next r

-- A failed call ends `ed_stat_new`.
abbrev pub unless_error :
    Option Error → Hdr → Option (Result Report × Hdr) → Option (Result Report × Hdr)
unless_error none h next = next
unless_error (some x) h next = some (err x, h)

module _ {K B : Type 0} (keys : Mem (Bpt K)) (blocks : Mem (Bpt B)) (env : Env) where
  -- The marks of one tree, if there is one.
  unfoldable pub mark_tree :
      {E : Type 0} → Mem (Bpt E) → Option ℕ → Report → Option (Option Error × Report)
  unfolding bpt_mark
  mark_tree pages none r = some (none, r)
  mark_tree pages (some pg) r = with_tree r (bpt_mark pages env.map_error (pages pg) r.stat)

  -- The loop over the trees.
  unfoldable pub mark_trees : List (Option ℕ) → Report → Option (Option Error × Report)
  unfolding mark_tree
  mark_trees (k ∷ b ∷ rest) r = then_mark (mark_tree blocks b) (mark_tree keys k r)
  mark_trees roots r = some (none, r)

  -- The pages of the gc lists and the trees, for the roots of a snapshot.
  unfoldable pub mark_index : Index → Hdr → List (Option ℕ) → Option (Option Error × Report)
  unfolding first_marks mark_lists_of pg_mark_gc mark_trees
  mark_index idx h roots =
      let r = mark_lists_of env.nconns h (first_marks env.page_size env.nconns h) in
      then_mark (mark_trees roots) (with_gc r (pg_mark_gc env.map_error env.fuel idx r.stat))

  -- The release of the snapshot; an error frees the marks.
  abbrev pub reported :
      Hdr → List (Option ℕ) → Option (Option Error × Report) → Option (Result Report × Hdr)
  reported h roots none = none
  reported h roots (some (some x, r)) =
      some (err x, (idx_release_snapshot env.epoch env.at env.own h roots).1)
  reported h roots (some (none, r)) =
      some (ok r, (idx_release_snapshot env.epoch env.at env.own h roots).1)

  abbrev pub with_snapshot : Index → Result (List (Option ℕ)) × Hdr → Option (Result Report × Hdr)
  with_snapshot idx (err x, h) =
      some (err x, (idx_release_snapshot env.epoch env.at env.own h []).1)
  with_snapshot idx (ok roots, h) = reported h roots (mark_index idx h roots)

  -- `ed_stat_new`
  unfoldable pub stat_new : Index → Hdr → Option (Result Report × Hdr)
  unfolding mark_index idx_acquire_snapshot idx_release_snapshot
  stat_new idx h = unless_error env.stat_error h (
      unless_error env.lock_error h
        (with_snapshot idx (idx_acquire_snapshot env.root_error env.epoch env.at env.own h)))
