-- ===== src/Pg/MarkTests.antt =====
-- Marks of the freed pages of two gc pages, 1 and 2.
use eddy.Base.{
  ℕ, ◌<◌, not, ◌||◌, ltb, ◌≡◌, refl, false, arith, if◌then◌else◌, ◌==◌, none, some, [], ◌∷◌,
}
use eddy.Bpt.{pg_none}
use eddy.Stat.{Stat, stat_has_leak}
use eddy.Pg.{GcPage, Index}
use eddy.Stat.Marks.{count}
use eddy.Pg.Lists.{all_listed, IsReadable}
use eddy.Pg.Mark.{pg_mark_gc}
use eddy.Pg.Laws.Mark.{Linked, last, link, pg_mark_gc-stat_has_leak}
use eddy.Pg.Tests.{two_lists}

abbrev pub chained : ℕ → GcPage
chained pg = record (two_lists pg) { next = if pg == 1 then 2 else pg_none }

abbrev pub chain : Index
chain = record { pages = chained; gc_head = 1; gc_tail = 2; tail_start = 40; tail_count = 6 }

abbrev stat : Stat
stat = record { no = 46; vec = λ p. false; mult = []; marks = 0 }

pub chain-Linked : Linked chained (chained 1) (chained 2 ∷ [])
chain-Linked = link (omega arith) (last refl)

pub chained-IsReadable : (pg : ℕ) → IsReadable 4096 (chained pg) (chained pg).state
chained-IsReadable pg = record {
  aligned = refl;
  last = λ p. refl;
  fits = λ p. omega arith;
  skipped = λ p. omega arith;
}

gc_leak_example :
    (s' : Stat) × (pg_mark_gc (λ pg. none) 2 chain stat ≡ some (none, s'))
    × ((p : ℕ)
        → p < 46
        → stat_has_leak s' p
          ≡ not (false || ltb 0 (count p (1 ∷ all_listed (chained 1 ∷ chained 2 ∷ [])))))
gc_leak_example =
    pg_mark_gc-stat_has_leak 4096 (omega arith) chain (λ pg. none) 2 (chained 2 ∷ []) stat
      (λ pg. refl) (omega arith) chain-Linked (chained-IsReadable 1, (chained-IsReadable 2, tt))
