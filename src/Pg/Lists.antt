-- ===== src/Pg/Lists.antt =====
-- The lists of a gc page as lists, and what keeps the page readable.
use eddy.Base.{ℕ, zero, suc, ◌+◌, ◌-◌, ◌*◌, ◌%◌, ◌≤◌, ◌<◌, ◌≡◌, ◌≢◌, List, [], ◌∷◌, ◌++◌}
use eddy.Base.Mem.{Mem, slice}
use eddy.Pg.{GcState, GcPage, gc_data, gc_list_size, list_npages, list_pages}

-- The offset behind `n` lists.
abbrev pub behind : Mem ℕ → ℕ → ℕ → ℕ
behind words off zero = off
behind words off (suc n) = behind words (off + gc_list_size (list_npages words off)) n

-- The pages of `n` lists from offset `off` on, without the first `nskip` ones.
abbrev pub pages_from : Mem ℕ → ℕ → ℕ → ℕ → List ℕ
pages_from words off nskip zero = []
pages_from words off nskip (suc n) =
    slice words (list_pages off + nskip) (list_npages words off - nskip)
    ++ pages_from words (off + gc_list_size (list_npages words off)) 0 n

-- The freed pages that the gc page lists.
abbrev pub listed : GcPage → List ℕ
listed g = pages_from g.words g.state.head g.state.nskip g.state.nlists

-- `tail` is the last list, which ends inside the page; in a page without lists it is where the first
-- one goes.
pub record IsGcPage (page_size : ℕ) (g : GcPage) : Type 0 where
  pub aligned : g.state.head % 8 ≡ 0
  pub last : 0 < g.state.nlists → behind g.words g.state.head (g.state.nlists - 1) ≡ g.state.tail
  pub empty : g.state.nlists ≡ 0 → (g.state.tail ≡ g.state.head) × (g.state.nskip ≡ 0)
  pub fits : g.state.tail + 12 + 4 * list_npages g.words g.state.tail ≤ gc_data page_size
  pub skipped : 0 < g.state.nlists → g.state.nskip ≤ list_npages g.words g.state.head

-- The pages that are listed from a state on.
abbrev pub listed_in : GcPage → GcState → List ℕ
listed_in g s = pages_from g.words s.head s.nskip s.nlists

-- The lists of a page can be read from the state on, as `ed_alloc` does: a page without lists may be
-- full up to its end.
pub record IsReadable (page_size : ℕ) (g : GcPage) (s : GcState) : Type 0 where
  pub aligned : s.head % 8 ≡ 0
  pub last : 0 < s.nlists → behind g.words s.head (s.nlists - 1) ≡ s.tail
  pub fits : 0 < s.nlists → s.tail + 12 + 4 * list_npages g.words s.tail ≤ gc_data page_size
  pub skipped : 0 < s.nlists → s.nskip ≤ list_npages g.words s.head

-- The gc pages behind a page, up to the one with number `tail`.
pub data Chain (pages : Mem GcPage) (tail : ℕ) : GcPage → List GcPage → Type 0 where
  end : {g : GcPage} → g.no ≡ tail → Chain pages tail g []
  link :
      {g : GcPage} {gs : List GcPage}
      → g.no ≢ tail
      → Chain pages tail (pages g.next) gs
      → Chain pages tail g (pages g.next ∷ gs)

abbrev pub all_listed : List GcPage → List ℕ
all_listed [] = []
all_listed (g ∷ gs) = listed g ++ all_listed gs

abbrev pub all_lists : List GcPage → ℕ
all_lists [] = 0
all_lists (g ∷ gs) = g.state.nlists + all_lists gs

abbrev pub page_numbers : List GcPage → List ℕ
page_numbers [] = []
page_numbers (g ∷ gs) = g.no ∷ page_numbers gs

abbrev pub AllReadable : ℕ → List GcPage → Type 0
AllReadable page_size [] = Unit
AllReadable page_size (g ∷ gs) = IsReadable page_size g g.state × AllReadable page_size gs
