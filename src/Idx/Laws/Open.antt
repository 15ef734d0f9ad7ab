-- ===== src/Idx/Laws/Open.antt =====
-- `ed_idx_open`: the header of a new index is accepted when the index is opened again.
use eddy.Base.{
  ℕ, ◌/◌, ◌≤◌, ◌≡◌, refl, sym, ap, ◌∙◌, Bool, true, false, ltb, ◌==◌, arith, ◌-◌, if◌then◌else◌,
  Option, none, some, List,
}
use mathlib.Core.Bool.{true≢false}
use eddy.Base.Mem.{Mem}
use eddy.Base.Result.{Error, Result, ok, err}
use eddy.Idx.{Flags, Conn, Hdr, hdr_verify, hdr_verify_slab}
use eddy.Idx.Slots.{conn_acquire}
use eddy.Idx.Config.{Config, System, Idx, new_hdr}
use eddy.Idx.Open.{
  open_slab_of, create, created, prepare_new, prepare_old, connect, connected, verify_slab,
}
use eddy.Idx.Laws.Slots.{Acquired, conn_acquire-Acquired, first, second, failed, busy}

same_number : (n : ℕ) → (n == n) ≡ true
same_number n = ground arith

-- `conn_acquire` changes the connections only.
Acquired-conns :
    {lock_error : ℕ → ℕ → Option Error} {xmin pid : ℕ} {h : Hdr} {r : Result ℕ × Hdr}
    → Acquired lock_error xmin pid h r
    → (c : Mem Conn) × (r.1 ≡ record h { conns = c })
Acquired-conns (first j lt got free) = (_, refl)
Acquired-conns (second j lt got each) = (_, refl)
Acquired-conns {h = h} (failed p j x lt stop no_again) = (h.conns, refl)
Acquired-conns {h = h} (busy each) = (h.conns, refl)

-- The new header once it is written and has connections.
abbrev written : Hdr → ℕ → ℕ → Mem Conn → Hdr
written h size ino c = record h {
  slab_blocks = size / h.slab_block_size;
  slab_ino = ino;
  conns = c;
}

hdr_verify-new_hdr :
    (page_size : ℕ) (little : Bool) (sys : System) (cfg : Config) (seed : ℕ) (name : List ℕ)
    (size ino fsize : ℕ) (c : Mem Conn)
    → 2112 ≤ fsize
    → hdr_verify page_size little
        (written (new_hdr page_size little sys cfg seed name) size ino c)
        fsize
      ≡ none
unfolding hdr_verify new_hdr
hdr_verify-new_hdr page_size true sys cfg seed name size ino fsize c le =
    let long : ltb fsize 2112 ≡ false = ground arith in rw (long, same_number page_size) refl
hdr_verify-new_hdr page_size false sys cfg seed name size ino fsize c le =
    let long : ltb fsize 2112 ≡ false = ground arith in rw (long, same_number page_size) refl

hdr_verify_slab-written :
    (h : Hdr) (size ino : ℕ) (c : Mem Conn) → hdr_verify_slab (written h size ino c) size ino ≡ none
unfolding hdr_verify_slab
hdr_verify_slab-written h size ino c =
    rw (same_number (size / h.slab_block_size), same_number ino) refl

-- The outcomes of the creation.
data Created (h : Hdr) (size ino : ℕ) : Result Hdr × Option Hdr → Type 0 where
  made : Created h size ino (ok (written h size ino h.conns), some (written h size ino h.conns))
  not_made : (x : Error) (disk : Option Hdr) → Created h size ino (err x, disk)

module _ (page_size : ℕ) (little : Bool) (sys : System) (cfg : Config) where
  created-Created :
      (h : Hdr) (size ino : ℕ) (cut grown : Option Error) (disk : Option Hdr)
      → Created h size ino (created cut grown (written h size ino h.conns) disk)
  created-Created h size ino (some x) grown disk = not_made x disk
  created-Created h size ino none (some x) disk = not_made x none
  created-Created h size ino none none disk = made

  prepare_new-Created :
      (h : Hdr) (slab : ℕ × ℕ) (disk : Option Hdr)
      → open_slab_of page_size little sys cfg h ≡ ok slab
      → Created h slab.0 slab.1 (prepare_new page_size little sys cfg h disk)
  unfolding prepare_new create
  prepare_new-Created h slab disk opened =
      rw (prepare_new, opened) (created-Created h slab.0 slab.1 _ _ disk)

  -- A success of `connect` leaves the header with other connections.
  connect-conns :
      (path : List ℕ) (flags : Flags) (h : Hdr) (disk : Option Hdr) (i : Idx) (h' : Hdr)
      → connect page_size little sys cfg path flags (ok h, disk) ≡ (ok i, some h')
      → (c : Mem Conn) × (h' ≡ record h { conns = c })
  unfolding connect
  connect-conns path flags h disk i h' eq =
      let xmin : ℕ = if ltb 16 h.xid then h.xid - 16 else 0 in
      let r = conn_acquire sys.conn_error xmin sys.pid h in
      let (c, same) = Acquired-conns (conn_acquire-Acquired sys.conn_error xmin sys.pid h) in
      (c, sym (ap (λ q. or_else h q.1) eq) ∙ header r ∙ same)
    where
      or_else : Hdr → Option Hdr → Hdr
      or_else d none = d
      or_else d (some g) = g

      header :
          (r : Result ℕ × Hdr)
          → or_else h (connected page_size little sys cfg path flags h r).1 ≡ r.1
      header (ok slot, h1) = refl
      header (err x, h1) = refl

  connect_err :
      (path : List ℕ) (flags : Flags) (x : Error) (disk d : Option Hdr) (i : Idx)
      → connect page_size little sys cfg path flags (err x, disk) ≡ (ok i, d)
      → ⊥
  unfolding connect
  connect_err path flags x disk d i eq = true≢false (sym (ap (λ q. is_ok q.0) eq))
    where
      is_ok : Result Idx → Bool
      is_ok (ok v) = true
      is_ok (err e) = false

-- The header that `ed_idx_open` writes for a new index is accepted when the index is opened again: if the
-- slab then has the size and the inode that it had, and the file has the length of a header
-- at least, the checks pass and the header is taken as it is.
pub prepare_old-prepare_new :
    (page_size : ℕ) (little : Bool) (sys later : System) (cfg cfg' : Config) (seed : ℕ)
    (name path : List ℕ) (flags : Flags) (disk : Option Hdr) (slab : ℕ × ℕ) (i : Idx) (h : Hdr)
    (size : ℕ)
    → let new = new_hdr page_size little sys cfg seed name in
      open_slab_of page_size little sys cfg new ≡ ok slab
      → connect page_size little sys cfg path flags (prepare_new page_size little sys cfg new disk)
        ≡ (ok i, some h)
      → 2112 ≤ size
      → open_slab_of page_size little later cfg' h ≡ ok slab
      → prepare_old page_size little later cfg' size (some h) ≡ (ok h, some h)
unfolding prepare_old
prepare_old-prepare_new page_size little sys later cfg cfg' seed name path flags disk slab i h size
      opened won long again =
    go (prepare_new-Created page_size little sys cfg new slab disk opened) won
  where
    new : Hdr
    new = new_hdr page_size little sys cfg seed name

    go :
        {r : Result Hdr × Option Hdr}
        → Created new slab.0 slab.1 r
        → connect page_size little sys cfg path flags r ≡ (ok i, some h)
        → prepare_old page_size little later cfg' size (some h) ≡ (ok h, some h)
    go (not_made x d) eq =
        absurd (connect_err page_size little sys cfg path flags x d (some h) i eq)
    go made eq =
        let w = written new slab.0 slab.1 new.conns in
        let (c, same) = connect-conns page_size little sys cfg path flags w (some w) i h eq in
        let header : hdr_verify page_size little h size ≡ none =
          ap (λ g. hdr_verify page_size little g size) same
          ∙ hdr_verify-new_hdr page_size little sys cfg seed name slab.0 slab.1 size c long in
        let blocks : hdr_verify_slab h slab.0 slab.1 ≡ none =
          ap (λ g. hdr_verify_slab g slab.0 slab.1) same
          ∙ hdr_verify_slab-written new slab.0 slab.1 c in
        rw (prepare_old, header, again, verify_slab, blocks) refl
