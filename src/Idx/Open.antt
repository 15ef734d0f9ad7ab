-- ===== src/Idx/Open.antt =====
-- lib/idx.c: `ed_idx_open`.
--
-- The index file's content is its header, or none where
-- the file is empty. On an error `ed_idx_close` clears the handle; none is returned.
use eddy.Base.{
  ℕ, ◌+◌, ◌-◌, ◌*◌, ◌/◌, Bool, true, ◌&&◌, ◌||◌, ltb, ◌==◌, if◌then◌else◌, Option, none, some, List,
}
use eddy.Base.Mem.{put}
use eddy.Base.Result.{
  Error, Result, ok, err, index_mode, index_size, index_random, config_index_name,
}
use eddy.Pg.{alloc_count}
use eddy.Idx.{Flags, Hdr, idx_pages, hdr_verify, hdr_verify_slab}
use eddy.Idx.Slots.{conn_acquire}
use eddy.Idx.Config.{
  bit_create, bit_allocate, bit_replace, idx_flags, fopen, pg_ninit, File, regular, device, other,
  Config, System, Idx, conn_count, slab_name, seed_of, new_hdr, slab_init,
}

-- What is left of the file after `ftruncate` and `allocate_file`, with their outcomes.
abbrev pub created : Option Error → Option Error → Hdr → Option Hdr → Result Hdr × Option Hdr
created (some x) grown new disk = (err x, disk)
created none (some x) new disk = (err x, none)
created none none new disk = (ok new, some new)

module _ (page_size : ℕ) (little : Bool) (sys : System) (cfg : Config) where
  -- `flags` after `ED_FREPLACE` is set for an empty file.
  abbrev pub open_flags : File → Flags
  open_flags st =
      if (st.size == 0) && cfg.flags bit_create then put cfg.flags bit_replace true else cfg.flags

  -- The new header, once the slab's size and inode are known: truncation and allocation of the file.
  unfoldable pub create : Hdr → ℕ → ℕ → Option Hdr → Result Hdr × Option Hdr
  unfolding idx_pages
  create h size ino disk =
      let bytes = (pg_ninit page_size (conn_count cfg.max_conns) + alloc_count) * page_size in
      let new = record h { slab_blocks = size / h.slab_block_size; slab_ino = ino } in
      created sys.truncate_error (sys.index_file_error bytes) new disk

  abbrev pub verify : Option Hdr → ℕ → Result Hdr
  verify none size = err index_size
  verify (some h) size = elim (hdr_verify page_size little h size) [ none ↦ ok h | some x ↦ err x ]

  abbrev pub verify_slab : Hdr → ℕ → ℕ → Result Hdr
  verify_slab h size ino = elim (hdr_verify_slab h size ino) [ none ↦ ok h | some x ↦ err x ]

  -- The slab of the header `h`: its size and its inode.
  unfoldable pub open_slab_of : Hdr → Result (ℕ × ℕ)
  unfolding slab_init
  open_slab_of h = elim (sys.open_slab h.slab_path (cfg.flags bit_allocate)) [
    | err x ↦ err x
    | ok st ↦ elim (slab_init sys cfg st) [ err x ↦ err x | ok size ↦ ok (size, st.ino) ]
  ]

  -- `do { ... } while (0)`, on a new header and on that of an existing index.
  unfoldable pub prepare_new : Hdr → Option Hdr → Result Hdr × Option Hdr
  unfolding open_slab_of create
  prepare_new new disk = elim (open_slab_of new) [
    | err x ↦ (err x, disk)
    | ok slab ↦ create new slab.0 slab.1 disk
  ]

  unfoldable pub prepare_old : ℕ → Option Hdr → Result Hdr × Option Hdr
  unfolding hdr_verify hdr_verify_slab open_slab_of
  prepare_old size disk = elim (verify disk size) [
    | err x ↦ (err x, disk)
    | ok h ↦ elim (open_slab_of h) [
      | err x ↦ (err x, disk)
      | ok slab ↦ (verify_slab h slab.0 slab.1, disk)
    ]
  ]

  -- `if (rc >= 0)` and the end of the function, by the outcome of `conn_acquire`.
  abbrev pub connected : List ℕ → Flags → Hdr → Result ℕ × Hdr → Result Idx × Option Hdr
  connected path flags h (err x, h') = (err x, some h')
  connected path flags h (ok slot, h') = (
    ok (record {
      conn = slot;
      nconns = conn_count cfg.max_conns;
      flags = idx_flags (λ b. h.flags b || fopen flags b);
      pid = sys.pid;
      path = path;
      seed = h.seed;
      epoch = h.epoch;
    }),
    some h',
  )

  unfoldable pub connect : List ℕ → Flags → Result Hdr × Option Hdr → Result Idx × Option Hdr
  unfolding conn_acquire conn_count
  connect path flags (err x, disk) = (err x, disk)
  connect path flags (ok h, disk) =
      let xmin = if ltb 16 h.xid then h.xid - 16 else 0 in
      connected path flags h (conn_acquire sys.conn_error xmin sys.pid h)

  -- The opened and mapped file, under the lock.
  unfoldable pub open_file : List ℕ → Hdr → Option Hdr → File → Result Idx × Option Hdr
  unfolding prepare_new prepare_old connect
  open_file path new disk st =
      let flags = open_flags st in
      elim st.mode [
        | regular ↦
            connect path flags
              (if flags bit_replace then prepare_new new disk else prepare_old st.size disk)
        | device ↦ (err index_mode, disk)
        | other ↦ (err index_mode, disk)
      ]

  -- `ed_idx_open` from the opening of the file on.
  unfoldable pub open_index_at : List ℕ → Hdr → Option Hdr → Result Idx × Option Hdr
  unfolding open_file
  open_index_at path new disk =
      elim (sys.open_index (cfg.flags bit_create || cfg.flags bit_replace)) [
        | err x ↦ (err x, disk)
        | ok st ↦ elim sys.map_error [
          | some x ↦ (err x, disk)
          | none ↦ elim sys.lock_error [
            | some x ↦ (err x, disk)
            | none ↦ open_file path new disk st
          ]
        ]
      ]

  -- `ed_idx_open`
  unfoldable pub idx_open : Option Hdr → Result Idx × Option Hdr
  unfolding slab_name new_hdr open_index_at
  idx_open disk = elim cfg.index_path [
    | none ↦ (err config_index_name, disk)
    | some path ↦ elim (seed_of sys cfg) [
      | none ↦ (err index_random, disk)
      | some seed ↦ elim (slab_name cfg path) [
        | err x ↦ (err x, disk)
        | ok name ↦ open_index_at path (new_hdr page_size little sys cfg seed name) disk
      ]
    ]
  ]
