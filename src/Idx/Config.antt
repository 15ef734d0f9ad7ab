-- ===== src/Idx/Config.antt =====
-- lib/idx.c: what `ed_idx_open` is given, and the names, the header and the slab that it makes of it.
--
-- What the system answers is a record of outcomes.
use eddy.Base.{
  ℕ, ◌+◌, ◌%◌, ◌^◌, Bool, false, not, ◌&&◌, ◌||◌, ltb, leb, ◌==◌, if◌then◌else◌, Option, none, some,
  List, [], ◌∷◌, ◌++◌, length, take,
}
use eddy.Base.Int.{ℤ}
use eddy.Base.Mem.{put}
use eddy.Base.Result.{Error, Result, ok, err, eslab_mode, eslab_size, config_slab_name}
use eddy.Pg.{alloc_count}
use eddy.Idx.{Flags, Hdr, index_default, idx_pages}

-- The bits of `ED_FCREATE`, `ED_FALLOCATE`, `ED_FREPLACE` and `ED_FRESET`.
abbrev pub bit_create : ℕ
bit_create = 36

abbrev pub bit_allocate : ℕ
bit_allocate = 37

abbrev pub bit_replace : ℕ
bit_replace = 38

abbrev pub bit_reset : ℕ
bit_reset = 63

-- `ed_idx_flags`, `ed_fsave` and `ed_fopen`
abbrev pub idx_flags : Flags → Flags
idx_flags f = put f bit_reset false

abbrev pub fsave : Flags → Flags
fsave f b = ltb b 32 && f b

abbrev pub fopen : Flags → Flags
fopen f b = leb 32 b && f b

-- `PG_ROOT_GC` and `PG_NINIT`
abbrev pub pg_root_gc : ℕ
pg_root_gc = 1

abbrev pub pg_ninit : ℕ → ℕ → ℕ
pg_ninit page_size nconns = idx_pages page_size nconns + 1

-- The kinds of file that `ED_IS_FILE` and `ED_IS_DEVICE` tell apart.
pub data Mode : Type 0 where
  regular device other : Mode

-- What is used of `struct stat`.
pub record File : Type 0 where
  pub size : ℕ
  pub ino : ℕ
  pub mode : Mode

-- `EdConfig`, with the absolute paths that `ed_path_abs` gives, or its failure.
pub record Config : Type 0 where
  pub index_path : Option (List ℕ)
  pub slab_path : Option (Option (List ℕ))
  pub max_conns : ℕ
  pub seed : ℕ
  pub flags : Flags
  pub slab_size : ℕ
  pub slab_block_size : ℕ

-- The outcomes of the system's calls. A file is opened with or without `O_CREAT`.
pub record System : Type 0 where
  pub pid : ℕ
  pub now : ℤ
  pub random : Option ℕ
  pub open_index : Bool → Result File
  pub map_error : Option Error
  pub lock_error : Option Error
  pub open_slab : List ℕ → Bool → Result File
  pub device_size : Result ℕ
  pub slab_file_error : ℕ → Option Error
  pub index_file_error : ℕ → Option Error
  pub truncate_error : Option Error
  pub conn_error : ℕ → ℕ → Option Error

-- `struct EdIdx` after a success.
pub record Idx : Type 0 where
  pub conn : ℕ
  pub nconns : ℕ
  pub flags : Flags
  pub pid : ℕ
  pub path : List ℕ
  pub seed : ℕ
  pub epoch : ℤ

-- The number of connections for `max_conns`.
unfoldable pub conn_count : ℕ → ℕ
conn_count max_conns = if max_conns == 0 then 32 else if ltb 256 max_conns then 512 else max_conns

-- The slab's path: the one of the configuration, or by `snprintf` the index's with "-slab", cut to the 910
-- characters that fit.
unfoldable pub slab_name : Config → List ℕ → Result (List ℕ)
slab_name cfg path =
    let full = path ++ 45 ∷ 115 ∷ 108 ∷ 97 ∷ 98 ∷ [] in
    elim cfg.slab_path [
      | none ↦ if leb 912 (length full) then err config_slab_name else ok (take 910 full)
      | some p ↦ elim p [ none ↦ err config_slab_name | some name ↦ ok name ]
    ]

-- `cfg->seed`, or a random one.
abbrev pub seed_of : System → Config → Option ℕ
seed_of sys cfg = if ltb 0 cfg.seed then some cfg.seed else sys.random

-- `slab_init`
unfoldable pub slab_init : System → Config → File → Result ℕ
slab_init sys cfg st = elim st.mode [
  | regular ↦
      if leb (2 ^ 63) st.size
      then err eslab_size
      else if ltb 0 cfg.slab_size && (not (st.size == cfg.slab_size) && cfg.flags bit_allocate)
      then (elim (sys.slab_file_error cfg.slab_size) [ none ↦ ok cfg.slab_size | some x ↦ err x ])
      else ok st.size
  | device ↦ elim sys.device_size [
    | err x ↦ err x
    | ok size ↦ if (size == 0) || leb (2 ^ 63) size then err eslab_size else ok size
  ]
  | other ↦ err eslab_mode
]

module _ (page_size : ℕ) (little : Bool) (sys : System) (cfg : Config) where
  -- `hdrnew`
  unfoldable pub new_hdr : ℕ → List ℕ → Hdr
  unfolding idx_pages conn_count
  new_hdr seed slab_path =
      let d = index_default page_size little in
      let nconns = conn_count cfg.max_conns in
      record d {
        seed = seed;
        epoch = sys.now;
        flags = fsave cfg.flags;
        gc_head = pg_root_gc;
        gc_tail = pg_root_gc;
        tail_start = pg_ninit page_size nconns;
        tail_count = alloc_count;
        slab_block_size =
            if ltb 0 cfg.slab_block_size then cfg.slab_block_size else d.slab_block_size;
        slab_path = slab_path;
        nconns = nconns % 2 ^ 16;
      }
