-- ===== src/Idx/OpenTests.antt =====
-- A new index with 4 connections, and the same index opened again.
use eddy.Base.{◌≡◌, refl, true, false, arith, none, some, [], ◌∷◌, ◌==◌, ◌||◌}
use eddy.Base.Int.{pos}
use eddy.Base.Mem.{put}
use eddy.Base.Result.{ok}
use eddy.Idx.{Hdr, conn_default}
use eddy.Idx.Slots.{conn_acquire, acquire_pass}
use eddy.Idx.Config.{File, regular, Config, System, Idx, new_hdr, idx_flags, fopen, slab_init}
use eddy.Idx.Open.{open_slab_of, create, prepare_new, prepare_old, connect}
use eddy.Idx.Laws.Open.{prepare_old-prepare_new}

abbrev slab : File
slab = record { size = 40960; ino = 77; mode = regular }

abbrev sys : System
sys = record {
  pid = 13;
  now = pos 5;
  random = none;
  open_index = λ c. ok (record { size = 0; ino = 5; mode = regular });
  map_error = none;
  lock_error = none;
  open_slab = λ p c. ok slab;
  device_size = ok 0;
  slab_file_error = λ n. none;
  index_file_error = λ n. none;
  truncate_error = none;
  conn_error = λ p i. none;
}

abbrev cfg : Config
cfg = record {
  index_path = some (47 ∷ 105 ∷ []);
  slab_path = none;
  max_conns = 4;
  seed = 3;
  flags = λ b. b == 38;
  slab_size = 0;
  slab_block_size = 0;
}

abbrev new : Hdr
new = new_hdr 4096 true sys cfg 3 (47 ∷ [])

-- The header after the first process has taken slot 0.
abbrev opened : Hdr
opened = record new {
  slab_blocks = 10;
  slab_ino = 77;
  conns = put (λ i. conn_default) 0 (record conn_default { pid = 13 });
}

abbrev handle : Idx
handle = record {
  conn = 0;
  nconns = 4;
  flags = idx_flags (λ b. new.flags b || fopen (λ k. false) b);
  pid = 13;
  path = [];
  seed = 3;
  epoch = pos 5;
}

new_slab : open_slab_of 4096 true sys cfg new ≡ ok (40960, 77)
unfolding open_slab_of new_hdr slab_init
new_slab = refl

opened_slab : open_slab_of 4096 true sys cfg opened ≡ ok (40960, 77)
unfolding open_slab_of new_hdr slab_init
opened_slab = refl

connected :
    connect 4096 true sys cfg [] (λ b. false) (prepare_new 4096 true sys cfg new none)
    ≡ (ok handle, some opened)
unfolding connect prepare_new create open_slab_of new_hdr slab_init conn_acquire acquire_pass
connected = refl

reopen_example : prepare_old 4096 true sys cfg 73728 (some opened) ≡ (ok opened, some opened)
reopen_example =
    prepare_old-prepare_new 4096 true sys sys cfg cfg 3 (47 ∷ []) [] (λ b. false) none (40960, 77)
      handle opened 73728 new_slab connected (omega arith) opened_slab
