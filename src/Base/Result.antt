-- ===== src/Base/Result.antt =====
-- Error codes as values.
use Prim.Native.Nat.{ℕ}
use mathlib.Core.Path.{◌≡◌, refl}
use mathlib.Core.Logic.{◌⊎◌, inl, inr}

-- `sys e` is `ed_esys(e)`; the others are the library's own codes of lib/eddy.h that the modelled
-- functions return.
pub data Error : Type 0 where
  sys : ℕ → Error
  key_match rdonly dupkey fork txn_closed : Error
  object_rdonly toobig toosmall object_id metacrc datacrc : Error
  index_mode index_size index_magic index_endian index_mark index_version index_page_size : Error
  index_random eslab_mode eslab_size eslab_block_count eslab_inode : Error
  config_slab_name config_index_name : Error

pub data Result {ℓ} (A : Type ℓ) : Type ℓ where
  ok : A → Result A
  err : Error → Result A

pub Result-cases {ℓ} :
    {A : Type ℓ} (r : Result A) → ((a : A) × (r ≡ ok a)) ⊎ ((x : Error) × (r ≡ err x))
Result-cases (ok a) = inl (a, refl)
Result-cases (err x) = inr (x, refl)
