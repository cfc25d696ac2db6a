-- ===== src/Gralloc/Lock/Faults.antt =====
-- What gbm_lock and gbm_unlock do on handles that are not registered or were never locked.
use hardware_arpi.Base.{ℕ, ◌≡◌, ◌≢◌, refl, ◌↔◌, Option, none, some, false, arith, ==-refl}
use hardware_arpi.Base.Int.{ℤ, pos}
use hardware_arpi.Platform.{einval}
use hardware_arpi.Gralloc.Buffers.{
  Gralloc, NewBo, ImportData, BoData, bo_from_handle_known, add_bo, gbm_register,
}
use hardware_arpi.Gralloc.Buffers.Ownership.{register_cases}
use hardware_arpi.Gralloc.Buffers.Map.{find, find-emplace}
use hardware_arpi.Gralloc.Lock.{
  returns, faults, BoMapper, gbm_lock, gbm_unlock, unlock_bo, set_data, is_allowed,
  lock_allowed_cases,
}

fresh_unlock :
    (g : Gralloc) (h : ℕ) (bo : NewBo)
    → find h g.handle_map ≡ none
    → gbm_unlock (add_bo g h bo) h ≡ faults
unfolding gbm_unlock add_bo
fresh_unlock g h bo e =
    rw (bo_from_handle_known (add_bo g h bo) h _ (find-emplace h bo.address g.handle_map e))
      (rw (==-refl bo.address, unlock_bo) refl)

data_unlock :
    (g : Gralloc) (h bo : ℕ) (d : BoData)
    → find h g.handle_map ≡ some (some bo)
    → gbm_unlock (set_data g bo d) h ≢ faults
unfolding gbm_unlock set_data
data_unlock g h bo d known =
    rw (bo_from_handle_known (set_data g bo d) h (some bo) known)
      (rw (==-refl bo, unlock_bo) (ground arith))

locked_unlock :
    (bo_map : BoMapper) (g : Gralloc) (h bo u : ℕ) (x y w hgt : ℤ)
    → find h g.handle_map ≡ some (some bo)
    → gbm_unlock g h ≡ faults
    → (gbm_unlock (gbm_lock bo_map g h u x y w hgt).0 h ≡ faults)
      ↔ (is_allowed (g.memory h).usage u ≡ false)
locked_unlock bo_map g h bo u x y w hgt known fresh =
    lock_allowed_cases
      (λ r. (gbm_unlock r.0 h ≡ faults) ↔ (is_allowed (g.memory h).usage u ≡ false)) bo_map g h bo u
      x y w hgt known (λ e. (λ f. e, λ f. fresh))
      (λ e mapped. (λ f. absurd (data_unlock g h bo _ known f), λ f. absurd (ground (arith, e, f))))

-- A buffer that was registered and not locked since: unlocking it reads through a null pointer. After
-- one call of gbm_lock, whether that succeeds or fails, it does so exactly where the buffer's usage does
-- not allow the one that was asked for, since only then the lock has made no data.
pub unlock-register_faults :
    (bo_import : ImportData → Option NewBo) (bo_map : BoMapper) (g : Gralloc) (h u : ℕ)
    (x y w hgt : ℤ)
    → (gbm_register bo_import g h).1 ≡ pos 0
    → let g' = (gbm_register bo_import g h).0 in
      (gbm_unlock g' h ≡ faults)
      × ((gbm_unlock (gbm_lock bo_map g' h u x y w hgt).0 h ≡ faults)
          ↔ (is_allowed (g'.memory h).usage u ≡ false))
unfolding add_bo
unlock-register_faults bo_import bo_map g h u x y w hgt =
    register_cases
      (λ r.
        r.1 ≡ pos 0
        → (gbm_unlock r.0 h ≡ faults)
          × ((gbm_unlock (gbm_lock bo_map r.0 h u x y w hgt).0 h ≡ faults)
              ↔ (is_allowed (r.0.memory h).usage u ≡ false)))
      bo_import g h (λ e. absurd (ground (arith, e)))
      (λ d bo given fresh e.
        let f = fresh_unlock g h bo fresh in
        (
          f,
          locked_unlock bo_map (add_bo g h bo) h bo.address u x y w hgt
              (find-emplace h bo.address g.handle_map fresh) f,
        ))

-- A lock or an unlock of a handle that is not registered fails, and from then on registering the
-- handle fails too.
pub register_after_lock :
    (bo_map : BoMapper) (bo_import : ImportData → Option NewBo) (g : Gralloc) (h u : ℕ)
    (x y w hgt : ℤ)
    → find h g.handle_map ≡ none
    → let (g', status, address) = gbm_lock bo_map g h u x y w hgt in
      (status ≡ einval)
      × (gbm_unlock g h ≡ returns (g', einval))
      × (gbm_register bo_import g' h ≡ (g', einval))
unfolding gbm_lock gbm_unlock gbm_register find
register_after_lock bo_map bo_import g h u x y w hgt e = (ground arith, ground arith, ground arith)
