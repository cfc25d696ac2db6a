-- ===== src/Mapper/Calls/Sessions.antt =====
-- What a client of the mapper sees of importing, locking and freeing.
use hardware_arpi.Base.{
  ℕ, ◌≡◌, refl, true, false, Option, none, some, ◌==◌, Bool-cases, inl, inr, arith,
}
use hardware_arpi.Base.Int.{ℤ, pos, is_zero}
use hardware_arpi.Gralloc.Buffers.{
  Gralloc, PrivateHandle, NewBo, ImportData, update, gbm_register, gbm_unregister,
}
use hardware_arpi.Gralloc.Buffers.Map.{find}
use hardware_arpi.Gralloc.Buffers.Ownership.{SameOwnership, unregister-register}
use hardware_arpi.Gralloc.Lock.{returns, BoMapper, gbm_lock, data_or_fresh, set_data}
use hardware_arpi.Gralloc.Lock.Session.{IsConsistent, unlock-lock}
use hardware_arpi.Mapper.Calls.{
  no_fault, import_clone, import_buffer, free_buffer, FenceHandle, get_fence_fd, lock_usage, lock,
  unlock, flush_locked_buffer, is_no_fault,
}

is_zero_eq : (z : ℤ) → is_zero z ≡ true → z ≡ pos 0
is_zero_eq z e = ground (arith, e)

register_null :
    (bo_import : ImportData → Option NewBo) (g : Gralloc) (h : ℕ)
    → (h == 0) ≡ true
    → is_zero (gbm_register bo_import g h).1 ≡ false
unfolding gbm_register
register_null bo_import g h e = rw e refl

free_clone :
    (bo_import : ImportData → Option NewBo) (g : Gralloc) (o : Option (ℕ × PrivateHandle))
    → (import_clone bo_import g o).1 ≡ no_fault
    → SameOwnership g (free_buffer (import_clone bo_import g o).0 (import_clone bo_import g o).2).0
unfolding import_clone free_buffer gbm_unregister
free_clone bo_import g none = λ e. absurd (ground (arith, e))
free_clone bo_import g (some (copy, contents)) =
    let g0 : Gralloc = record g { memory = update g.memory copy contents } in
    let r = gbm_register bo_import g0 copy in
    elim (Bool-cases (is_zero r.1)) [
      | inr f ↦ rw f (λ e. absurd (ground (arith, e)))
      | inl f ↦ elim (Bool-cases (copy == 0)) [
        | inl null ↦ absurd (ground (arith, f, register_null bo_import g0 copy null))
        | inr valid ↦
            rw (f, valid)
              (λ e.
                let s = unregister-register bo_import g0 copy (is_zero_eq r.1 f) in
                record { same_map = s.same_map; same_live = s.same_live })
      ]
    ]

-- Freeing a buffer that was imported gives its object back: the map and the objects alive are those
-- from before the import.
pub free_buffer-import_buffer :
    (clone : PrivateHandle → Option (ℕ × PrivateHandle)) (bo_import : ImportData → Option NewBo)
    (g : Gralloc) (raw : ℕ)
    → let (g', error, buffer) = import_buffer clone bo_import g raw in
      error ≡ no_fault → SameOwnership g (free_buffer g' buffer).0
unfolding import_buffer
free_buffer-import_buffer clone bo_import g raw = elim (Bool-cases (raw == 0)) [
  | inl e ↦ rw e (λ f. absurd (ground (arith, f)))
  | inr e ↦ rw e (free_clone bo_import g (clone (g.memory raw)))
]

-- A lock that succeeds is taken back by flushing the buffer just as by unlocking it: the object's data
-- is as before the lock, so what is flushed is neither mapped nor locked any more.
pub flush_locked_buffer-lock :
    (dup : ℤ → ℤ) (bo_map : BoMapper) (g : Gralloc) (b bo usage : ℕ) (x y w h : ℤ)
    (fence : Option FenceHandle)
    → find b g.handle_map ≡ some (some bo)
    → IsConsistent (data_or_fresh (g.user_data bo))
    → let (g', error, address) = lock dup bo_map g b usage x y w h fence in
      error ≡ no_fault
      → (flush_locked_buffer g' b
          ≡ returns (set_data g' bo (data_or_fresh (g.user_data bo)), no_fault))
        × (flush_locked_buffer g' b ≡ unlock g' b)
unfolding lock flush_locked_buffer unlock
flush_locked_buffer-lock dup bo_map g b bo usage x y w h fence known v =
    let r = gbm_lock bo_map g b (lock_usage usage) x y w h in
    elim (Bool-cases (b == 0)) [
      | inl e ↦ rw e (λ f. absurd (ground (arith, f)))
      | inr e ↦ elim (Bool-cases (is_no_fault (get_fence_fd dup fence).0)) [
        | inr k ↦ rw (e, k) (λ f. absurd (ground (arith, f, k)))
        | inl k ↦ elim (Bool-cases (is_zero r.1)) [
          | inr z ↦ rw (e, k, z) (λ f. absurd (ground (arith, f)))
          | inl z ↦
              rw (e, k, z)
                (λ f.
                  rw
                    (unlock-lock bo_map g b bo (lock_usage usage) x y w h known v
                      (is_zero_eq r.1 z)).0
                    (refl, refl))
        ]
      ]
    ]
