-- ===== src/Gralloc/Module/Temporary.antt =====
-- The buffer that the module registers for the time of one lock.
use hardware_arpi.Base.{
  ℕ, ◌≡◌, refl, Bool, true, false, Option, none, ==-refl, Bool-cases, inl, inr, arith, bit_or,
}
use hardware_arpi.Base.Int.{ℤ, pos}
use hardware_arpi.Platform.{einval}
use hardware_arpi.Gralloc.Buffers.{Gralloc, NewBo, ImportData, add_bo, gbm_unregister}
use hardware_arpi.Gralloc.Buffers.Map.{find, find-emplace}
use hardware_arpi.Gralloc.Buffers.Ownership.{SameOwnership, register_cases, free-owned}
use hardware_arpi.Gralloc.Lock.{returns, BoMapper, data_or_fresh, set_data, gbm_lock}
use hardware_arpi.Gralloc.Lock.Faults.{register_after_lock}
use hardware_arpi.Gralloc.Lock.Session.{IsConsistent, unlock-lock, fresh-IsConsistent}
use hardware_arpi.Gralloc.Ycbcr.{gbm_lock_ycbcr}
use hardware_arpi.Gralloc.Module.{
  Module, convert_usage, gbm_mod_init, gbm_mod_register, register_opened, remember, lock_remembered,
  lock_ycbcr, after_unlock, module_unlock,
}

-- The answer of a lock that succeeded, with the state that gbm_lock left.
ycbcr_locked :
    (bo_map : BoMapper) (g : Gralloc) (h u : ℕ) (x y w hgt : ℤ)
    → (gbm_lock_ycbcr bo_map g h u x y w hgt).1 ≡ pos 0
    → ((gbm_lock_ycbcr bo_map g h u x y w hgt).0 ≡ (gbm_lock bo_map g h u x y w hgt).0)
      × ((gbm_lock bo_map g h u x y w hgt).1 ≡ pos 0)
unfolding gbm_lock_ycbcr
ycbcr_locked bo_map g h u x y w hgt e = ground (arith, e)

-- A handle without an entry cannot be locked.
unregistered_fails :
    (bo_map : BoMapper) (g : Gralloc) (h u : ℕ) (x y w hgt : ℤ)
    → find h g.handle_map ≡ none
    → (gbm_lock_ycbcr bo_map g h u x y w hgt).1 ≡ einval
unfolding gbm_lock_ycbcr
unregistered_fails bo_map g h u x y w hgt e =
    rw ((register_after_lock bo_map (λ d. none) g h u x y w hgt e).0) refl

-- What a successful lock of a buffer that was just added undoes.
Undone : Gralloc → Module → ℕ → Type 0
Undone g m h =
    (m' : Module) × (module_unlock m h ≡ returns (m', pos 0))
    × (m'.rhandle ≡ 0)
    × SameOwnership g m'.gralloc

added-IsConsistent :
    (g : Gralloc) (h : ℕ) (bo : NewBo)
    → IsConsistent (data_or_fresh ((add_bo g h bo).user_data bo.address))
unfolding add_bo
added-IsConsistent g h bo = rw (==-refl bo.address) fresh-IsConsistent

unlock_added :
    (bo_map : BoMapper) (g : Gralloc) (h u : ℕ) (x y w hgt : ℤ) (bo : NewBo)
    → find h g.handle_map ≡ none
    → let r = gbm_lock_ycbcr bo_map (add_bo g h bo) h u x y w hgt in
      r.1 ≡ pos 0 → Undone g (record { gralloc = r.0; opened = true; rhandle = h }) h
unfolding add_bo module_unlock gbm_unregister Undone set_data after_unlock
unlock_added bo_map g h u x y w hgt bo fresh e =
    let (same, ok) = ycbcr_locked bo_map (add_bo g h bo) h u x y w hgt e in
    let known = find-emplace h bo.address g.handle_map fresh in
    let (unlocked, memory, entries, alive) =
      unlock-lock bo_map (add_bo g h bo) h bo.address u x y w hgt known (added-IsConsistent g h bo)
        ok in
    rw (same, unlocked, ==-refl h) (_, refl, refl, free-owned g _ h bo.address fresh entries alive)

module _ (bo_import : ImportData → Option NewBo) (bo_map : BoMapper) (g : Gralloc) (h usage : ℕ)
    (x y w hgt : ℤ) (fresh : find h g.handle_map ≡ none) where
  -- The lock of what a registration left.
  abbrev Restores : Module × ℤ → Type 0
  Restores r =
      (lock_remembered bo_map (remember h r) h usage x y w hgt).1 ≡ pos 0
      → Undone g (lock_remembered bo_map (remember h r) h usage x y w hgt).0 h

  refused_Restores : (m : Module) → m.gralloc ≡ g → Restores (m, einval)
  unfolding remember lock_remembered
  refused_Restores m same e = absurd (
      ground (
        arith,
        e,
        rw same at (
            unregistered_fails bo_map m.gralloc h
              (bit_or (convert_usage usage).0 (convert_usage usage).1) x y w hgt (rw same fresh)),
      ))

  opened_Restores :
      (q : ℕ)
      → Restores
          (register_opened bo_import h (record { gralloc = g; opened = true; rhandle = q }, pos 0))
  unfolding register_opened remember lock_remembered
  opened_Restores q =
      register_cases (λ r. Restores (record { gralloc = r.0; opened = true; rhandle = q }, r.1))
        bo_import g h (refused_Restores (record { gralloc = g; opened = true; rhandle = q }) refl)
        (λ d bo given k e.
          unlock_added bo_map g h (bit_or (convert_usage usage).0 (convert_usage usage).1) x y w hgt
            bo k e)

-- Where `lock_ycbcr` locks a buffer that is not registered, it registers it, and the `unlock` that
-- follows succeeds, forgets the buffer, and gives its object back: the map and the objects alive are
-- those from before.
pub module_unlock-lock_ycbcr :
    (ready : Bool) (bo_import : ImportData → Option NewBo) (bo_map : BoMapper) (m : Module)
    (h usage : ℕ) (x y w hgt : ℤ)
    → find h m.gralloc.handle_map ≡ none
    → (lock_ycbcr ready bo_import bo_map m h usage x y w hgt).1 ≡ pos 0
    → (m' : Module) × (module_unlock (lock_ycbcr ready bo_import bo_map m h usage x y w hgt).0 h
        ≡ returns (m', pos 0))
      × (m'.rhandle ≡ 0)
      × SameOwnership m.gralloc m'.gralloc
unfolding lock_ycbcr gbm_mod_register gbm_mod_init Undone register_opened
module_unlock-lock_ycbcr ready bo_import bo_map m h usage x y w hgt fresh =
    elim (Bool-cases m.opened) [
      | inl e ↦ rw e (opened_Restores bo_import bo_map m.gralloc h usage x y w hgt fresh m.rhandle)
      | inr e ↦ elim (Bool-cases ready) [
        | inl f ↦
            rw (e, f) (opened_Restores bo_import bo_map m.gralloc h usage x y w hgt fresh m.rhandle)
        | inr f ↦
            rw (e, f)
              (refused_Restores bo_import bo_map m.gralloc h usage x y w hgt fresh
                (record m { opened = false }) refl)
      ]
    ]
