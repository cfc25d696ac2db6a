-- ===== src/Examples/Buffers.antt =====
-- graphics/common/gbm_gralloc.cpp on a process with one YCbCr buffer of 64 by 32 pixels, whose object
-- is 7, and on one with none.
use hardware_arpi.Base.{ℕ, ◌≡◌, ◌↔◌, refl, true, false, Option, none, some, [], ◌∷◌, bit_or, arith}
use hardware_arpi.Base.Int.{ℤ, pos, is_zero}
use hardware_arpi.Platform.{
  PixelFormat, rgba_8888, ycbcr_420_888, einval, cpu_read_often, cpu_write_often, gpu_texture,
}
use hardware_arpi.Gralloc.Buffers.{
  PrivateHandle, BoData, Gralloc, NewBo, ImportData, CreateRequest, gbm_register, gbm_unregister,
  gbm_free, gbm_alloc, add_bo,
}
use hardware_arpi.Gralloc.Module.{
  Module, lock_ycbcr, module_unlock, gbm_mod_register, gbm_mod_init, convert_usage,
}
use hardware_arpi.Gralloc.Module.Temporary.{module_unlock-lock_ycbcr}
use hardware_arpi.Gralloc.Format.{get_bpp}
use hardware_arpi.Gralloc.Buffers.Map.{find, emplace}
use hardware_arpi.Gralloc.Buffers.Ownership.{
  SameOwnership, unregister-register, free-alloc, alloc_stale_leaks, register_after_free,
}
use hardware_arpi.Gralloc.Lock.{
  is_allowed, returns, faults, BoMapper, is_compatible, count_lock, data_or_fresh, fresh_data,
  set_data, gbm_lock, gbm_unlock,
}
use hardware_arpi.Gralloc.Lock.Session.{
  IsConsistent, fresh-IsConsistent, unlock-lock, lock_mapped_fails,
}
use hardware_arpi.Gralloc.Lock.Faults.{register_after_lock, unlock-register_faults}
use hardware_arpi.Gralloc.Calls.{
  initial, run, locks, unlocks, registers, HoldsAfter, AllConsistent, run-initial-AllConsistent,
}
use hardware_arpi.Gralloc.Ycbcr.{Ycbcr, ycbcr_layout, gbm_lock_ycbcr}
use hardware_arpi.Gralloc.Ycbcr.Refused.{lock_ycbcr_leaves_locked}

abbrev pub handle_of : PixelFormat → PrivateHandle
handle_of f = record {
  fd = pos 5;
  width = 64;
  height = 32;
  format = f;
  stride = 64;
  usage = bit_or cpu_read_often cpu_write_often;
}

abbrev pub memory_of : PixelFormat → ℕ → PrivateHandle
memory_of f h = handle_of f

-- A process that has registered the handle 100.
abbrev pub with_buffer : PixelFormat → Gralloc
with_buffer f = record {
  memory = memory_of f;
  handle_map = (100, some 7) ∷ [];
  live = 7 ∷ [];
  user_data = λ bo. none;
}

abbrev mapped_data : BoData
mapped_data = record { map_data = some 9; lock_count = 1; locked_for = cpu_read_often }

abbrev with_mapping : Gralloc
with_mapping = record (with_buffer ycbcr_420_888) { user_data = λ bo. some mapped_data }

-- A process where the handle 100 was looked up before it was registered.
abbrev with_stale : Gralloc
with_stale = record (initial (memory_of rgba_8888)) { handle_map = (100, none) ∷ [] }

abbrev pub map_any : BoMapper
map_any bo request = some (0x1000, 9)

abbrev pub import_any : ImportData → Option NewBo
import_any d = some (record { address = 7; bo_fd = pos 5; bo_stride = 256 })

abbrev pub create_any : CreateRequest → Option NewBo
create_any r = some (record { address = 8; bo_fd = pos 6; bo_stride = 256 })

run-initial-AllConsistent_example : HoldsAfter AllConsistent (
    run (initial (memory_of ycbcr_420_888)) (
      registers import_any 100
      ∷ locks map_any 100 cpu_read_often (pos 0) (pos 0) (pos 0) (pos 0)
      ∷ unlocks 100
      ∷ []))
run-initial-AllConsistent_example = run-initial-AllConsistent (memory_of ycbcr_420_888) (
    registers import_any 100
    ∷ locks map_any 100 cpu_read_often (pos 0) (pos 0) (pos 0) (pos 0)
    ∷ unlocks 100
    ∷ [])

abbrev locked : Gralloc
locked =
    (gbm_lock map_any (with_buffer ycbcr_420_888) 100 cpu_read_often (pos 0) (pos 0) (pos 64)
      (pos 32)).0

unlock-lock_example :
    (gbm_unlock locked 100 ≡ returns (set_data locked 7 fresh_data, pos 0))
    × (locked.memory ≡ memory_of ycbcr_420_888)
    × (locked.handle_map ≡ (100, some 7) ∷ [])
    × (locked.live ≡ 7 ∷ [])
unfolding gbm_lock find is_compatible count_lock
unlock-lock_example =
    unlock-lock map_any (with_buffer ycbcr_420_888) 100 7 cpu_read_often (pos 0) (pos 0) (pos 64)
      (pos 32) refl fresh-IsConsistent refl

mapped-IsConsistent : IsConsistent mapped_data
mapped-IsConsistent = ground arith

lock_mapped_fails_example :
    let (g', status, address) =
      gbm_lock map_any with_mapping 100 cpu_write_often (pos 0) (pos 0) (pos 0) (pos 0) in
    (is_zero status ≡ false) × (address ≡ none) × (g' ≡ with_mapping)
unfolding find
lock_mapped_fails_example =
    lock_mapped_fails map_any with_mapping 100 7 cpu_write_often (pos 0) (pos 0) (pos 0) (pos 0)
      refl mapped-IsConsistent (ground arith)

register_after_lock_example :
    let (g', status, address) =
      gbm_lock map_any
        (initial (memory_of rgba_8888))
        100
        cpu_read_often
        (pos 0)
        (pos 0)
        (pos 0)
        (pos 0) in
    (status ≡ einval)
    × (gbm_unlock (initial (memory_of rgba_8888)) 100 ≡ returns (g', einval))
    × (gbm_register import_any g' 100 ≡ (g', einval))
unfolding find
register_after_lock_example =
    register_after_lock map_any import_any (initial (memory_of rgba_8888)) 100 cpu_read_often
      (pos 0) (pos 0) (pos 0) (pos 0) refl

unregister-register_example :
    SameOwnership
      (initial (memory_of rgba_8888))
      (gbm_unregister (gbm_register import_any (initial (memory_of rgba_8888)) 100).0 100).0
unfolding gbm_register find
unregister-register_example =
    unregister-register import_any (initial (memory_of rgba_8888)) 100 refl

freed_allocation : SameOwnership (initial (memory_of rgba_8888)) (
    gbm_free
      (gbm_alloc create_any 12 (initial (memory_of rgba_8888)) 100 64 32 rgba_8888 gpu_texture).0
      100)
unfolding gbm_alloc find get_bpp
freed_allocation =
    free-alloc create_any 12 (initial (memory_of rgba_8888)) 100 64 32 rgba_8888 gpu_texture 64 refl
      refl

alloc_stale_leaks_example :
    let (g', status, made) = gbm_alloc create_any 12 with_stale 100 64 32 rgba_8888 gpu_texture in
    (status ≡ pos 0) × (made ≡ some (100, 64)) × ((gbm_free g' 100).live ≡ 8 ∷ [])
unfolding find get_bpp
alloc_stale_leaks_example =
    alloc_stale_leaks create_any 12 with_stale 100 64 32 rgba_8888 gpu_texture
      record { address = 8; bo_fd = pos 6; bo_stride = 256 } refl refl (λ d. refl)

freed_unregistered :
    gbm_register import_any (gbm_free (initial (memory_of rgba_8888)) 100) 100
    ≡ (gbm_free (initial (memory_of rgba_8888)) 100, einval)
unfolding find
freed_unregistered = register_after_free import_any (initial (memory_of rgba_8888)) 100 refl

abbrev refused : Gralloc × ℤ × Option Ycbcr
refused =
    gbm_lock_ycbcr map_any (with_buffer rgba_8888) 100 cpu_read_often (pos 0) (pos 0) (pos 0)
      (pos 0)

lock_ycbcr_leaves_locked_example :
    (refused.1 ≡ einval)
    × (refused.2 ≡ none)
    × ((data_or_fresh (refused.0.user_data 7)).lock_count ≡ 1)
    × (is_zero (gbm_lock map_any refused.0 100 2 (pos 0) (pos 0) (pos 0) (pos 0)).1 ≡ false)
    × ((gbm_lock map_any refused.0 100 2 (pos 0) (pos 0) (pos 0) (pos 0)).0 ≡ refused.0)
    × (gbm_unlock refused.0 100 ≡ returns (set_data refused.0 7 fresh_data, pos 0))
unfolding gbm_lock ycbcr_layout find is_compatible
lock_ycbcr_leaves_locked_example =
    lock_ycbcr_leaves_locked map_any (with_buffer rgba_8888) 100 7 cpu_read_often (pos 0) (pos 0)
      (pos 0) (pos 0) refl fresh-IsConsistent map_any 2 (pos 0) (pos 0) (pos 0) (pos 0)
      (λ addr. refl) (ground arith) refl

unlock-register_faults_example :
    let g' = (gbm_register import_any (initial (memory_of rgba_8888)) 100).0 in
    (gbm_unlock g' 100 ≡ faults)
    × ((gbm_unlock (gbm_lock map_any g' 100 2 (pos 0) (pos 0) (pos 0) (pos 0)).0 100 ≡ faults)
        ↔ (is_allowed (g'.memory 100).usage 2 ≡ false))
unfolding gbm_register find
unlock-register_faults_example =
    unlock-register_faults import_any map_any (initial (memory_of rgba_8888)) 100 2 (pos 0) (pos 0)
      (pos 0) (pos 0) refl

-- A buffer that was registered and never locked cannot be unlocked.
unlock_never_locked : gbm_unlock (with_buffer rgba_8888) 100 ≡ faults
unfolding gbm_unlock find
unlock_never_locked = refl

-- A module whose device is not open yet.
abbrev closed_module : Module
closed_module = record { gralloc = initial (memory_of ycbcr_420_888); opened = false; rhandle = 0 }

-- GRALLOC_USAGE_SW_READ_OFTEN.
module_unlock-lock_ycbcr_example :
    (m : Module) × (module_unlock
        (lock_ycbcr true import_any map_any closed_module 100 3 (pos 0) (pos 0) (pos 0) (pos 0)).0
        100
      ≡ returns (m, pos 0))
    × (m.rhandle ≡ 0)
    × SameOwnership (initial (memory_of ycbcr_420_888)) m.gralloc
unfolding lock_ycbcr gbm_mod_register convert_usage gbm_register gbm_lock_ycbcr ycbcr_layout
    gbm_lock find emplace add_bo is_compatible gbm_mod_init
module_unlock-lock_ycbcr_example =
    module_unlock-lock_ycbcr true import_any map_any closed_module 100 3 (pos 0) (pos 0) (pos 0)
      (pos 0) refl refl
