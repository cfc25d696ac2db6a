-- ===== src/Examples/Clients.antt =====
-- The calls and the fences of the mapper.
use hardware_arpi.Base.{ℕ, ◌≡◌, refl, ◌≤◌, true, Option, some, [], ◌∷◌, arith, if◌then◌else◌}
use hardware_arpi.Base.Int.{negsuc, ℤ, pos}
use hardware_arpi.Base.Ids.{contains}
use hardware_arpi.Platform.{ycbcr_420_888, cpu_read_often}
use hardware_arpi.Gralloc.Buffers.{PrivateHandle, gbm_register}
use hardware_arpi.Gralloc.Buffers.Map.{find}
use hardware_arpi.Gralloc.Buffers.Ownership.{SameOwnership}
use hardware_arpi.Gralloc.Calls.{initial}
use hardware_arpi.Gralloc.Lock.{returns, fresh_data, set_data, gbm_lock, is_compatible, count_lock}
use hardware_arpi.Gralloc.Lock.Session.{fresh-IsConsistent}
use hardware_arpi.Mapper.Calls.{
  no_fault, import_buffer, free_buffer, FenceHandle, get_fence_fd, lock_usage, lock, unlock,
  flush_locked_buffer,
}
use hardware_arpi.Mapper.Calls.Sessions.{free_buffer-import_buffer, flush_locked_buffer-lock}
use hardware_arpi.Mapper.Fence.{
  no_fd, has_fd, flatten, unflatten, merge, latest, get_status, unsignaled, signaled, invalid,
}
use hardware_arpi.Mapper.Fence.Flattening.{unflatten-flatten}
use hardware_arpi.Mapper.Fence.Merging.{merge_asks_valid, latest_lem}
use hardware_arpi.Examples.Buffers.{memory_of, with_buffer, map_any, import_any}

-- The copy of a handle stands at 200.
abbrev pub clone_at : PrivateHandle → Option (ℕ × PrivateHandle)
clone_at hnd = some (200, hnd)

free_buffer-import_buffer_example :
    SameOwnership
      (initial (memory_of ycbcr_420_888))
      (free_buffer
        (import_buffer clone_at import_any (initial (memory_of ycbcr_420_888)) 100).0
        200).0
unfolding import_buffer gbm_register find
free_buffer-import_buffer_example =
    free_buffer-import_buffer clone_at import_any (initial (memory_of ycbcr_420_888)) 100 refl

abbrev pub dup_next : ℤ → ℤ
dup_next fd = pos 20

abbrev pub fence_handle : Option FenceHandle
fence_handle = some (record { num_fds = 1; first_fd = pos 3 })

flush_locked_buffer-lock_example :
    let g' =
      (lock dup_next map_any
        (with_buffer ycbcr_420_888)
        100
        cpu_read_often
        (pos 0)
        (pos 0)
        (pos 64)
        (pos 32)
        fence_handle).0 in
    (flush_locked_buffer g' 100 ≡ returns (set_data g' 7 fresh_data, no_fault))
    × (flush_locked_buffer g' 100 ≡ unlock g' 100)
unfolding lock gbm_lock find is_compatible count_lock get_fence_fd lock_usage
flush_locked_buffer-lock_example =
    flush_locked_buffer-lock dup_next map_any (with_buffer ycbcr_420_888) 100 7 cpu_read_often
      (pos 0) (pos 0) (pos 64) (pos 32) fence_handle refl fresh-IsConsistent refl

unflatten-flatten_example :
    let w = flatten (pos 5) 16 2 in
    let r = unflatten no_fd w.words w.fds 16 2 in
    (w.status ≡ pos 0)
    × (r.status ≡ pos 0)
    × (r.fd ≡ pos 5)
    × (r.size ≡ w.size)
    × (r.count ≡ w.count)
unfolding has_fd
unflatten-flatten_example = unflatten-flatten (pos 5) 16 2 (omega arith) (omega arith)

abbrev merge_any : ℤ → ℤ → ℤ
merge_any a b = pos 9

abbrev merge_valid : ℤ → ℤ → ℤ
merge_valid a b = if has_fd b then pos 9 else no_fd

merged_as_valid : (a b : ℤ) → has_fd a ≡ true → has_fd b ≡ true → merge_any a b ≡ merge_valid a b
merged_as_valid a b p q = rw q refl

merge_same : merge merge_any (pos 3) no_fd ≡ merge merge_valid (pos 3) no_fd
merge_same = merge_asks_valid merge_any merge_valid (pos 3) no_fd merged_as_valid

latest_found :
    (4 ≤ latest 0 (4 ∷ 9 ∷ 2 ∷ [])) × (contains (latest 0 (4 ∷ 9 ∷ 2 ∷ [])) (4 ∷ 9 ∷ 2 ∷ []) ≡ true)
unfolding contains
latest_found = latest_lem (4 ∷ 9 ∷ 2 ∷ []) 4 refl

-- A wait that times out, one that is interrupted, and none at all.
statuses_told :
    (get_status (λ fd timeout. (negsuc 0, 62)) (pos 3) ≡ unsignaled)
    × (get_status (λ fd timeout. (negsuc 0, 4)) (pos 3) ≡ invalid)
    × (get_status (λ fd timeout. (negsuc 0, 62)) no_fd ≡ signaled)
unfolding get_status has_fd
statuses_told = (refl, refl, refl)
