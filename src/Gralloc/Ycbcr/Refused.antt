-- ===== src/Gralloc/Ycbcr/Refused.antt =====
-- What gbm_lock_ycbcr leaves where it refuses the format.
use hardware_arpi.Base.{ℕ, ◌+◌, ◌≡◌, ◌≢◌, refl, false, Option, none, some, ==-refl, bit_and, arith}
use hardware_arpi.Base.Int.{ℤ, pos, is_zero}
use hardware_arpi.Platform.{einval, cpu_access}
use hardware_arpi.Gralloc.Buffers.{Gralloc, BoData}
use hardware_arpi.Gralloc.Buffers.Map.{find}
use hardware_arpi.Gralloc.Lock.{
  returns, BoMapper, data_or_fresh, set_data, lock_data, lock_data_cases, count_lock, lock_cases,
  gbm_lock, gbm_unlock,
}
use hardware_arpi.Gralloc.Lock.Bytes.{cpu_or_left}
use hardware_arpi.Gralloc.Lock.Session.{
  IsConsistent, lock_data-IsConsistent, unlock-lock, lock_mapped_fails,
}
use hardware_arpi.Gralloc.Ycbcr.{ycbcr_layout, gbm_lock_ycbcr}

-- A lock with CPU access that succeeds counts, and leaves a mapping.
abbrev IsMapped : BoData → BoData → Type 0
IsMapped before after = (after.lock_count ≡ before.lock_count + 1) × (after.map_data ≢ none)

lock_data-IsMapped :
    (mapped : Option (ℕ × ℕ)) (d : BoData) (held u : ℕ)
    → bit_and u cpu_access ≢ 0
    → (lock_data mapped d held u).1 ≡ pos 0
    → IsMapped d (lock_data mapped d held u).0
unfolding count_lock
lock_data-IsMapped mapped d held u cpu =
    lock_data_cases (λ r. r.1 ≡ pos 0 → IsMapped d r.0) mapped d held u
      (λ err e z. absurd (ground (arith, e, z)))
      (λ granted no_cpu. absurd (ground (arith, cpu, cpu_or_left u held, no_cpu)))
      (λ address token granted k unmapped m z. (refl, ground arith))

module _ (bo_map : BoMapper) (g : Gralloc) (h bo u : ℕ) (x y w hgt : ℤ)
    (known : find h g.handle_map ≡ some (some bo))
    (v : IsConsistent (data_or_fresh (g.user_data bo))) where
  abbrev before : BoData
  before = data_or_fresh (g.user_data bo)

  gbm_lock-IsMapped :
      bit_and u cpu_access ≢ 0
      → let (g', status, address) = gbm_lock bo_map g h u x y w hgt in
        status ≡ pos 0
        → IsMapped before (data_or_fresh (g'.user_data bo))
          × IsConsistent (data_or_fresh (g'.user_data bo))
          × (g'.handle_map ≡ g.handle_map)
  unfolding set_data
  gbm_lock-IsMapped cpu =
      lock_cases
        (λ r.
          r.1 ≡ pos 0
          → IsMapped before (data_or_fresh (r.0.user_data bo))
            × IsConsistent (data_or_fresh (r.0.user_data bo))
            × (r.0.handle_map ≡ g.handle_map))
        bo_map g h bo u x y w hgt known (λ e. absurd (ground (arith, e)))
        λ mapped e. rw (==-refl bo) (
          lock_data-IsMapped mapped before _ u cpu e,
          lock_data-IsConsistent mapped before u v,
          refl,
        )

  -- Where the lock inside gbm_lock_ycbcr of a registered buffer with consistent lock data succeeds with
  -- CPU access, and the format has no YCbCr layout: the call fails, the buffer is locked once more than
  -- before, every gbm_lock of it that follows fails and changes nothing, and an unlock gives the object
  -- its data back.
  pub lock_ycbcr_leaves_locked :
      (bo_map' : BoMapper) (u' : ℕ) (x' y' w' hgt' : ℤ)
      → ((addr : ℕ)
          → ycbcr_layout (g.memory h).format addr (g.memory h).width (g.memory h).height ≡ none)
      → bit_and u cpu_access ≢ 0
      → (gbm_lock bo_map g h u x y w hgt).1 ≡ pos 0
      → let (g', status, layout) = gbm_lock_ycbcr bo_map g h u x y w hgt in
        (status ≡ einval)
        × (layout ≡ none)
        × ((data_or_fresh (g'.user_data bo)).lock_count
            ≡ (data_or_fresh (g.user_data bo)).lock_count + 1)
        × (is_zero (gbm_lock bo_map' g' h u' x' y' w' hgt').1 ≡ false)
        × ((gbm_lock bo_map' g' h u' x' y' w' hgt').0 ≡ g')
        × (gbm_unlock g' h ≡ returns (set_data g' bo (data_or_fresh (g.user_data bo)), pos 0))
  unfolding gbm_lock_ycbcr
  lock_ycbcr_leaves_locked bo_map' u' x' y' w' hgt' no_layout cpu e =
      let g' = (gbm_lock bo_map g h u x y w hgt).0 in
      let ((counted, busy), v', same) = gbm_lock-IsMapped cpu e in
      let (fails, no_address, unchanged) =
        lock_mapped_fails bo_map' g' h bo u' x' y' w' hgt' (rw same known) v' busy in
      rw (e, no_layout _)
        (refl, refl, counted, fails, unchanged, (unlock-lock bo_map g h bo u x y w hgt known v e).0)
