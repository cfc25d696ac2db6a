-- ===== src/Gralloc/Lock/Session.antt =====
-- The life of one object's lock data under gbm_lock and gbm_unlock.
use hardware_arpi.Base.{
  ℕ, ◌%◌, ◌^◌, ◌<◌, ◌≡◌, refl, ◌≢◌, false, Option, none, some, bit_and, bit_or, arith, ==-refl, ap,
  sym, Bool-cases, inl, inr, ◌==◌, ◌∙◌,
}
use mathlib.Core.Path.{fun_ext}
use hardware_arpi.Base.Int.{ℤ, pos, is_zero}
use hardware_arpi.Platform.{sign_extend, cpu_access}
use hardware_arpi.Gralloc.Buffers.{BoData, Gralloc, bo_from_handle_known, update}
use hardware_arpi.Gralloc.Buffers.Map.{find}
use hardware_arpi.Gralloc.Lock.{
  returns, BoMapper, lock_data_cases, count_lock, is_compatible, fresh_data, data_or_fresh,
  set_data, lock_data, unlock_data, unlock_bo, lock_cases, gbm_lock, gbm_unlock,
}
use hardware_arpi.Gralloc.Lock.Bytes.{
  cpu_or_zero, cpu_or_right, cpu_low_word, sign_extend_low_word, cpu-sign_extend, or_granted,
}

-- A buffer is mapped exactly while it is locked with CPU access, and then locked once.
pub record IsConsistent (d : BoData) : Type 0 where
  pub unlocked_free : d.lock_count ≡ 0 → d.locked_for ≡ 0
  pub unlocked_unmapped : d.lock_count ≡ 0 → d.map_data ≡ none
  pub mapped_cpu : d.map_data ≢ none → bit_and d.locked_for cpu_access ≢ 0
  pub cpu_mapped : bit_and d.locked_for cpu_access ≢ 0 → d.map_data ≢ none
  pub mapped_once : d.map_data ≢ none → d.lock_count ≡ 1
  pub is_word : d.locked_for < 2 ^ 32

pub fresh-IsConsistent : IsConsistent fresh_data
fresh-IsConsistent = ground arith

-- The facts about `held` that the proofs below need, once and for all.
record Holds (d : BoData) (held : ℕ) : Type 0 where
  same_cpu : bit_and held cpu_access ≡ bit_and d.locked_for cpu_access
  low_word : held % 2 ^ 32 ≡ d.locked_for

sign_extend-Holds : (d : BoData) → d.locked_for < 2 ^ 32 → Holds d (sign_extend d.locked_for)
sign_extend-Holds d h = record {
  same_cpu = cpu-sign_extend d.locked_for h;
  low_word = sign_extend_low_word d.locked_for h;
}

module _ (mapped : Option (ℕ × ℕ)) (d : BoData) (held u : ℕ) (v : IsConsistent d)
    (k : Holds d held) where
  lock_keeps : IsConsistent (lock_data mapped d held u).0
  unfolding count_lock is_compatible
  lock_keeps =
      lock_data_cases (λ r. IsConsistent r.0) mapped d held u (λ err e. v)
        (λ granted no_cpu. ground (
          arith,
          k,
          cpu_low_word (bit_or held (bit_or u held)),
          cpu_or_right u held,
          cpu_or_zero held (bit_or u held),
        ))
        (λ address token granted cpu unmapped m. ground (
          arith,
          k,
          cpu_low_word (bit_or held (bit_or u held)),
          cpu_or_right held (bit_or u held),
          or_granted held u,
        ))

  unlock_restores :
      (lock_data mapped d held u).1 ≡ pos 0 → unlock_data (lock_data mapped d held u).0 ≡ d
  unfolding count_lock is_compatible unlock_data
  unlock_restores =
      lock_data_cases (λ r. r.1 ≡ pos 0 → unlock_data r.0 ≡ d) mapped d held u
        (λ err e z. ground arith)
        (λ granted no_cpu z. ground (
          arith,
          k,
          v,
          cpu_low_word (bit_or held (bit_or u held)),
          cpu_or_right u held,
          cpu_or_zero held (bit_or u held),
          or_granted held u,
        ))
        (λ address token granted cpu unmapped m z. ground (
          arith,
          k,
          v,
          cpu_low_word (bit_or held (bit_or u held)),
          cpu_or_right held (bit_or u held),
          or_granted held u,
        ))

  mapped_refuses : d.map_data ≢ none → is_zero (lock_data mapped d held u).1 ≡ false
  mapped_refuses busy =
      lock_data_cases (λ r. is_zero r.1 ≡ false) mapped d held u (λ err e. e)
        (λ granted no_cpu. absurd (ground (arith, k, v, cpu_or_right u held)))
        (λ address token granted cpu unmapped m. absurd (busy unmapped))

  mapped_unchanged :
      d.map_data ≢ none
      → ((lock_data mapped d held u).0 ≡ d) × ((lock_data mapped d held u).2 ≡ none)
  mapped_unchanged busy =
      lock_data_cases (λ r. (r.0 ≡ d) × (r.2 ≡ none)) mapped d held u (λ err e. (refl, refl))
        (λ granted no_cpu. absurd (ground (arith, k, v, cpu_or_right u held)))
        (λ address token granted cpu unmapped m. absurd (busy unmapped))

pub lock_data-IsConsistent :
    (mapped : Option (ℕ × ℕ)) (d : BoData) (u : ℕ)
    → IsConsistent d
    → IsConsistent (lock_data mapped d (sign_extend d.locked_for) u).0
lock_data-IsConsistent mapped d u v = lock_keeps mapped d _ u v (sign_extend-Holds d v.is_word)

pub unlock_data-IsConsistent : (d : BoData) → IsConsistent d → IsConsistent (unlock_data d)
unfolding unlock_data
unlock_data-IsConsistent d v = ground arith

unlock_known :
    (g : Gralloc) (h bo : ℕ) (d : BoData)
    → find h g.handle_map ≡ some (some bo)
    → gbm_unlock (set_data g bo d) h
      ≡ returns (set_data (set_data g bo d) bo (unlock_data d), pos 0)
unfolding gbm_unlock
unlock_known g h bo d known =
    rw (bo_from_handle_known (set_data g bo d) h (some bo) known) (rw (==-refl bo, unlock_bo))

update_same :
    (f : ℕ → Option BoData) (bo : ℕ) (d : BoData)
    → f bo ≡ some d
    → (b : ℕ) → update f bo (some (data_or_fresh (f bo))) b ≡ f b
update_same f bo d e b = elim (Bool-cases (bo == b)) [
  | inl k ↦ let same : f bo ≡ f b = ap f (ground (arith, k)) in rw k (rw e (sym e ∙ same))
  | inr k ↦ rw k refl
]

-- Setting the data that an object with a mapping has changes nothing.
set_data-same :
    (g : Gralloc) (bo : ℕ) (o : Option BoData)
    → g.user_data bo ≡ o
    → (data_or_fresh (g.user_data bo)).map_data ≢ none
    → set_data g bo (data_or_fresh (g.user_data bo)) ≡ g
unfolding set_data
set_data-same g bo none e busy = absurd (busy (rw e refl))
set_data-same g bo (some d) e busy =
    ap (λ f. record g { user_data = f }) (fun_ext (λ b. update_same g.user_data bo d e b))

module _ (bo_map : BoMapper) (g : Gralloc) (h bo u : ℕ) (x y w hgt : ℤ)
    (known : find h g.handle_map ≡ some (some bo))
    (v : IsConsistent (data_or_fresh (g.user_data bo))) where
  abbrev before : BoData
  before = data_or_fresh (g.user_data bo)

  -- An unlock takes back a lock that succeeded: the object's data is as before, and no handle, no
  -- entry of the map and no object has changed.
  pub unlock-lock :
      let (g', status, address) = gbm_lock bo_map g h u x y w hgt in
      status ≡ pos 0
      → (gbm_unlock g' h ≡ returns (set_data g' bo (data_or_fresh (g.user_data bo)), pos 0))
        × (g'.memory ≡ g.memory)
        × (g'.handle_map ≡ g.handle_map)
        × (g'.live ≡ g.live)
  unfolding set_data
  unlock-lock =
      lock_cases
        (λ r.
          r.1 ≡ pos 0
          → (gbm_unlock r.0 h ≡ returns (set_data r.0 bo before, pos 0))
            × (r.0.memory ≡ g.memory)
            × (r.0.handle_map ≡ g.handle_map)
            × (r.0.live ≡ g.live))
        bo_map g h bo u x y w hgt known (λ e. absurd (ground (arith, e)))
        λ mapped e.
          let d' = (lock_data mapped before (sign_extend before.locked_for) u).0 in
          (
            unlock_known g h bo d' known
                ∙ ap (λ t. returns (set_data (set_data g bo d') bo t, pos 0))
                    (unlock_restores mapped before _ u v (sign_extend-Holds before v.is_word) e),
            refl,
            refl,
            refl,
          )

  -- A registered buffer that is mapped for the CPU, with consistent lock data, cannot be locked again,
  -- whatever the usage: the call fails, gives no address, and leaves the whole state as it is.
  pub lock_mapped_fails :
      (data_or_fresh (g.user_data bo)).map_data ≢ none
      → let (g', status, address) = gbm_lock bo_map g h u x y w hgt in
        (is_zero status ≡ false) × (address ≡ none) × (g' ≡ g)
  lock_mapped_fails busy =
      lock_cases (λ r. (is_zero r.1 ≡ false) × (r.2 ≡ none) × (r.0 ≡ g)) bo_map g h bo u x y w hgt
        known (refl, refl, refl)
        λ mapped.
          let k = sign_extend-Holds before v.is_word in
          let (same, no_address) = mapped_unchanged mapped before _ u v k busy in
          (
            mapped_refuses mapped before _ u v k busy,
            no_address,
            rw same (set_data-same g bo (g.user_data bo) refl busy),
          )
