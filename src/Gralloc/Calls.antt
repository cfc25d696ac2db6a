-- ===== src/Gralloc/Calls.antt =====
-- Every sequence of calls into graphics/common/gbm_gralloc.cpp, each with the answers that libgbm
-- gives during it.
pub mod Safety
pub mod Leaks
use hardware_arpi.Base.{ℕ, ◌≡◌, refl, inl, inr, Option, none, some, List, [], ◌∷◌, Bool-cases, ◌==◌}
use hardware_arpi.Base.Int.{ℤ}
use hardware_arpi.Platform.{PixelFormat}
use hardware_arpi.Gralloc.Buffers.{
  Gralloc, PrivateHandle, BoData, NewBo, ImportData, CreateRequest, update, bo_from_handle, add_bo,
  gbm_free, gbm_register, gbm_alloc,
}
use hardware_arpi.Gralloc.Buffers.Map.{find}
use hardware_arpi.Gralloc.Buffers.Ownership.{register_cases, alloc_cases}
use hardware_arpi.Gralloc.Lock.{
  Outcome, returns, faults, BoMapper, data_or_fresh, set_data, lock_cases, unlock_bo, gbm_lock,
  gbm_unlock,
}
use hardware_arpi.Gralloc.Lock.Session.{
  IsConsistent, fresh-IsConsistent, unlock_data-IsConsistent, lock_data-IsConsistent,
}

pub data Call : Type 0 where
  locks : BoMapper → ℕ → ℕ → ℤ → ℤ → ℤ → ℤ → Call
  unlocks : ℕ → Call
  registers : (ImportData → Option NewBo) → ℕ → Call
  frees : ℕ → Call
  allocates : (CreateRequest → Option NewBo) → ℕ → ℕ → ℕ → ℕ → PixelFormat → ℕ → Call

abbrev pub state_of {ℓ} : {A : Type ℓ} → Outcome (Gralloc × A) → Outcome Gralloc
state_of (returns r) = returns r.0
state_of faults = faults

unfoldable pub step : Gralloc → Call → Outcome Gralloc
step g (locks bo_map h u x y w hgt) = returns (gbm_lock bo_map g h u x y w hgt).0
step g (unlocks h) = state_of (gbm_unlock g h)
step g (registers bo_import h) = returns (gbm_register bo_import g h).0
step g (frees h) = returns (gbm_free g h)
step g (allocates bo_new errno addr w h f u) = returns (gbm_alloc bo_new errno g addr w h f u).0

-- A fault ends the process.
unfoldable pub run : Gralloc → List Call → Outcome Gralloc
run g [] = returns g
run g (c ∷ cs) = elim (step g c) [ faults ↦ faults | returns g' ↦ run g' cs ]

-- The lock data of every object is consistent.
abbrev pub AllConsistent : Gralloc → Type 0
AllConsistent g = (bo : ℕ) → IsConsistent (data_or_fresh (g.user_data bo))

-- What a call returns, if it returns, has the property.
abbrev pub HoldsAfter {ℓ} : (Gralloc → Type ℓ) → Outcome Gralloc → Type ℓ
HoldsAfter P (returns g) = P g
HoldsAfter P faults = Unit

-- What is asked of every call of a sequence, in the state that it is made in.
abbrev pub Along : (Gralloc → Call → Type 0) → Gralloc → List Call → Type 0
Along Q g [] = Unit {0}
Along Q g (c ∷ cs) = Q g c × HoldsAfter (λ g'. Along Q g' cs) (step g c)

module _ (P : Gralloc → Type 0) (Q : Gralloc → Call → Type 0)
    (keep : (g : Gralloc) (c : Call) → Q g c → P g → HoldsAfter P (step g c)) where
  -- What every call keeps that meets the condition, a sequence of such calls keeps.
  pub run_keeps : (g : Gralloc) (cs : List Call) → Along Q g cs → P g → HoldsAfter P (run g cs)
  unfolding run
  run_keeps g [] q v = v
  run_keeps g (c ∷ cs) q v = after (step g c) q.1 (keep g c q.0 v) (λ g' k h. run_keeps g' cs k h)
    where
      after :
          (o : Outcome Gralloc)
          → HoldsAfter (λ g'. Along Q g' cs) o
          → HoldsAfter P o
          → ((g' : Gralloc) → Along Q g' cs → P g' → HoldsAfter P (run g' cs))
          → HoldsAfter P (elim o [ faults ↦ faults | returns g' ↦ run g' cs ])
      after faults k h rest = tt
      after (returns g') k h rest = rest g' k h

module _ (Q : Gralloc → Call → Type 0) where
  pub always-Along :
      ((g : Gralloc) (c : Call) → Q g c) → (g : Gralloc) (cs : List Call) → Along Q g cs
  always-Along all g [] = tt
  always-Along all g (c ∷ cs) = (all g c, after (step g c) (λ g'. always-Along all g' cs))
    where
      after :
          (o : Outcome Gralloc)
          → ((g' : Gralloc) → Along Q g' cs)
          → HoldsAfter (λ g'. Along Q g' cs) o
      after faults rest = tt
      after (returns g') rest = rest g'

update-AllConsistent :
    (f : ℕ → Option BoData) (bo : ℕ) (d : Option BoData)
    → ((b : ℕ) → IsConsistent (data_or_fresh (f b)))
    → IsConsistent (data_or_fresh d)
    → (b : ℕ) → IsConsistent (data_or_fresh (update f bo d b))
update-AllConsistent f bo d v k b = elim (Bool-cases (bo == b)) [
  | inl e ↦ rw e k
  | inr e ↦ rw e (v b)
]

module _ (g : Gralloc) (v : AllConsistent g) where
  lock_step :
      (bo_map : BoMapper) (h u : ℕ) (x y w hgt : ℤ) (o : Option (Option ℕ))
      → find h g.handle_map ≡ o
      → AllConsistent (gbm_lock bo_map g h u x y w hgt).0
  unfolding gbm_lock set_data
  lock_step bo_map h u x y w hgt none e = rw (e, bo_from_handle) v
  lock_step bo_map h u x y w hgt (some none) e = rw (e, bo_from_handle) v
  lock_step bo_map h u x y w hgt (some (some bo)) e =
      lock_cases (λ r. AllConsistent r.0) bo_map g h bo u x y w hgt e v
        (λ mapped.
          update-AllConsistent g.user_data bo _ v
            (lock_data-IsConsistent mapped (data_or_fresh (g.user_data bo)) u (v bo)))

  unlock_bo_step :
      (g' : Gralloc) (bo : ℕ) (o : Option BoData)
      → g'.user_data bo ≡ o
      → AllConsistent g'
      → HoldsAfter AllConsistent (state_of (unlock_bo g' bo))
  unfolding unlock_bo set_data
  unlock_bo_step g' bo none e v' = rw (e, unlock_bo) tt
  unlock_bo_step g' bo (some d) e v' =
      rw (e, unlock_bo)
        (update-AllConsistent g'.user_data bo _ v' (unlock_data-IsConsistent d (rw e at (v' bo))))

  unlock_step :
      (h : ℕ) (o : Option (Option ℕ))
      → find h g.handle_map ≡ o
      → HoldsAfter AllConsistent (state_of (gbm_unlock g h))
  unfolding gbm_unlock
  unlock_step h none e = rw (e, bo_from_handle) v
  unlock_step h (some none) e = rw (e, bo_from_handle) v
  unlock_step h (some (some bo)) e = rw (e, bo_from_handle) (unlock_bo_step g bo _ refl v)

  free_step :
      (h : ℕ) (o : Option (Option ℕ)) → find h g.handle_map ≡ o → AllConsistent (gbm_free g h)
  unfolding gbm_free
  free_step h none e = rw (e, bo_from_handle) v
  free_step h (some none) e = rw (e, bo_from_handle) v
  free_step h (some (some bo)) e =
      rw (e, bo_from_handle) (update-AllConsistent g.user_data bo none v fresh-IsConsistent)

-- Every call that returns keeps the lock data of every object consistent.
pub step-AllConsistent :
    (g : Gralloc) (c : Call) → AllConsistent g → HoldsAfter AllConsistent (step g c)
unfolding step add_bo
step-AllConsistent g (locks bo_map h u x y w hgt) v = lock_step g v bo_map h u x y w hgt _ refl
step-AllConsistent g (unlocks h) v = unlock_step g v h _ refl
step-AllConsistent g (registers bo_import h) v =
    register_cases (λ r. AllConsistent r.0) bo_import g h v
      (λ d bo given e. update-AllConsistent g.user_data bo.address none v fresh-IsConsistent)
step-AllConsistent g (frees h) v = free_step g v h _ refl
step-AllConsistent g (allocates bo_new errno addr w h f u) v =
    alloc_cases (λ r. AllConsistent r.0) bo_new errno g addr w h f u (λ m status. v)
      (λ m d bo given. update-AllConsistent g.user_data bo.address none v fresh-IsConsistent)

-- The state of a process that has made no call.
abbrev pub initial : (ℕ → PrivateHandle) → Gralloc
initial m = record { memory = m; handle_map = []; live = []; user_data = λ bo. none }

-- After any sequence of calls of a process, with any answers of libgbm, each object is mapped exactly
-- while it is locked with CPU access, and then it is locked once; an object that is not locked has no
-- mapping and no usage. (A sequence that faults has no state after it.)
pub run-initial-AllConsistent :
    (m : ℕ → PrivateHandle) (cs : List Call) → HoldsAfter AllConsistent (run (initial m) cs)
run-initial-AllConsistent m cs =
    let keep =
      λ (g : Gralloc) (c : Call) (q : Unit {0}) (v : AllConsistent g). step-AllConsistent g c v in
    run_keeps AllConsistent (λ g c. Unit {0}) keep (initial m) cs
      (always-Along (λ g c. Unit {0}) (λ g c. tt) (initial m) cs) (λ bo. fresh-IsConsistent)
