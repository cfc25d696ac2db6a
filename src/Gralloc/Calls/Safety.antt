-- ===== src/Gralloc/Calls/Safety.antt =====
-- The buffer objects that the handles name, and those that are alive, over sequences of calls into
-- graphics/common/gbm_gralloc.cpp.
use hardware_arpi.Base.{
  ℕ, ◌+◌, ◌≤◌, ◌≡◌, refl, Option, none, some, List, [], ◌∷◌, ◌==◌, arith, if◌then◌else◌,
}
use hardware_arpi.Base.Ids.{count}
use hardware_arpi.Base.Int.{ℤ}
use hardware_arpi.Gralloc.Buffers.{
  Gralloc, PrivateHandle, BoData, NewBo, ImportData, CreateRequest, bo_from_handle, add_bo,
  gbm_free,
}
use hardware_arpi.Gralloc.Buffers.Map.{BoMap, find, emplace, erase}
use hardware_arpi.Gralloc.Buffers.Ownership.{register_cases, alloc_cases, count-drop_bo}
use hardware_arpi.Gralloc.Lock.{BoMapper, set_data, lock_cases, unlock_bo, gbm_lock, gbm_unlock}
use hardware_arpi.Gralloc.Calls.{
  Call, locks, unlocks, registers, frees, allocates, state_of, step, run, HoldsAfter, initial,
  Along, run_keeps,
}

-- How many handles name an object.
unfoldable pub named : ℕ → BoMap → ℕ
named b [] = 0
named b ((h, none) ∷ m) = named b m
named b ((h, some bo) ∷ m) = (if bo == b then 1 else 0) + named b m

-- An object that a handle names is alive, no other handle names it, and no object is alive twice.
abbrev pub IsOwned : Gralloc → Type 0
IsOwned g = (b : ℕ) → (named b g.handle_map ≤ count b g.live) × (count b g.live ≤ 1)

-- libgbm gives out no object that is alive.
abbrev pub IsFresh : Gralloc → Call → Type 0
IsFresh g (locks bo_map h u x y w hgt) = Unit {0}
IsFresh g (unlocks h) = Unit {0}
IsFresh g (registers bo_import h) =
    (d : ImportData) (bo : NewBo) → bo_import d ≡ some bo → count bo.address g.live ≡ 0
IsFresh g (frees h) = Unit {0}
IsFresh g (allocates bo_new errno addr w h f u) =
    (d : CreateRequest) (bo : NewBo) → bo_new d ≡ some bo → count bo.address g.live ≡ 0

named-emplace :
    (b h bo : ℕ) (m : BoMap) → named b (emplace h bo m) ≤ (if bo == b then 1 else 0) + named b m
unfolding named emplace
named-emplace b h bo m = ground arith

named-erase_le : (b h : ℕ) (m : BoMap) → named b (erase h m) ≤ named b m
unfolding named erase
named-erase_le b h [] = ground arith
named-erase_le b h ((k, none) ∷ m) = ground (arith, named-erase_le b h m)
named-erase_le b h ((k, some bo) ∷ m) = ground (arith, named-erase_le b h m)

named-erase :
    (b h bo : ℕ) (m : BoMap)
    → find h m ≡ some (some bo)
    → named b (erase h m) + (if bo == b then 1 else 0) ≤ named b m
unfolding named erase find
named-erase b h bo [] e = ground (arith, e)
named-erase b h bo ((k, none) ∷ m) e = ground (arith, e, named-erase b h bo m)
named-erase b h bo ((k, some c) ∷ m) e =
    ground (arith, e, named-erase b h bo m, named-erase_le b h m)

module _ (g : Gralloc) (v : IsOwned g) where
  add-IsOwned : (h : ℕ) (bo : NewBo) → count bo.address g.live ≡ 0 → IsOwned (add_bo g h bo)
  unfolding add_bo count
  add-IsOwned h bo fresh b =
      ground (arith, named-emplace b h bo.address g.handle_map, v b, v bo.address)

  free-IsOwned : (h : ℕ) (o : Option (Option ℕ)) → find h g.handle_map ≡ o → IsOwned (gbm_free g h)
  unfolding gbm_free named
  free-IsOwned h none e = rw (e, bo_from_handle) v
  free-IsOwned h (some none) e = rw (e, bo_from_handle) v
  free-IsOwned h (some (some bo)) e =
      rw (e, bo_from_handle)
        (λ b. ground (
          arith,
          named-erase b h bo g.handle_map e,
          named-erase bo h bo g.handle_map e,
          count-drop_bo b bo g.live,
          v b,
          v bo,
        ))

  lock-IsOwned :
      (bo_map : BoMapper) (h u : ℕ) (x y w hgt : ℤ) (o : Option (Option ℕ))
      → find h g.handle_map ≡ o
      → IsOwned (gbm_lock bo_map g h u x y w hgt).0
  unfolding gbm_lock set_data named
  lock-IsOwned bo_map h u x y w hgt none e = rw (e, bo_from_handle) v
  lock-IsOwned bo_map h u x y w hgt (some none) e = rw (e, bo_from_handle) v
  lock-IsOwned bo_map h u x y w hgt (some (some bo)) e =
      lock_cases (λ r. IsOwned r.0) bo_map g h bo u x y w hgt e v (λ mapped. v)

  unlock_bo-IsOwned :
      (bo : ℕ) (o : Option BoData)
      → g.user_data bo ≡ o
      → HoldsAfter IsOwned (state_of (unlock_bo g bo))
  unfolding unlock_bo set_data
  unlock_bo-IsOwned bo none e = rw (e, unlock_bo) tt
  unlock_bo-IsOwned bo (some d) e = rw (e, unlock_bo) v

  unlock-IsOwned :
      (h : ℕ) (o : Option (Option ℕ))
      → find h g.handle_map ≡ o
      → HoldsAfter IsOwned (state_of (gbm_unlock g h))
  unfolding gbm_unlock named
  unlock-IsOwned h none e = rw (e, bo_from_handle) v
  unlock-IsOwned h (some none) e = rw (e, bo_from_handle) v
  unlock-IsOwned h (some (some bo)) e = rw (e, bo_from_handle) (unlock_bo-IsOwned bo _ refl)

step-IsOwned : (g : Gralloc) (c : Call) → IsFresh g c → IsOwned g → HoldsAfter IsOwned (step g c)
unfolding step
step-IsOwned g (locks bo_map h u x y w hgt) n v = lock-IsOwned g v bo_map h u x y w hgt _ refl
step-IsOwned g (unlocks h) n v = unlock-IsOwned g v h _ refl
step-IsOwned g (registers bo_import h) n v =
    register_cases (λ r. IsOwned r.0) bo_import g h v
      (λ d bo given e. add-IsOwned g v h bo (n d bo given))
step-IsOwned g (frees h) n v = free-IsOwned g v h _ refl
step-IsOwned g (allocates bo_new errno addr w h f u) n v =
    alloc_cases (λ r. IsOwned r.0) bo_new errno g addr w h f u (λ m status. v)
      (λ m d bo given. add-IsOwned (record g { memory = m }) v addr bo (n d bo given))

-- Over any sequence of calls of a process during which libgbm gives out no object that is still
-- alive: the object that a handle names is alive, no other handle names it, and no object is alive
-- twice. So freeing a handle never destroys an object again, nor one that another handle names. (A
-- sequence that faults has no state after it.)
pub run-initial-IsOwned :
    (m : ℕ → PrivateHandle) (cs : List Call)
    → Along IsFresh (initial m) cs
    → HoldsAfter IsOwned (run (initial m) cs)
unfolding named count
run-initial-IsOwned m cs n =
    run_keeps IsOwned IsFresh step-IsOwned (initial m) cs n (λ b. ground arith)
