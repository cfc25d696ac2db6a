-- ===== src/Gralloc/Calls/Leaks.antt =====
-- Which buffer objects are left without a handle, over sequences of calls into
-- graphics/common/gbm_gralloc.cpp.
use hardware_arpi.Base.{
  ℕ, ◌+◌, ◌≡◌, refl, inl, inr, Option, none, some, List, [], ◌∷◌, Bool-cases, ◌==◌, arith,
  if◌then◌else◌, ◌≢◌,
}
use hardware_arpi.Base.Ids.{count}
use hardware_arpi.Base.Int.{ℤ}
use hardware_arpi.Gralloc.Buffers.{
  Gralloc, PrivateHandle, BoData, NewBo, bo_from_handle, add_bo, gbm_free,
}
use hardware_arpi.Gralloc.Buffers.Map.{BoMap, find, emplace, erase, find-erase, erase_missing}
use hardware_arpi.Gralloc.Buffers.Ownership.{register_cases, alloc_cases, count-drop_bo}
use hardware_arpi.Gralloc.Lock.{BoMapper, set_data, lock_cases, unlock_bo, gbm_lock, gbm_unlock}
use hardware_arpi.Gralloc.Calls.{
  Call, locks, unlocks, registers, frees, allocates, state_of, step, run, HoldsAfter, initial,
  Along, run_keeps,
}
use hardware_arpi.Gralloc.Calls.Safety.{named}

abbrev KeysDistinct : BoMap → Type 0
KeysDistinct [] = Unit {0}
KeysDistinct ((k, o) ∷ m) = (find k m ≡ none) × KeysDistinct m

-- Every handle has one entry, and every object that is alive is named by as many handles as it is
-- alive.
pub record IsNamed (g : Gralloc) : Type 0 where
  pub keys : KeysDistinct g.handle_map
  pub exact : (b : ℕ) → named b g.handle_map ≡ count b g.live

-- An allocation returns a handle at an address that has no entry.
abbrev pub IsNew : Gralloc → Call → Type 0
IsNew g (locks bo_map h u x y w hgt) = Unit {0}
IsNew g (unlocks h) = Unit {0}
IsNew g (registers bo_import h) = Unit {0}
IsNew g (frees h) = Unit {0}
IsNew g (allocates bo_new errno addr w h f u) = find addr g.handle_map ≡ none

KeysDistinct-erase : (h : ℕ) (m : BoMap) → KeysDistinct m → KeysDistinct (erase h m)
unfolding erase
KeysDistinct-erase h [] d = tt
KeysDistinct-erase h ((k, o) ∷ m) (f, d) = elim (Bool-cases (k == h)) [
  | inl e ↦ rw e (KeysDistinct-erase h m d)
  | inr e ↦ rw e (ground (arith, find-erase h k m, f, e), KeysDistinct-erase h m d)
]

named-erase_eq :
    (b h bo : ℕ) (m : BoMap)
    → KeysDistinct m
    → find h m ≡ some (some bo)
    → named b (erase h m) + (if bo == b then 1 else 0) ≡ named b m
unfolding named erase find
named-erase_eq b h bo [] d e = ground (arith, e)
named-erase_eq b h bo ((k, none) ∷ m) (f, d) e = ground (arith, e, named-erase_eq b h bo m d)
named-erase_eq b h bo ((k, some c) ∷ m) (f, d) e = elim (Bool-cases (k == h)) [
  | inl p ↦
      let same : k ≡ h = ground (arith, p) in
      let gone : find h m ≡ none = rw (← same) f in
      let found : c ≡ bo = ground (arith, p, e) in
      rw (p, erase_missing h m gone, found) (omega arith)
  | inr p ↦ ground (arith, e, p, named-erase_eq b h bo m d)
]

named-some : (bo h : ℕ) (m : BoMap) → find h m ≡ some (some bo) → named bo m ≢ 0
unfolding named find
named-some bo h [] e = ground (arith, e)
named-some bo h ((k, none) ∷ m) e = ground (arith, e, named-some bo h m)
named-some bo h ((k, some c) ∷ m) e = ground (arith, e, named-some bo h m)

module _ (g : Gralloc) (v : IsNamed g) where
  add-IsNamed : (h : ℕ) (bo : NewBo) → find h g.handle_map ≡ none → IsNamed (add_bo g h bo)
  unfolding add_bo count emplace named
  add-IsNamed h bo fresh = record {
    keys = rw (fresh, emplace) (fresh, v.keys);
    exact = λ b. rw (fresh, emplace) (ground (arith, v.exact b));
  }

  look-IsNamed :
      (h : ℕ)
      → find h g.handle_map ≡ none
      → IsNamed (record g { handle_map = (h, none) ∷ g.handle_map })
  unfolding named
  look-IsNamed h e = record { keys = (e, v.keys); exact = v.exact }

  free-IsNamed : (h : ℕ) (o : Option (Option ℕ)) → find h g.handle_map ≡ o → IsNamed (gbm_free g h)
  unfolding gbm_free
  free-IsNamed h none e = rw (e, bo_from_handle) (look-IsNamed h e)
  free-IsNamed h (some none) e = rw (e, bo_from_handle) v
  free-IsNamed h (some (some bo)) e =
      rw (e, bo_from_handle)
        record {
          keys = KeysDistinct-erase h g.handle_map v.keys;
          exact = λ b. ground (
            arith,
            named-erase_eq b h bo g.handle_map v.keys e,
            named-some bo h g.handle_map e,
            count-drop_bo b bo g.live,
            v.exact b,
            v.exact bo,
          );
        }

  lock-IsNamed :
      (bo_map : BoMapper) (h u : ℕ) (x y w hgt : ℤ) (o : Option (Option ℕ))
      → find h g.handle_map ≡ o
      → IsNamed (gbm_lock bo_map g h u x y w hgt).0
  unfolding gbm_lock set_data
  lock-IsNamed bo_map h u x y w hgt none e = rw (e, bo_from_handle) (look-IsNamed h e)
  lock-IsNamed bo_map h u x y w hgt (some none) e = rw (e, bo_from_handle) v
  lock-IsNamed bo_map h u x y w hgt (some (some bo)) e =
      lock_cases (λ r. IsNamed r.0) bo_map g h bo u x y w hgt e v
        (λ mapped. record { keys = v.keys; exact = v.exact })

  unlock_bo-IsNamed :
      (bo : ℕ) (o : Option BoData)
      → g.user_data bo ≡ o
      → HoldsAfter IsNamed (state_of (unlock_bo g bo))
  unfolding unlock_bo set_data
  unlock_bo-IsNamed bo none e = rw (e, unlock_bo) tt
  unlock_bo-IsNamed bo (some d) e = rw (e, unlock_bo) record { keys = v.keys; exact = v.exact }

  unlock-IsNamed :
      (h : ℕ) (o : Option (Option ℕ))
      → find h g.handle_map ≡ o
      → HoldsAfter IsNamed (state_of (gbm_unlock g h))
  unfolding gbm_unlock
  unlock-IsNamed h none e = rw (e, bo_from_handle) (look-IsNamed h e)
  unlock-IsNamed h (some none) e = rw (e, bo_from_handle) v
  unlock-IsNamed h (some (some bo)) e = rw (e, bo_from_handle) (unlock_bo-IsNamed bo _ refl)

step-IsNamed : (g : Gralloc) (c : Call) → IsNew g c → IsNamed g → HoldsAfter IsNamed (step g c)
unfolding step
step-IsNamed g (locks bo_map h u x y w hgt) n v = lock-IsNamed g v bo_map h u x y w hgt _ refl
step-IsNamed g (unlocks h) n v = unlock-IsNamed g v h _ refl
step-IsNamed g (registers bo_import h) n v =
    register_cases (λ r. IsNamed r.0) bo_import g h v (λ d bo given e. add-IsNamed g v h bo e)
step-IsNamed g (frees h) n v = free-IsNamed g v h _ refl
step-IsNamed g (allocates bo_new errno addr w h f u) n v =
    alloc_cases (λ r. IsNamed r.0) bo_new errno g addr w h f u
      (λ m status. record { keys = v.keys; exact = v.exact })
      (λ m d bo given.
        add-IsNamed (record g { memory = m }) (record { keys = v.keys; exact = v.exact }) addr bo n)

-- Over any sequence of calls of a process in which allocations return handles at addresses without
-- an entry, every object that is alive is named by as many handles as it was given out without being
-- destroyed: none is left behind. (A sequence that faults has no state after it.)
pub run-initial-IsNamed :
    (m : ℕ → PrivateHandle) (cs : List Call)
    → Along IsNew (initial m) cs
    → HoldsAfter IsNamed (run (initial m) cs)
unfolding named count
run-initial-IsNamed m cs n =
    run_keeps IsNamed IsNew step-IsNamed (initial m) cs n (record { keys = tt; exact = λ b. refl })
