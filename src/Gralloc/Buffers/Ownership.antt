-- ===== src/Gralloc/Buffers/Ownership.antt =====
-- Who owns the buffer objects: what registering, allocating and freeing do to the map and to the
-- objects that are alive.
use hardware_arpi.Base.{
  if◌then◌else◌, ℕ, ◌+◌, ◌/◌, ◌≡◌, ◌≢◌, List, [], inl, inr, Option, none, some, ◌∷◌, ◌==◌, arith,
  Bool-cases, refl, false, ==-refl, Option-cases,
}
use hardware_arpi.Base.Ids.{count}
use hardware_arpi.Base.Int.{ℤ, pos, is_negative, is_zero, sub_ℕ}
use hardware_arpi.Platform.{PixelFormat, einval}
use hardware_arpi.Gralloc.Format.{get_bpp}
use hardware_arpi.Gralloc.Buffers.Map.{
  BoMap, find, emplace, erase, erase_missing, find-erase, find-emplace,
}
use hardware_arpi.Gralloc.Buffers.{
  Gralloc, PrivateHandle, NewBo, ImportData, CreateRequest, bo_from_handle_known, drop_bo,
  bo_from_handle, add_bo, gbm_import, import_data, create_request, new_handle, gbm_free,
  gbm_register, gbm_unregister, gbm_alloc,
}

-- The map and the objects of two states are the same.
pub record SameOwnership (g g' : Gralloc) : Type 0 where
  pub same_map : g'.handle_map ≡ g.handle_map
  pub same_live : g'.live ≡ g.live

erase-emplace : (h bo : ℕ) (m : BoMap) → find h m ≡ none → erase h (emplace h bo m) ≡ m
unfolding erase emplace
erase-emplace h bo m e = ground (arith, erase_missing h m e)

-- What freeing a handle takes from the map and from the objects alive.
pub free_entries :
    (g : Gralloc) (h bo : ℕ)
    → find h g.handle_map ≡ some (some bo)
    → ((k : ℕ) → find k (gbm_free g h).handle_map ≡ (if h == k then none else find k g.handle_map))
      × ((gbm_free g h).live ≡ drop_bo bo g.live)
unfolding gbm_free
free_entries g h bo e =
    rw (bo_from_handle_known g h (some bo) e) (λ k. find-erase h k g.handle_map, refl)

-- Freeing a handle that was added, whatever happened to the object's data since.
pub free-owned :
    (g g' : Gralloc) (h bo : ℕ)
    → find h g.handle_map ≡ none
    → g'.handle_map ≡ emplace h bo g.handle_map
    → g'.live ≡ bo ∷ g.live
    → SameOwnership g (gbm_free g' h)
unfolding gbm_free
free-owned g g' h bo fresh m l =
    rw (bo_from_handle_known g' h (some bo) (rw m (find-emplace h bo g.handle_map fresh))) (record {
      same_map = rw m (erase-emplace h bo g.handle_map fresh);
      same_live = rw (l, ==-refl bo) refl;
    })

free-add :
    (g : Gralloc) (h : ℕ) (bo : NewBo)
    → find h g.handle_map ≡ none
    → SameOwnership g (gbm_free (add_bo g h bo) h)
unfolding gbm_free add_bo
free-add g h bo e =
    ground
      (arith, find-emplace h bo.address g.handle_map e, erase-emplace h bo.address g.handle_map e)

free-stale :
    (g : Gralloc) (h : ℕ) (bo : NewBo)
    → find h g.handle_map ≡ some none
    → (gbm_free (add_bo g h bo) h).live ≡ bo.address ∷ g.live
unfolding gbm_free add_bo emplace
free-stale g h bo e = rw (e, emplace) (rw (e, bo_from_handle))

pub count-drop_bo :
    (b bo : ℕ) (bs : List ℕ)
    → count bo bs ≢ 0
    → count b (drop_bo bo bs) + (if bo == b then 1 else 0) ≡ count b bs
unfolding count drop_bo
count-drop_bo b bo [] e = ground (arith, e)
count-drop_bo b bo (c ∷ cs) e = ground (arith, e, count-drop_bo b bo cs)

-- Registering fails, or adds an object that libgbm gave out, under a handle that had no entry.
pub register_cases {ℓ} :
    (P : Gralloc × ℤ → Type ℓ) (bo_import : ImportData → Option NewBo) (g : Gralloc) (h : ℕ)
    → P (g, einval)
    → ((d : ImportData) (bo : NewBo)
        → bo_import d ≡ some bo
        → find h g.handle_map ≡ none
        → P (add_bo g h bo, pos 0))
    → P (gbm_register bo_import g h)
unfolding gbm_register gbm_import
register_cases P bo_import g h failed added = elim (Bool-cases (h == 0)) [
  | inl e ↦ rw e failed
  | inr e ↦ rw e (elim (Option-cases (find h g.handle_map)) [
    | inr (bo, k) ↦ rw k failed
    | inl k ↦ rw k (elim (Bool-cases (is_negative (g.memory h).fd)) [
      | inl n ↦ rw n failed
      | inr n ↦ rw n (elim (Option-cases (bo_import (import_data (g.memory h)))) [
        | inl o ↦ rw o failed
        | inr (bo, o) ↦ rw o (added _ bo o k)
      ])
    ])
  ])
]

-- Unregistering a handle that was registered gives its object back: the map and the objects alive are
-- those from before.
pub unregister-register :
    (bo_import : ImportData → Option NewBo) (g : Gralloc) (h : ℕ)
    → let (g', status) = gbm_register bo_import g h in
      status ≡ pos 0 → SameOwnership g (gbm_unregister g' h).0
unfolding gbm_unregister
unregister-register bo_import g h =
    register_cases (λ r. r.1 ≡ pos 0 → SameOwnership g (gbm_unregister r.0 h).0) bo_import g h
      (λ e. absurd (ground (arith, e))) (λ d bo given fresh e. free-add g h bo fresh)

-- libgbm leaves an error number where it gives no object.
abbrev pub SetsErrno : (CreateRequest → Option NewBo) → ℕ → Type 0
SetsErrno bo_new errno = (d : CreateRequest) → bo_new d ≡ none → errno ≢ 0

negated_errno : (n : ℕ) → n ≢ 0 → is_zero (sub_ℕ 0 n) ≡ false
negated_errno n e = ground (arith, e)

-- Allocating makes no handle, with a status that is not 0 where libgbm leaves an error number, or adds
-- an object that libgbm gave out, under the new handle.
pub alloc_status_cases {ℓ} :
    (P : Gralloc × ℤ × Option (ℕ × ℕ) → Type ℓ) (bo_new : CreateRequest → Option NewBo) (errno : ℕ)
    (g : Gralloc) (addr w h : ℕ) (f : PixelFormat) (u : ℕ)
    → ((m : ℕ → PrivateHandle) (status : ℤ)
        → (SetsErrno bo_new errno → is_zero status ≡ false)
        → P (record g { memory = m }, status, none))
    → ((m : ℕ → PrivateHandle) (d : CreateRequest) (bo : NewBo)
        → bo_new d ≡ some bo
        → P (
          add_bo (record g { memory = m }) addr bo,
          pos 0,
          some (addr, bo.bo_stride / get_bpp f),
        ))
    → P (gbm_alloc bo_new errno g addr w h f u)
unfolding gbm_alloc
alloc_status_cases P bo_new errno g addr w h f u failed added = elim (Bool-cases (get_bpp f == 0)) [
  | inl e ↦ rw e (failed g.memory einval (λ sets. refl))
  | inr e ↦ rw e (
      let hnd = new_handle (g.memory addr) w h f u in
      elim (Option-cases (bo_new (create_request hnd))) [
        | inl o ↦ rw o (failed _ _ (λ sets. negated_errno errno (sets (create_request hnd) o)))
        | inr (bo, o) ↦ rw o (added _ _ bo o)
      ])
]

-- The same whatever the status.
pub alloc_cases {ℓ} :
    (P : Gralloc × ℤ × Option (ℕ × ℕ) → Type ℓ) (bo_new : CreateRequest → Option NewBo) (errno : ℕ)
    (g : Gralloc) (addr w h : ℕ) (f : PixelFormat) (u : ℕ)
    → ((m : ℕ → PrivateHandle) (status : ℤ) → P (record g { memory = m }, status, none))
    → ((m : ℕ → PrivateHandle) (d : CreateRequest) (bo : NewBo)
        → bo_new d ≡ some bo
        → P (
          add_bo (record g { memory = m }) addr bo,
          pos 0,
          some (addr, bo.bo_stride / get_bpp f),
        ))
    → P (gbm_alloc bo_new errno g addr w h f u)
alloc_cases P bo_new errno g addr w h f u failed added =
    alloc_status_cases P bo_new errno g addr w h f u (λ m status sets. failed m status) added

module _ (bo_new : CreateRequest → Option NewBo) (errno : ℕ) (g : Gralloc) (addr w h : ℕ)
    (f : PixelFormat) (u stride : ℕ) where
  abbrev allocated : Gralloc × ℤ × Option (ℕ × ℕ)
  allocated = gbm_alloc bo_new errno g addr w h f u

  -- Freeing a buffer that was allocated at a new address gives its object back: the map and the
  -- objects alive are those from before the allocation.
  pub free-alloc :
      find addr g.handle_map ≡ none
      → allocated.2 ≡ some (addr, stride)
      → SameOwnership g (gbm_free allocated.0 addr)
  free-alloc fresh =
      alloc_cases (λ r. r.2 ≡ some (addr, stride) → SameOwnership g (gbm_free r.0 addr)) bo_new
        errno g addr w h f u (λ m status e. absurd (ground arith))
        (λ m d bo given e.
          let s = free-add (record g { memory = m }) addr bo fresh in
          record { same_map = s.same_map; same_live = s.same_live })

-- An allocation, in a format that has pixels and where libgbm gives an object, at an address whose entry
-- is null, as a lookup of a missing handle leaves it: it succeeds with the new handle and its stride in
-- pixels, and leaks, since freeing that handle does not destroy the object.
pub alloc_stale_leaks :
    (bo_new : CreateRequest → Option NewBo) (errno : ℕ) (g : Gralloc) (addr w h : ℕ)
    (f : PixelFormat) (u : ℕ) (bo : NewBo)
    → find addr g.handle_map ≡ some none
    → (get_bpp f == 0) ≡ false
    → ((d : CreateRequest) → bo_new d ≡ some bo)
    → let (g', status, made) = gbm_alloc bo_new errno g addr w h f u in
      (status ≡ pos 0)
      × (made ≡ some (addr, bo.bo_stride / get_bpp f))
      × ((gbm_free g' addr).live ≡ bo.address ∷ g.live)
unfolding gbm_alloc
alloc_stale_leaks bo_new errno g addr w h f u bo stale pixels given =
    let hnd = new_handle (g.memory addr) w h f u in
    rw (pixels, given (create_request hnd))
      (refl, refl, free-stale (record g { memory = _ }) addr bo stale)

-- A handle that was looked up while it was not registered can no longer be registered: the lookup
-- leaves an entry with a null object, which counts as registered.
pub register_after_free :
    (bo_import : ImportData → Option NewBo) (g : Gralloc) (h : ℕ)
    → find h g.handle_map ≡ none
    → gbm_register bo_import (gbm_free g h) h ≡ (gbm_free g h, einval)
unfolding gbm_register gbm_free find
register_after_free bo_import g h e = ground arith
