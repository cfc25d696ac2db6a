-- ===== src/Allocator/Owned.antt =====
-- The buffers that an allocation has made so far, beside the state that it began with.
use hardware_arpi.Base.{
  ℕ, ◌+◌, ◌≡◌, refl, List, [], ◌∷◌, ◌++◌, Option, none, some, ◌==◌, if◌then◌else◌, arith,
}
use hardware_arpi.Gralloc.Buffers.{Gralloc, PrivateHandle, NewBo, gbm_free, add_bo}
use hardware_arpi.Gralloc.Buffers.Map.{BoMap, find, emplace}
use hardware_arpi.Base.Ids.{count}
use hardware_arpi.Gralloc.Buffers.Ownership.{free_entries, count-drop_bo}

-- The buffers made so far, with their objects, in the order in which they were made.
abbrev pub Owned : Type 0
Owned = List (ℕ × ℕ)

unfoldable pub owner : ℕ → Owned → Option (Option ℕ)
owner h [] = none
owner h ((k, bo) ∷ os) = if k == h then some (some bo) else owner h os

unfoldable pub owned_count : ℕ → Owned → ℕ
owned_count b [] = 0
owned_count b ((k, bo) ∷ os) = (if bo == b then 1 else 0) + owned_count b os

unfoldable pub or_else : Option (Option ℕ) → Option (Option ℕ) → Option (Option ℕ)
or_else none o = o
or_else (some x) o = some x

-- The state owns what it did at first and the buffers made since.
pub record Holds (g0 g : Gralloc) (os : Owned) : Type 0 where
  pub entries : (h : ℕ) → find h g.handle_map ≡ or_else (owner h os) (find h g0.handle_map)
  pub objects : (b : ℕ) → count b g.live ≡ owned_count b os + count b g0.live

find-emplace_other :
    (h k bo : ℕ) (m : BoMap)
    → find k m ≡ none
    → find h (emplace k bo m) ≡ (if k == h then some (some bo) else find h m)
unfolding find emplace
find-emplace_other h k bo m e = ground (arith, e)

pub owner-append :
    (h k bo : ℕ) (os : Owned)
    → owner h (os ++ (k, bo) ∷ []) ≡ or_else (owner h os) (if k == h then some (some bo) else none)
unfolding owner or_else
owner-append h k bo [] = ground arith
owner-append h k bo ((j, c) ∷ os) = ground (arith, owner-append h k bo os)

count-append :
    (b k bo : ℕ) (os : Owned)
    → owned_count b (os ++ (k, bo) ∷ []) ≡ (if bo == b then 1 else 0) + owned_count b os
unfolding owned_count
count-append b k bo [] = ground arith
count-append b k bo ((j, c) ∷ os) = ground (arith, count-append b k bo os)

-- No buffer has an entry of before, nor that of a later one.
abbrev pub Separate : BoMap → Owned → Type 0
Separate m [] = Unit
Separate m ((k, bo) ∷ os) = (find k m ≡ none) × (owner k os ≡ none) × Separate m os

pub Separate-append :
    (m : BoMap) (k bo : ℕ) (os : Owned)
    → find k m ≡ none
    → owner k os ≡ none
    → Separate m os
    → Separate m (os ++ (k, bo) ∷ [])
unfolding owner or_else
Separate-append m k bo [] f o s = (f, refl, tt)
Separate-append m k bo ((j, c) ∷ os) f o (a, b, s) = (
  a,
  ground (arith, owner-append j k bo os, o, b),
  Separate-append m k bo os f (ground (arith, o)) s,
)

pub add-Holds :
    (g0 g : Gralloc) (m : ℕ → PrivateHandle) (k : ℕ) (bo : NewBo) (os : Owned)
    → Holds g0 g os
    → find k g0.handle_map ≡ none
    → owner k os ≡ none
    → Holds g0 (add_bo (record g { memory = m }) k bo) (os ++ (k, bo.address) ∷ [])
unfolding add_bo count or_else
add-Holds g0 g m k bo os v f o = record {
  entries = λ h. ground (
    arith,
    find-emplace_other h k bo.address g.handle_map (ground (arith, v.entries k, f, o)),
    owner-append h k bo.address os,
    v.entries h,
  );
  objects = λ b. ground (arith, count-append b k bo.address os, v.objects b);
}

pub free-Holds :
    (g0 g : Gralloc) (k bo : ℕ) (os : Owned)
    → Holds g0 g ((k, bo) ∷ os)
    → find k g0.handle_map ≡ none
    → owner k os ≡ none
    → Holds g0 (gbm_free g k) os
unfolding owner owned_count or_else
free-Holds g0 g k bo os v f o =
    let (freed, rest) = free_entries g k bo (ground (arith, v.entries k)) in
    record {
      entries = λ h. ground (arith, freed h, v.entries h, f, o);
      objects = λ b. rw rest (ground (arith, count-drop_bo b bo g.live, v.objects b, v.objects bo));
    }
