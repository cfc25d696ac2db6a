-- ===== src/Mapper/Fence/Merging.antt =====
-- Merging fences and the time at which one signals.
use hardware_arpi.Base.{
  ℕ, ◌≡◌, ◌≤◌, ◌⊎◌, refl, true, List, [], ◌∷◌, Bool-cases, inl, inr, arith, ltb, if◌then◌else◌,
}
use hardware_arpi.Base.Int.{ℤ}
use hardware_arpi.Base.Ids.{contains}
use hardware_arpi.Mapper.Fence.{has_fd, merge, latest}

-- Merging asks libsync for valid descriptors only: two versions of it that agree on those give the
-- same fence.
pub merge_asks_valid :
    (s s' : ℤ → ℤ → ℤ) (f1 f2 : ℤ)
    → ((a b : ℤ) → has_fd a ≡ true → has_fd b ≡ true → s a b ≡ s' a b)
    → merge s f1 f2 ≡ merge s' f1 f2
unfolding merge
merge_asks_valid s s' f1 f2 agree = elim (Bool-cases (has_fd f1)) [
  | inl e ↦ elim (Bool-cases (has_fd f2)) [
    | inl f ↦ rw (e, f, agree f1 f2 e f) refl
    | inr f ↦ rw (e, f, agree f1 f1 e e) refl
  ]
  | inr e ↦ elim (Bool-cases (has_fd f2)) [
    | inl f ↦ rw (e, f, agree f2 f2 f f) refl
    | inr f ↦ rw (e, f) refl
  ]
]

latest-from :
    (t : ℕ) (ts : List ℕ)
    → (t ≤ latest t ts)
      × ((x : ℕ) → contains x ts ≡ true → x ≤ latest t ts)
      × ((latest t ts ≡ t) ⊎ (contains (latest t ts) ts ≡ true))
unfolding latest contains
latest-from t [] = (ground arith, λ x e. ground (arith, e), inl refl)
latest-from t (u ∷ ts) =
    let h = latest-from (if ltb t u then u else t) ts in
    (ground (arith, h.0), λ x e. ground (arith, e, h.0, h.1 x), ground (arith, h.2))

same_contains :
    (x y : ℕ) (ts : List ℕ) → x ≤ y → y ≡ 0 → contains x ts ≡ true → contains y ts ≡ true
same_contains x y ts l z c = let same : x ≡ y = omega (arith, l, z) in rw same at c

-- The time that is computed from those of a fence's points is that of one of them, and none is later.
pub latest_lem :
    (ts : List ℕ) (x : ℕ)
    → contains x ts ≡ true
    → (x ≤ latest 0 ts) × (contains (latest 0 ts) ts ≡ true)
latest_lem ts x c =
    let h = latest-from 0 ts in
    (h.1 x c, elim h.2 [ inr e ↦ e | inl e ↦ same_contains x (latest 0 ts) ts (h.1 x c) e c ])
