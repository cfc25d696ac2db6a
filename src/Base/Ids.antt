-- ===== src/Base/Ids.antt =====
-- `std::unordered_set<hwc2_layer_t>` as a list without repetitions. The library leaves the order of
-- iteration open; the lemmas speak of membership and size only.
use hardware_arpi.Base.Tests.{◌==◌, if◌then◌else◌}
use Prim.Native.Nat.{ℕ, ◌+◌}
use mathlib.Core.Path.{◌≡◌}
use mathlib.Core.Bool.{Bool, false, not, ◌&&◌, ◌||◌}
use mathlib.Core.List.{List, [], ◌∷◌, ◌++◌}
use native.Mathlib.Omega.{arith}

unfoldable pub contains : ℕ → List ℕ → Bool
contains x [] = false
contains x (y ∷ ys) = y == x || contains x ys

unfoldable pub insert : ℕ → List ℕ → List ℕ
insert x ys = if contains x ys then ys else x ∷ ys

unfoldable pub erase : ℕ → List ℕ → List ℕ
erase x [] = []
erase x (y ∷ ys) = if y == x then ys else y ∷ erase x ys

abbrev pub Distinct : List ℕ → Type 0
Distinct [] = Unit {0}
Distinct (x ∷ xs) = (contains x xs ≡ false) × Distinct xs

-- How often a number stands in a list.
unfoldable pub count : ℕ → List ℕ → ℕ
count x [] = 0
count x (y ∷ ys) = (if y == x then 1 else 0) + count x ys

pub contains-insert : (x y : ℕ) (ys : List ℕ) → contains y (insert x ys) ≡ (x == y || contains y ys)
unfolding contains insert
contains-insert x y ys = ground arith

pub contains-erase :
    (x y : ℕ) (ys : List ℕ)
    → Distinct ys
    → contains y (erase x ys) ≡ (not (x == y) && contains y ys)
unfolding contains erase
contains-erase x y [] d = ground arith
contains-erase x y (z ∷ ys) d = ground (arith, contains-erase x y ys d.1)

pub Distinct-insert : (x : ℕ) (ys : List ℕ) → Distinct ys → Distinct (insert x ys)
unfolding insert
Distinct-insert x ys d = ground arith

pub Distinct-erase : (x : ℕ) (ys : List ℕ) → Distinct ys → Distinct (erase x ys)
unfolding contains erase
Distinct-erase x [] d = tt
Distinct-erase x (y ∷ ys) d = ground (arith, Distinct-erase x ys d.1, contains-erase x y ys d.1)

pub count-append : (x : ℕ) (xs ys : List ℕ) → count x (xs ++ ys) ≡ count x xs + count x ys
unfolding count
count-append x [] ys = omega arith
count-append x (y ∷ xs) ys = omega (arith, count-append x xs ys)
