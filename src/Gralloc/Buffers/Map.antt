-- ===== src/Gralloc/Buffers/Map.antt =====
-- `std::unordered_map<buffer_handle_t, struct gbm_bo *>` as an association list with one entry for
-- each key; `none` is a null object.
use hardware_arpi.Base.{ℕ, ◌≡◌, refl, Option, none, some, List, [], ◌∷◌, ◌==◌, if◌then◌else◌, arith}

abbrev pub BoMap : Type 0
BoMap = List (ℕ × Option ℕ)

unfoldable pub find : ℕ → BoMap → Option (Option ℕ)
find h [] = none
find h ((k, bo) ∷ m) = if k == h then some bo else find h m

-- `emplace` leaves an entry that is there.
unfoldable pub emplace : ℕ → ℕ → BoMap → BoMap
emplace h bo m = elim (find h m) [ none ↦ (h, some bo) ∷ m | some _ ↦ m ]

unfoldable pub erase : ℕ → BoMap → BoMap
erase h [] = []
erase h ((k, bo) ∷ m) = if k == h then erase h m else (k, bo) ∷ erase h m

pub find-erase : (h k : ℕ) (m : BoMap) → find k (erase h m) ≡ (if h == k then none else find k m)
unfolding find erase
find-erase h k [] = ground arith
find-erase h k ((j, bo) ∷ m) = ground (arith, find-erase h k m)

pub find-emplace :
    (h bo : ℕ) (m : BoMap) → find h m ≡ none → find h (emplace h bo m) ≡ some (some bo)
unfolding find emplace
find-emplace h bo m e = ground arith

pub erase_missing : (h : ℕ) (m : BoMap) → find h m ≡ none → erase h m ≡ m
unfolding find erase
erase_missing h [] e = refl
erase_missing h ((k, bo) ∷ m) e = ground (arith, erase_missing h m)
