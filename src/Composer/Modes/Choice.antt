-- ===== src/Composer/Modes/Choice.antt =====
-- What the loops of find_mode end with.
pub mod Best
use hardware_arpi.Base.{
  ℕ, suc, ◌+◌, ◌*◌, ◌≤◌, ◌<◌, ◌≡◌, refl, Bool, true, false, not, ◌&&◌, List, [], ◌∷◌, ◌≢◌, Option,
  none, some, ◌==◌, ltb, arith, inl, inr, ◌⊎◌, ap, ◌∙◌, Bool-cases, if◌then◌else◌,
}
use hardware_arpi.Base.Int.{ℤ, pos, negsuc}
use hardware_arpi.Composer.Modes.{
  ModeInfo, Wish, int_max, has_size, has_rate, is_number, matches, find_match, difference,
  squared_distance, is_preferred, cost, closest, or_first, trim, choose, find_mode,
}

-- `m` is one of the modes.
abbrev pub Among : ModeInfo → List ModeInfo → Type 0
Among m [] = ⊥
Among m (x ∷ xs) = (m ≡ x) ⊎ Among m xs

-- The sizes are close enough for an int.
abbrev pub InReach : Wish → List ModeInfo → Type 0
InReach w ms = (m : ModeInfo) → Among m ms → squared_distance w m < int_max

not_less : (a b : ℕ) → ltb a b ≡ false → b ≤ a
not_less a b f = ground (arith, f)

less : (a b : ℕ) → ltb a b ≡ true → a ≤ b
less a b f = ground (arith, f)

is_zero_number : (a : ℕ) → (a == 0) ≡ true → a ≡ 0
is_zero_number a e = ground (arith, e)

-- With a size, the loop ends with a mode that is at most as far as the one it has and as all others.
unfoldable pub Nearest : Wish → ModeInfo → List ModeInfo → ModeInfo → Type 0
Nearest w b ms r =
    ((r ≡ b) ⊎ Among r ms)
    × (squared_distance w r ≤ squared_distance w b)
    × ((m : ModeInfo) → Among m ms → squared_distance w r ≤ squared_distance w m)

Nearest-pass :
    (w : Wish) (b x r : ModeInfo) (xs : List ModeInfo)
    → squared_distance w b ≤ squared_distance w x
    → Nearest w b xs r
    → Nearest w b (x ∷ xs) r
unfolding Nearest
Nearest-pass w b x r xs far (a, le, all) = (
  elim a [ inl e ↦ inl e | inr i ↦ inr (inr i) ],
  le,
  λ m i. elim i [ inl e ↦ omega (arith, ap (squared_distance w) e, far, le) | inr j ↦ all m j ],
)

Nearest-take :
    (w : Wish) (b x r : ModeInfo) (xs : List ModeInfo)
    → squared_distance w x ≤ squared_distance w b
    → Nearest w x xs r
    → Nearest w b (x ∷ xs) r
unfolding Nearest
Nearest-take w b x r xs near (a, le, all) = (
  inr a,
  omega (arith, near, le),
  λ m i. elim i [ inl e ↦ omega (arith, ap (squared_distance w) e, le) | inr j ↦ all m j ],
)

Nearest-zero :
    (w : Wish) (b x : ModeInfo) (xs : List ModeInfo)
    → squared_distance w x ≡ 0
    → Nearest w b (x ∷ xs) x
unfolding Nearest
Nearest-zero w b x xs z = (inr (inl refl), omega (arith, z), λ m i. omega (arith, z))

Nearest-first :
    (w : Wish) (x : ModeInfo) (xs : List ModeInfo) → squared_distance w x ≡ 0 → Nearest w x xs x
unfolding Nearest
Nearest-first w x xs z = (inl refl, omega arith, λ m i. omega (arith, z))

closest-Nearest :
    (w : Wish) (b : ModeInfo) (ms : List ModeInfo)
    → has_size w ≡ true
    → (r : ModeInfo) × (closest w (squared_distance w b) (some b) ms ≡ some r) × Nearest w b ms r
unfolding closest cost Nearest
closest-Nearest w b [] s = (b, refl, (inl refl, omega arith, λ m a. elim a [ ]))
closest-Nearest w b (x ∷ xs) s =
    let db = squared_distance w b in
    let dx = squared_distance w x in
    elim (Bool-cases (ltb dx db)) [
      | inr f ↦
          let (r, eq, near) = closest-Nearest w b xs s in
          (r, rw (s, f) eq, Nearest-pass w b x r xs (not_less dx db f) near)
      | inl f ↦ elim (Bool-cases (dx == 0)) [
        | inl z ↦ (x, rw (s, f, z) refl, Nearest-zero w b x xs (is_zero_number dx z))
        | inr z ↦
            let (r, eq, near) = closest-Nearest w x xs s in
            (r, rw (s, f, z) eq, Nearest-take w b x r xs (less dx db f) near)
      ]
    ]

-- The same from the start of the loop, where all sizes are in reach.
pub closest-start :
    (w : Wish) (x : ModeInfo) (xs : List ModeInfo)
    → has_size w ≡ true
    → InReach w (x ∷ xs)
    → (r : ModeInfo) × (closest w int_max none (x ∷ xs) ≡ some r) × Nearest w x xs r
unfolding closest cost
closest-start w x xs s reach =
    let dx = squared_distance w x in
    let f : ltb dx int_max ≡ true = ground (arith, reach x (inl refl)) in
    elim (Bool-cases (dx == 0)) [
      | inl z ↦ (x, rw (s, f, z) refl, Nearest-first w x xs (is_zero_number dx z))
      | inr z ↦ let (r, eq, near) = closest-Nearest w x xs s in (r, rw (s, f, z) eq, near)
    ]

-- One of the modes that is preferred, or none where none is.
unfoldable pub Preferred : List ModeInfo → Option ModeInfo → Type 0
Preferred ms none = (m : ModeInfo) → Among m ms → is_preferred m ≡ false
Preferred ms (some r) = Among r ms × (is_preferred r ≡ true)

Preferred-pass :
    (x : ModeInfo) (xs : List ModeInfo) (o : Option ModeInfo)
    → is_preferred x ≡ false
    → Preferred xs o
    → Preferred (x ∷ xs) o
unfolding Preferred
Preferred-pass x xs none p h = λ m i. elim i [ inl e ↦ ap is_preferred e ∙ p | inr j ↦ h m j ]
Preferred-pass x xs (some r) p h = (inr h.0, h.1)

same_less : (d : ℕ) → ltb d d ≡ false
same_less d = ground arith

-- Without a size, the loop ends with a mode that is preferred, where there is one.
pub closest-Preferred :
    (w : Wish) (d : ℕ) (ms : List ModeInfo)
    → has_size w ≡ false
    → ltb 0 d ≡ true
    → Preferred ms (closest w d none ms)
unfolding closest cost Preferred
closest-Preferred w d [] s h = λ m a. elim a [ ]
closest-Preferred w d (x ∷ xs) s h = elim (Bool-cases (is_preferred x)) [
  | inl p ↦ rw (s, p, h) (inl refl, p)
  | inr p ↦
      rw (s, p, same_less d)
        (Preferred-pass x xs (closest w d none xs) p (closest-Preferred w d xs s h))
]

-- The first match matches, and there is one where a mode matches.
unfoldable pub Matching : Wish → List ModeInfo → Option ModeInfo → Type 0
Matching w ms none = (m : ModeInfo) → Among m ms → matches w m ≡ false
Matching w ms (some r) = Among r ms × (matches w r ≡ true)

Matching-pass :
    (w : Wish) (x : ModeInfo) (xs : List ModeInfo) (o : Option ModeInfo)
    → matches w x ≡ false
    → Matching w xs o
    → Matching w (x ∷ xs) o
unfolding Matching
Matching-pass w x xs none p h = λ m i. elim i [ inl e ↦ ap (matches w) e ∙ p | inr j ↦ h m j ]
Matching-pass w x xs (some r) p h = (inr h.0, h.1)

pub find_match-Matching : (w : Wish) (ms : List ModeInfo) → Matching w ms (find_match w ms)
unfolding find_match Matching
find_match-Matching w [] = λ m a. elim a [ ]
find_match-Matching w (x ∷ xs) = elim (Bool-cases (matches w x)) [
  | inl p ↦ rw p (inl refl, p)
  | inr p ↦ rw p (Matching-pass w x xs (find_match w xs) p (find_match-Matching w xs))
]
