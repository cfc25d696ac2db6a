-- ===== src/Composer/Modes/Choice/Best.antt =====
-- Which of a connector's modes find_mode chooses.
use hardware_arpi.Base.{
  ℕ, ◌≤◌, ◌≡◌, refl, true, false, ◌&&◌, List, ◌∷◌, Option, none, some, leb, ltb, arith, inl, inr,
  ap, ◌∙◌, Bool-cases,
}
use hardware_arpi.Base.Int.{ℤ, pos, negsuc}
use hardware_arpi.Composer.Modes.{
  ModeInfo, Wish, int_max, has_size, has_rate, is_number, matches, find_match, difference,
  squared_distance, is_preferred, closest, or_first, or_closest, trim, choose, find_mode,
}
use hardware_arpi.Composer.Modes.Choice.{
  Among, InReach, Nearest, closest-start, Preferred, closest-Preferred, Matching,
  find_match-Matching,
}

-- A mode of the connector that matches the wish where one does, and is otherwise nearest to the size
-- wished for; without a size, one that is preferred where one is.
pub record IsBest (w : Wish) (ms : List ModeInfo) (r : ModeInfo) : Type 0 where
  pub among : Among r ms
  pub matching :
      has_rate w ≡ true → (m : ModeInfo) → Among m ms → matches w m ≡ true → matches w r ≡ true
  pub nearest :
      has_size w ≡ true → (m : ModeInfo) → Among m ms → squared_distance w r ≤ squared_distance w m
  pub preferred :
      has_size w ≡ false
      → (m : ModeInfo) → Among m ms
      → is_preferred m ≡ true
      → is_preferred r ≡ true

same_number : (n : ℕ) (z : ℤ) → is_number n z ≡ true → difference n z ≡ 0
same_number n (pos m) e = ground (arith, e)
same_number n (negsuc m) e = ground (arith, e)

match_distance : (w : Wish) (m : ModeInfo) → matches w m ≡ true → squared_distance w m ≡ 0
unfolding matches squared_distance
match_distance w m e =
    rw
      (
        same_number m.hdisplay w.xres (ground (arith, e)),
        same_number m.vdisplay w.yres (ground (arith, e)),
      )
      refl

match-IsBest :
    (w : Wish) (ms : List ModeInfo) (r : ModeInfo)
    → has_rate w ≡ true
    → Among r ms
    → matches w r ≡ true
    → IsBest w ms r
match-IsBest w ms r h a e = record {
  among = a;
  matching = λ h' m i e'. e;
  nearest = λ s m i. omega (arith, match_distance w r e);
  preferred = λ s m i p. absurd (ground (arith, h, s));
}

sized-IsBest :
    (w : Wish) (x r : ModeInfo) (xs : List ModeInfo)
    → has_size w ≡ true
    → (has_rate w ≡ true → Matching w (x ∷ xs) none)
    → Nearest w x xs r
    → IsBest w (x ∷ xs) r
unfolding Nearest Matching
sized-IsBest w x r xs s unmatched (a, le, all) = record {
  among = a;
  matching = λ h m i e. absurd (ground (arith, unmatched h m i, e));
  nearest =
      λ s' m i. elim i [ inl e ↦ omega (arith, ap (squared_distance w) e, le) | inr j ↦ all m j ];
  preferred = λ s' m i p. absurd (ground (arith, s, s'));
}

plain-IsBest :
    (w : Wish) (ms : List ModeInfo) (r : ModeInfo)
    → has_size w ≡ false
    → Among r ms
    → ((m : ModeInfo) → Among m ms → is_preferred m ≡ true → is_preferred r ≡ true)
    → IsBest w ms r
plain-IsBest w ms r s a best = record {
  among = a;
  matching = λ h m i e. absurd (ground (arith, h, s));
  nearest = λ s' m i. absurd (ground (arith, s, s'));
  preferred = λ s' m i p. best m i p;
}

plain-fallback :
    (w : Wish) (x : ModeInfo) (xs : List ModeInfo) (o : Option ModeInfo)
    → has_size w ≡ false
    → Preferred (x ∷ xs) o
    → (r : ModeInfo) × (or_first o (x ∷ xs) ≡ some r) × IsBest w (x ∷ xs) r
unfolding or_first Preferred
plain-fallback w x xs none s p =
    (x, refl, plain-IsBest w (x ∷ xs) x s (inl refl) (λ m i e. absurd (ground (arith, p m i, e))))
plain-fallback w x xs (some r) s p = (r, refl, plain-IsBest w (x ∷ xs) r s p.0 (λ m i e. p.1))

-- The search for the nearest mode.
fallback :
    (w : Wish) (x : ModeInfo) (xs : List ModeInfo)
    → InReach w (x ∷ xs)
    → (has_rate w ≡ true → Matching w (x ∷ xs) none)
    → (r : ModeInfo) × (or_first (closest w int_max none (x ∷ xs)) (x ∷ xs) ≡ some r)
      × IsBest w (x ∷ xs) r
unfolding or_first
fallback w x xs reach unmatched = elim (Bool-cases (has_size w)) [
  | inl s ↦
      let (r, eq, near) = closest-start w x xs s reach in
      (r, rw eq refl, sized-IsBest w x r xs s unmatched near)
  | inr s ↦
      plain-fallback w x xs (closest w int_max none (x ∷ xs)) s
        (closest-Preferred w int_max (x ∷ xs) s refl)
]

unforced :
    (generate_mode : ℤ → ℤ → ℤ → ModeInfo) (w : Wish) (ms : List ModeInfo)
    → w.forcemode ≡ false
    → or_closest generate_mode w ms none ≡ or_first (closest w int_max none ms) ms
unfolding or_closest
unforced generate_mode w ms n = rw n refl

-- Where a rate is wished for too: what the search for a match gives, or else the nearest mode.
matched :
    (generate_mode : ℤ → ℤ → ℤ → ModeInfo) (w : Wish) (x : ModeInfo) (xs : List ModeInfo)
    (o : Option ModeInfo)
    → find_match w (x ∷ xs) ≡ o
    → has_rate w ≡ true
    → w.forcemode ≡ false
    → InReach w (x ∷ xs)
    → Matching w (x ∷ xs) o
    → (r : ModeInfo) × (choose generate_mode w (x ∷ xs) ≡ some r) × IsBest w (x ∷ xs) r
unfolding choose or_closest Matching
matched generate_mode w x xs none eq h n reach m =
    let (r, eq', best) = fallback w x xs reach (λ h'. m) in
    (r, rw (h, eq) (unforced generate_mode w (x ∷ xs) n ∙ eq'), best)
matched generate_mode w x xs (some r) eq h n reach m =
    (r, rw (h, eq) refl, match-IsBest w (x ∷ xs) r h m.0 m.1)

trim_clock : (m : ModeInfo) → (leb 74200 (trim m).clock && ltb (trim m).clock 74500) ≡ false
unfolding trim
trim_clock m = elim (Bool-cases (leb 74200 m.clock && ltb m.clock 74500)) [
  | inl e ↦ rw e refl
  | inr e ↦ rw (e, e) refl
]

choose-IsBest :
    (generate_mode : ℤ → ℤ → ℤ → ModeInfo) (w : Wish) (x : ModeInfo) (xs : List ModeInfo)
    → w.forcemode ≡ false
    → InReach w (x ∷ xs)
    → (r : ModeInfo) × (choose generate_mode w (x ∷ xs) ≡ some r) × IsBest w (x ∷ xs) r
unfolding choose or_closest
choose-IsBest generate_mode w x xs n reach = elim (Bool-cases (has_rate w)) [
  | inl h ↦
      matched generate_mode w x xs (find_match w (x ∷ xs)) refl h n reach
        (find_match-Matching w (x ∷ xs))
  | inr h ↦
      let (r, eq, best) = fallback w x xs reach (λ h'. absurd (ground (arith, h, h'))) in
      (r, rw h (unforced generate_mode w (x ∷ xs) n ∙ eq), best)
]

-- For a connector with modes, and sizes in reach of an int, find_mode without force returns one of
-- them, a best one, with the clock trimmed out of the range from 74200 to 74499.
pub find_mode-IsBest :
    (generate_mode : ℤ → ℤ → ℤ → ModeInfo) (w : Wish) (x : ModeInfo) (xs : List ModeInfo)
    → w.forcemode ≡ false
    → InReach w (x ∷ xs)
    → (r : ModeInfo) × (find_mode generate_mode w (x ∷ xs) ≡ some (trim r))
      × IsBest w (x ∷ xs) r
      × ((leb 74200 (trim r).clock && ltb (trim r).clock 74500) ≡ false)
unfolding find_mode
find_mode-IsBest generate_mode w x xs n reach =
    let (r, eq, best) = choose-IsBest generate_mode w x xs n reach in
    (r, rw eq refl, best, trim_clock r)
