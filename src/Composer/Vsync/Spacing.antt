-- ===== src/Composer/Vsync/Spacing.antt =====
-- When the vsync callback is called.
use hardware_arpi.Base.{
  ℕ, ◌+◌, ◌-◌, ◌*◌, ◌/◌, ◌%◌, ◌≤◌, ◌<◌, ◌≡◌, refl, ◌∙◌, true, false, List, [], ◌∷◌, inl, inr,
  Bool-cases, ltb, max, arith,
}
use hardware_arpi.Composer.Vsync.{Wake, adjust, advance, vsync_loop}
use native.Mathlib.Nat.{div-add-mod, mod-lt, add-mul-mod_self_left}

covers_by : (d p m r : ℕ) → m + r ≡ d + p - 1 → r < p → (d ≤ m) × (m < d + p)
covers_by d p m r e l = (omega (arith, e, l), omega (arith, e, l))

-- `(d + p - 1) / p` is the least number of periods that covers `d`.
covers : (d p : ℕ) → 0 < p → (d ≤ p * ((d + p - 1) / p)) × (p * ((d + p - 1) / p) < d + p)
covers d p k =
    covers_by d p (p * ((d + p - 1) / p)) ((d + p - 1) % p) (div-add-mod (d + p - 1) p)
      (mod-lt (d + p - 1) k)

late_bounds :
    (next t p m : ℕ)
    → (t - next ≤ m) × (m < t - next + p)
    → ltb next t ≡ true
    → (t ≤ next + m) × (next ≤ next + m) × (next + m < max (next + 1) (t + p))
late_bounds next t p m c e = (ground (arith, c, e), ground (arith, c, e), ground (arith, c, e))

early_bounds :
    (next t p : ℕ)
    → ltb next t ≡ false
    → (t ≤ next) × (next ≤ next) × (next < max (next + 1) (t + p))
early_bounds next t p e = (ground (arith, e), omega arith, omega arith)

-- The vsync that the thread sleeps until is not before the time it read nor before the one it had
-- planned, less than a period after one of them, and in phase with the one it had planned.
pub adjust_lem :
    (period next t : ℕ)
    → 0 < period
    → (t ≤ adjust period next t)
      × (next ≤ adjust period next t)
      × (adjust period next t < max (next + 1) (t + period))
      × (adjust period next t % period ≡ next % period)
unfolding adjust
adjust_lem period next t k = elim (Bool-cases (ltb next t)) [
  | inl e ↦
      let n = (t - next + period - 1) / period in
      let (a, b, c) = late_bounds next t period (period * n) (covers (t - next) period k) e in
      rw e (a, b, c, add-mul-mod_self_left next period n)
  | inr e ↦ let (a, b, c) = early_bounds next t period e in rw e (a, b, c, refl)
]

-- Each time is in phase with `from`, not before it, and a period or more after the one before.
abbrev pub Spaced : ℕ → ℕ → List ℕ → Type 0
Spaced period from [] = Unit
Spaced period from (t ∷ ts) =
    (from ≤ t) × (t % period ≡ from % period) × Spaced period (t + period) ts

Spaced-earlier :
    (period from from' : ℕ) (ts : List ℕ)
    → from' ≤ from
    → from % period ≡ from' % period
    → Spaced period from ts
    → Spaced period from' ts
Spaced-earlier period from from' [] l e s = tt
Spaced-earlier period from from' (t ∷ ts) l e (a, b, c) = (omega (arith, l, a), b ∙ e, c)

-- However late the thread wakes and whichever sleeps fail, the callback is called with times that are
-- in phase with the first vsync and at least one period apart.
pub vsync_loop-Spaced :
    (period next : ℕ) (ws : List Wake) → 0 < period → Spaced period next (vsync_loop period next ws)
unfolding vsync_loop advance
vsync_loop-Spaced period next [] k = tt
vsync_loop-Spaced period next (w ∷ ws) k =
    let (late, above, near, phase) = adjust_lem period next w.time k in
    let rest = vsync_loop-Spaced period (advance period next w) ws k in
    elim (Bool-cases w.fire) [
      | inl e ↦ rw e (above, phase, rw e at rest)
      | inr e ↦ rw e (Spaced-earlier period _ next _ above phase (rw e at rest))
    ]
