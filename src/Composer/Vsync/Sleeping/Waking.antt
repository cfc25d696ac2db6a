-- ===== src/Composer/Vsync/Sleeping/Waking.antt =====
-- That the sleep of VsyncThread ends, at the time it was asked for.
use hardware_arpi.Base.{ℕ, zero, suc, ◌+◌, ◌<◌, ◌≡◌, ◌≢◌, refl, some, ◌==◌, arith}
use hardware_arpi.Composer.Vsync.{adjust}
use hardware_arpi.Composer.Vsync.Sleeping.{
  Timespec, second, eintr, now, timespec_of, Nanosleep, sleeps, sleep_until, wake,
}
use native.Mathlib.Nat.{div-add-mod', mod-lt}

now-timespec_of : (t : ℕ) → (now (timespec_of t) ≡ t) × ((timespec_of t).tv_nsec < second)
unfolding now timespec_of
now-timespec_of t = (div-add-mod' t second, mod-lt t (omega arith))

-- `n` calls from the `i`-th on are interrupted.
sleeps_lem :
    (n fuel : ℕ) (clock_nanosleep : Nanosleep) (ts : Timespec) (i : ℕ)
    → n < fuel
    → ((j : ℕ) → j < n → clock_nanosleep ts (i + j) ≡ eintr)
    → clock_nanosleep ts (i + n) ≢ eintr
    → sleeps fuel clock_nanosleep ts i ≡ some (clock_nanosleep ts (i + n) == 0)
unfolding sleeps
sleeps_lem n zero clock_nanosleep ts i l interrupted other = absurd (omega (arith, l))
sleeps_lem zero (suc fuel) clock_nanosleep ts i l interrupted other =
    let here : i + 0 ≡ i = omega arith in rw here (ground (arith, rw here at other))
sleeps_lem (suc n) (suc fuel) clock_nanosleep ts i l interrupted other =
    let here : i + 0 ≡ i = omega arith in
    let later : i + suc n ≡ i + 1 + n = omega arith in
    let first : clock_nanosleep ts i ≡ eintr = rw here at (interrupted 0 (omega arith)) in
    let step : (j : ℕ) → i + suc j ≡ i + 1 + j = λ j. omega arith in
    rw first (
      rw later (
        sleeps_lem n fuel clock_nanosleep ts (i + 1) (omega (arith, l))
          (λ j b. rw (step j) at (interrupted (suc j) (omega (arith, b)))) (rw later at other)))

-- Where the kernel interrupts the first `n` sleeps and then does not, and the fuel is above `n`: the
-- iteration gets past sleepUntil, which fires exactly where that last sleep returns 0; and every sleep
-- was asked to last until the adjusted vsync, with fewer nanoseconds than make a second.
pub wake-ends :
    (n fuel : ℕ) (clock_nanosleep : Nanosleep) (period next : ℕ) (read : Timespec)
    → n < fuel
    → ((j : ℕ) → j < n → clock_nanosleep (timespec_of (adjust period next (now read))) j ≡ eintr)
    → clock_nanosleep (timespec_of (adjust period next (now read))) n ≢ eintr
    → let until = timespec_of (adjust period next (now read)) in
      (wake fuel clock_nanosleep period next read
        ≡ some (record { time = now read; fire = clock_nanosleep until n == 0 }))
      × (now until ≡ adjust period next (now read))
      × (until.tv_nsec < second)
unfolding wake sleep_until
wake-ends n fuel clock_nanosleep period next read l interrupted other =
    let t = adjust period next (now read) in
    let (same, below) = now-timespec_of t in
    let from_0 : (k : ℕ) → 0 + k ≡ k = λ k. omega arith in
    let slept =
      sleeps_lem n fuel clock_nanosleep (timespec_of t) 0 l (λ j b. rw (from_0 j) (interrupted j b))
        (rw (from_0 n) other) in
    (rw slept (rw (from_0 n) refl), same, below)
