-- ===== src/Composer/Vsync/Sleeping.antt =====
-- now and sleepUntil of VsyncThread in graphics/composer/aidl/Hwc2Device.cpp, on the kernel's clock.
pub mod Waking
use hardware_arpi.Base.{
  ℕ, zero, suc, ◌+◌, ◌*◌, ◌/◌, ◌%◌, Bool, true, false, Option, none, some, ◌==◌, if◌then◌else◌,
}
use mathlib.Core.Option.{map}
use hardware_arpi.Composer.Vsync.{Wake, adjust}

-- `struct timespec`.
pub record Timespec : Type 0 where
  pub tv_sec : ℕ
  pub tv_nsec : ℕ

abbrev pub second : ℕ
second = 1000000000

-- EINTR.
abbrev pub eintr : ℕ
eintr = 4

-- The nanoseconds of what `clock_gettime` read.
unfoldable pub now : Timespec → ℕ
now ts = ts.tv_sec * second + ts.tv_nsec

unfoldable pub timespec_of : ℕ → Timespec
timespec_of t = record { tv_sec = t / second; tv_nsec = t % second }

-- What `clock_nanosleep` returns for an absolute time at its calls, which are counted from 0.
abbrev pub Nanosleep : Type 0
Nanosleep = Timespec → ℕ → ℕ

-- The loop of sleepUntil from the `i`-th call on; none where the fuel is too little.
unfoldable pub sleeps : ℕ → Nanosleep → Timespec → ℕ → Option Bool
sleeps zero clock_nanosleep ts i = none
sleeps (suc fuel) clock_nanosleep ts i =
    let again = sleeps fuel clock_nanosleep ts (i + 1) in
    let error = clock_nanosleep ts i in
    if error == 0 then some true else if error == eintr then again else some false

unfoldable pub sleep_until : ℕ → Nanosleep → ℕ → Option Bool
unfolding sleeps timespec_of
sleep_until fuel clock_nanosleep t = sleeps fuel clock_nanosleep (timespec_of t) 0

-- The body of an iteration up to the lock: the time read, and whether the sleep succeeds.
unfoldable pub wake : ℕ → Nanosleep → ℕ → ℕ → Timespec → Option Wake
unfolding sleep_until now adjust
wake fuel clock_nanosleep period next read =
    map (λ fire. record { time = now read; fire = fire })
      (sleep_until fuel clock_nanosleep (adjust period next (now read)))
