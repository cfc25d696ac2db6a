-- ===== src/Composer/Vsync.antt =====
-- The vsync thread of graphics/composer/aidl/Hwc2Device.cpp. Times are nanoseconds from 0 that stay
-- below 2 ^ 63, where the program's int64_t does not wrap.
pub mod Spacing
pub mod Thread
pub mod Sleeping
use hardware_arpi.Base.{
  ℕ, ◌+◌, ◌-◌, ◌*◌, ◌/◌, Bool, true, false, List, [], ◌∷◌, Option, none, some, if◌then◌else◌, ltb,
}

-- `n = (t - mNextVsync + mPeriod - 1) / mPeriod; mNextVsync += mPeriod * n;` where it has passed.
unfoldable pub adjust : ℕ → ℕ → ℕ → ℕ
adjust period next t =
    if ltb next t then next + period * ((t - next + period - 1) / period) else next

-- An iteration: the time that `now` reads, and whether `sleepUntil` succeeds.
pub record Wake : Type 0 where
  pub time : ℕ
  pub fire : Bool

-- The next vsync after an iteration.
unfoldable pub advance : ℕ → ℕ → Wake → ℕ
unfolding adjust
advance period next w =
    if w.fire then adjust period next w.time + period else adjust period next w.time

-- The times at which the callback is called where it is set. The wait while callbacks are disabled
-- changes no time.
unfoldable pub vsync_loop : ℕ → ℕ → List Wake → List ℕ
unfolding adjust advance
vsync_loop period next [] = []
vsync_loop period next (w ∷ ws) =
    let later = vsync_loop period (advance period next w) ws in
    if w.fire then adjust period next w.time ∷ later else later
