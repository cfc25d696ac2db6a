-- ===== src/Composer/Vsync/Thread.antt =====
-- Hwc2Device::VsyncThread of graphics/composer/aidl/Hwc2Device.{h,cpp}: start, stop, the callback and
-- the loop, whose steps the calls of other threads come between. The lock is free in a wait and in a
-- sleep, so the places of the loop are those two.
pub mod Stopping
pub mod Calling
use hardware_arpi.Base.{ℕ, Bool, true, false, not, ◌||◌, List, [], ◌∷◌, ◌==◌, if◌then◌else◌, ◌&&◌}
use hardware_arpi.Composer.Error.{Error, no_error, bad_display, is_display}
use hardware_arpi.Composer.Vsync.{Wake, adjust, advance}

-- Where the thread is: started and not yet in the loop, in `mCondition.wait`, in `sleepUntil`, or
-- past the loop, where `join` returns.
pub data Place : Type 0 where
  starting waiting sleeping ended : Place

-- The fields, whether there is a callback, and the times it was called with, last first.
pub record VsyncThread : Type 0 where
  pub place : Place
  pub started : Bool
  pub callback_enabled : Bool
  pub has_callback : Bool
  pub next_vsync : ℕ
  pub period : ℕ
  pub calls : List ℕ

-- HWC2_VSYNC_ENABLE.
abbrev pub vsync_enable : ℕ
vsync_enable = 1

unfoldable pub start : ℕ → ℕ → VsyncThread
start first_vsync period = record {
  place = starting;
  started = true;
  callback_enabled = false;
  has_callback = false;
  next_vsync = first_vsync;
  period = period;
  calls = [];
}

-- Up to the call of `join`.
unfoldable pub stop : VsyncThread → VsyncThread
stop t = record t { started = false }

unfoldable pub set_callback : VsyncThread → Bool → VsyncThread
set_callback t callback = record t { has_callback = callback }

unfoldable pub enable_callback : VsyncThread → Bool → VsyncThread
enable_callback t enable = record t { callback_enabled = enable }

-- Hwc2Device::setVsyncEnabled.
unfoldable pub set_vsync_enabled : VsyncThread → ℕ → ℕ → VsyncThread × Error
unfolding enable_callback
set_vsync_enabled t display enabled =
    if is_display display
    then (enable_callback t (enabled == vsync_enable), no_error)
    else (t, bad_display)

-- The wait for `mCallbackEnabled || !mStarted`, and the break after it.
unfoldable pub after_wait : VsyncThread → Place
after_wait t =
    if t.callback_enabled || not t.started then if t.started then sleeping else ended else waiting

-- The head of the loop.
unfoldable pub loop_test : VsyncThread → Place
unfolding after_wait
loop_test t = if t.callback_enabled then sleeping else after_wait t

-- After the sleep: the callback, the next time, and the head of the loop again.
unfoldable pub woken : VsyncThread → Wake → VsyncThread
unfolding loop_test adjust advance
woken t w = record t {
  place = loop_test t;
  next_vsync = advance t.period t.next_vsync w;
  calls =
      if w.fire && t.has_callback then adjust t.period t.next_vsync w.time ∷ t.calls else t.calls;
}

-- From one place to the next.
unfoldable pub loop_step : VsyncThread → Wake → VsyncThread
unfolding loop_test after_wait woken
loop_step t w = elim t.place [
  | starting ↦ record t { place = if t.started then loop_test t else ended }
  | waiting ↦ record t { place = after_wait t }
  | sleeping ↦ woken t w
  | ended ↦ t
]

-- What can happen: a step of the thread, or a call of another one.
pub data Event : Type 0 where
  loops : Wake → Event
  stops : Event
  sets_callback : Bool → Event
  enables : Bool → Event

unfoldable pub happen : VsyncThread → Event → VsyncThread
unfolding loop_step stop set_callback enable_callback
happen t (loops w) = loop_step t w
happen t stops = stop t
happen t (sets_callback b) = set_callback t b
happen t (enables b) = enable_callback t b

unfoldable pub happen_all : VsyncThread → List Event → VsyncThread
unfolding happen
happen_all t [] = t
happen_all t (e ∷ es) = happen_all (happen t e) es
