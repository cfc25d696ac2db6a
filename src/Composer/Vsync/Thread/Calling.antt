-- ===== src/Composer/Vsync/Thread/Calling.antt =====
-- With which times VsyncThread calls back over sequences of events, and when.
use hardware_arpi.Base.{
  ℕ, ◌+◌, ◌%◌, ◌≤◌, ◌<◌, ◌≡◌, ◌≢◌, refl, ◌∙◌, Bool, true, false, ◌&&◌, List, [], ◌∷◌, length, arith,
  if◌then◌else◌,
}
use native.Mathlib.Nat.{add-mod_right}
use hardware_arpi.Composer.Vsync.{Wake, advance}
use hardware_arpi.Composer.Vsync.Spacing.{adjust_lem}
use hardware_arpi.Composer.Vsync.Thread.{
  VsyncThread, Place, starting, waiting, sleeping, ended, Event, loops, stops, sets_callback,
  enables, start, stop, set_callback, enable_callback, after_wait, loop_test, woken, loop_step,
  happen, happen_all,
}

-- The calls, last first, are in phase with `first`, not before it, and each is a period or more after
-- the one before; so is the next vsync.
abbrev pub SpacedBack : ℕ → ℕ → List ℕ → ℕ → Type 0
SpacedBack period first [] next = (first ≤ next) × (next % period ≡ first % period)
SpacedBack period first (t ∷ ts) next =
    (t + period ≤ next) × (next % period ≡ first % period) × SpacedBack period first ts t

SpacedBack-later :
    (period first : ℕ) (ts : List ℕ) (next later : ℕ)
    → next ≤ later
    → later % period ≡ next % period
    → SpacedBack period first ts next
    → SpacedBack period first ts later
SpacedBack-later period first [] next later l e (a, b) = (omega (arith, l, a), e ∙ b)
SpacedBack-later period first (t ∷ ts) next later l e (a, b, c) = (omega (arith, l, a), e ∙ b, c)

phase :
    (period first : ℕ) (ts : List ℕ) (next : ℕ)
    → SpacedBack period first ts next
    → next % period ≡ first % period
phase period first [] next s = s.1
phase period first (t ∷ ts) next s = s.1

-- After a sleep until `a`: the callback where there is one, and the next vsync where it succeeded.
woken_spaced :
    (period first : ℕ) (fire has : Bool) (ts : List ℕ) (next a : ℕ)
    → next ≤ a
    → a % period ≡ next % period
    → SpacedBack period first ts next
    → SpacedBack period first (if fire && has then a ∷ ts else ts) (if fire then a + period else a)
woken_spaced period first true true ts next a l e s =
    let now = SpacedBack-later period first ts next a l e s in
    (omega arith, add-mod_right a period ∙ phase period first ts a now, now)
woken_spaced period first true false ts next a l e s =
    SpacedBack-later period first ts next (a + period) (omega (arith, l))
      (add-mod_right a period ∙ e) s
woken_spaced period first false has ts next a l e s = SpacedBack-later period first ts next a l e s

module _ (period first : ℕ) (positive : 0 < period) where
  record KeepsTime (t : VsyncThread) : Type 0 where
    same_period : t.period ≡ period
    spaced : SpacedBack t.period first t.calls t.next_vsync

  woken-KeepsTime : (t : VsyncThread) (w : Wake) → KeepsTime t → KeepsTime (woken t w)
  unfolding woken advance
  woken-KeepsTime t w k =
      let p : 0 < t.period = rw k.same_period positive in
      let (late, above, near, same) = adjust_lem t.period t.next_vsync w.time p in
      record {
        same_period = k.same_period;
        spaced =
            woken_spaced t.period first w.fire t.has_callback t.calls t.next_vsync _ above same
              k.spaced;
      }

  step-KeepsTime :
      (t : VsyncThread) (w : Wake) (p : Place)
      → t.place ≡ p
      → KeepsTime t
      → KeepsTime (loop_step t w)
  unfolding loop_step
  step-KeepsTime t w starting at k = rw at record { same_period = k.same_period; spaced = k.spaced }
  step-KeepsTime t w waiting at k = rw at record { same_period = k.same_period; spaced = k.spaced }
  step-KeepsTime t w sleeping at k = rw at (woken-KeepsTime t w k)
  step-KeepsTime t w ended at k = rw at record { same_period = k.same_period; spaced = k.spaced }

  happen-KeepsTime : (t : VsyncThread) (e : Event) → KeepsTime t → KeepsTime (happen t e)
  unfolding happen stop set_callback enable_callback
  happen-KeepsTime t (loops w) k = step-KeepsTime t w t.place refl k
  happen-KeepsTime t stops k = record { same_period = k.same_period; spaced = k.spaced }
  happen-KeepsTime t (sets_callback b) k = record { same_period = k.same_period; spaced = k.spaced }
  happen-KeepsTime t (enables b) k = record { same_period = k.same_period; spaced = k.spaced }

  all-KeepsTime : (t : VsyncThread) (es : List Event) → KeepsTime t → KeepsTime (happen_all t es)
  unfolding happen_all
  all-KeepsTime t [] k = k
  all-KeepsTime t (e ∷ es) k = all-KeepsTime (happen t e) es (happen-KeepsTime t e k)

-- Whatever the threads do after a start with a period above 0, however late the vsync thread wakes and
-- whichever sleeps fail: the callback has been called with times in phase with the first vsync and not
-- before it, each a period or more after the one before, and the next vsync is a period or more after
-- the last of them.
pub start-SpacedBack :
    (first period : ℕ) (es : List Event)
    → 0 < period
    → let t = happen_all (start first period) es in SpacedBack period first t.calls t.next_vsync
unfolding start
start-SpacedBack first period es positive =
    let k =
      all-KeepsTime period first positive (start first period) es
        record { same_period = refl; spaced = (omega arith, refl) } in
    rw k.same_period at k.spaced

-- Where the thread is in its loop or before it, started, with callbacks enabled and a callback set: two
-- steps of it, whose sleeps succeed, call the callback at least once.
pub enabled-calls :
    (t : VsyncThread) (w w' : Wake)
    → t.place ≢ ended
    → t.started ≡ true
    → t.callback_enabled ≡ true
    → t.has_callback ≡ true
    → w.fire ≡ true
    → w'.fire ≡ true
    → length t.calls < length (loop_step (loop_step t w) w').calls
unfolding loop_step woken loop_test after_wait
enabled-calls t w w' p s on has f f' = go t.place refl
  where
    go : (q : Place) → t.place ≡ q → length t.calls < length (loop_step (loop_step t w) w').calls
    go starting at = rw (at, s, on, has, f') (omega arith)
    go waiting at = rw (at, s, on, has, f') (omega arith)
    go sleeping at = rw (at, on, has, f, f') (omega arith)
    go ended at = absurd (p at)
