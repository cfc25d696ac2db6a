-- ===== src/Composer/Vsync/Thread/Stopping.antt =====
-- When VsyncThread::vsyncLoop ends, and how often it calls back once callbacks are disabled.
use hardware_arpi.Base.{
  ℕ, suc, ◌+◌, ◌≤◌, ◌≡◌, refl, Bool, true, false, not, ◌&&◌, ◌||◌, List, [], ◌∷◌, length, map,
  arith, inl, inr, Bool-cases, ◌∙◌,
}
use hardware_arpi.Composer.Vsync.{Wake}
use hardware_arpi.Composer.Vsync.Thread.{
  VsyncThread, Place, starting, waiting, sleeping, ended, Event, loops, stops, sets_callback,
  enables, stop, set_callback, enable_callback, after_wait, loop_test, woken, loop_step, happen,
  happen_all,
}

abbrev pub is_enable : Event → Bool
is_enable (enables b) = b
is_enable _ = false

abbrev pub is_loop : Event → Bool
is_loop (loops w) = true
is_loop _ = false

-- No event enables callbacks; the thread makes a step.
abbrev pub never_enables : List Event → Bool
never_enables [] = true
never_enables (e ∷ es) = not (is_enable e) && never_enables es

abbrev pub steps : List Event → Bool
steps [] = false
steps (e ∷ es) = is_loop e || steps es

abbrev pending : Place → ℕ
pending sleeping = 1
pending _ = 0

-- The calls made, and one more where the thread is asleep.
abbrev due : VsyncThread → ℕ
due t = length t.calls + pending t.place

disabled_place : (t : VsyncThread) → t.callback_enabled ≡ false → pending (loop_test t) ≡ 0
unfolding loop_test after_wait
disabled_place t off = elim (Bool-cases t.started) [
  | inl s ↦ rw (off, s) refl
  | inr s ↦ rw (off, s) refl
]

woken-due :
    (t : VsyncThread) (w : Wake)
    → t.callback_enabled ≡ false
    → due (woken t w) ≤ suc (length t.calls)
unfolding woken
woken-due t w off = elim (Bool-cases (w.fire && t.has_callback)) [
  | inl f ↦ rw (f, disabled_place t off) (omega arith)
  | inr f ↦ rw (f, disabled_place t off) (omega arith)
]

pending_one : (p : Place) → pending p ≤ 1
pending_one starting = omega arith
pending_one waiting = omega arith
pending_one sleeping = omega arith
pending_one ended = omega arith

-- The place is an argument, to be split on.
step-due :
    (t : VsyncThread) (w : Wake) (p : Place)
    → t.place ≡ p
    → t.callback_enabled ≡ false
    → due (loop_step t w) ≤ due t
unfolding loop_step after_wait
step-due t w starting at off = elim (Bool-cases t.started) [
  | inl s ↦ rw (at, off, s) (omega arith)
  | inr s ↦ rw (at, s) (omega arith)
]
step-due t w waiting at off = elim (Bool-cases t.started) [
  | inl s ↦ rw (at, off, s) (omega arith)
  | inr s ↦ rw (at, off, s) (omega arith)
]
step-due t w sleeping at off = rw at (omega (arith, woken-due t w off))
step-due t w ended at off = rw at (omega arith)

step-enabled :
    (t : VsyncThread) (w : Wake) (p : Place)
    → t.place ≡ p
    → ((loop_step t w).callback_enabled ≡ t.callback_enabled)
      × ((loop_step t w).started ≡ t.started)
unfolding loop_step woken
step-enabled t w starting at = rw at (refl, refl)
step-enabled t w waiting at = rw at (refl, refl)
step-enabled t w sleeping at = rw at (refl, refl)
step-enabled t w ended at = rw at (refl, refl)

happen-off :
    (t : VsyncThread) (e : Event)
    → is_enable e ≡ false
    → t.callback_enabled ≡ false
    → ((happen t e).callback_enabled ≡ false) × (due (happen t e) ≤ due t)
unfolding happen stop set_callback enable_callback
happen-off t (loops w) n off =
    ((step-enabled t w t.place refl).0 ∙ off, step-due t w t.place refl off)
happen-off t stops n off = (off, omega arith)
happen-off t (sets_callback b) n off = (off, omega arith)
happen-off t (enables b) n off = (n, omega arith)

happen_all-due :
    (t : VsyncThread) (es : List Event)
    → never_enables es ≡ true
    → t.callback_enabled ≡ false
    → due (happen_all t es) ≤ due t
unfolding happen_all
happen_all-due t [] n off = omega arith
happen_all-due t (e ∷ es) n off =
    let (off', less) = happen-off t e (ground (arith, n)) off in
    omega (arith, happen_all-due (happen t e) es (ground (arith, n)) off', less)

-- With callbacks disabled, whatever the threads do until one enables them again, the callback is
-- called at most once more.
pub disabled_calls_once :
    (t : VsyncThread) (es : List Event)
    → t.callback_enabled ≡ false
    → never_enables es ≡ true
    → length (happen_all t es).calls ≤ suc (length t.calls)
disabled_calls_once t es off n = omega (arith, happen_all-due t es n off, pending_one t.place)

stopped_step :
    (t : VsyncThread) (w : Wake) (p : Place)
    → t.place ≡ p
    → t.callback_enabled ≡ false
    → t.started ≡ false
    → (loop_step t w).place ≡ ended
unfolding loop_step after_wait loop_test woken
stopped_step t w starting at off s = rw (at, s) refl
stopped_step t w waiting at off s = rw (at, off, s) refl
stopped_step t w sleeping at off s = rw (at, off, s) refl
stopped_step t w ended at off s = rw at refl

-- A stopped thread with callbacks disabled stays so, and at the end once it is there.
stopped_event :
    (t : VsyncThread) (e : Event)
    → is_enable e ≡ false
    → t.callback_enabled ≡ false
    → t.started ≡ false
    → ((happen t e).started ≡ false)
      × (is_loop e ≡ true → (happen t e).place ≡ ended)
      × (t.place ≡ ended → (happen t e).place ≡ ended)
unfolding happen stop set_callback enable_callback
stopped_event t (loops w) n off s =
    let end = stopped_step t w t.place refl off s in
    ((step-enabled t w t.place refl).1 ∙ s, λ l. end, λ p. end)
stopped_event t stops n off s = (refl, λ l. ground (arith, l), λ p. p)
stopped_event t (sets_callback b) n off s = (s, λ l. ground (arith, l), λ p. p)
stopped_event t (enables b) n off s = (s, λ l. ground (arith, l), λ p. p)

ended_stays :
    (t : VsyncThread) (es : List Event)
    → never_enables es ≡ true
    → t.callback_enabled ≡ false
    → t.started ≡ false
    → t.place ≡ ended
    → (happen_all t es).place ≡ ended
unfolding happen_all
ended_stays t [] n off s p = p
ended_stays t (e ∷ es) n off s p =
    let quiet : is_enable e ≡ false = ground (arith, n) in
    let (s', l, p') = stopped_event t e quiet off s in
    ended_stays (happen t e) es (ground (arith, n)) (happen-off t e quiet off).0 s' (p' p)

stopped-ends :
    (t : VsyncThread) (es : List Event)
    → never_enables es ≡ true
    → steps es ≡ true
    → t.callback_enabled ≡ false
    → t.started ≡ false
    → (happen_all t es).place ≡ ended
unfolding happen_all
stopped-ends t [] n w off s = ground (arith, w)
stopped-ends t (e ∷ es) n w off s =
    let quiet : is_enable e ≡ false = ground (arith, n) in
    let quiet_later : never_enables es ≡ true = ground (arith, n) in
    let (s', l, p') = stopped_event t e quiet off s in
    let off' = (happen-off t e quiet off).0 in
    elim (Bool-cases (is_loop e)) [
      | inl f ↦ ended_stays (happen t e) es quiet_later off' s' (l f)
      | inr f ↦ stopped-ends (happen t e) es quiet_later (ground (arith, w, f)) off' s'
    ]

enabled_sleeps :
    (t : VsyncThread) (ws : List Wake)
    → t.place ≡ sleeping
    → t.callback_enabled ≡ true
    → (happen_all t (map loops ws)).place ≡ sleeping
unfolding happen_all happen loop_step woken loop_test
enabled_sleeps t [] p on = p
enabled_sleeps t (w ∷ ws) p on =
    enabled_sleeps (loop_step t w) ws (rw (p, on) refl) (rw (p, on) refl)

-- Once stop is called with callbacks disabled, and as long as nobody enables them, the loop ends at
-- the first step that the thread makes, wherever it is and whatever else happens, so that join
-- returns.
pub stop-ends :
    (t : VsyncThread) (es : List Event)
    → t.callback_enabled ≡ false
    → never_enables es ≡ true
    → steps es ≡ true
    → (happen_all (stop t) es).place ≡ ended
unfolding stop
stop-ends t es off n w = stopped-ends (stop t) es n w off refl

-- Once stop is called while the thread sleeps with callbacks enabled, the loop never ends by its own
-- steps, so that join waits for ever.
pub stop_enabled-never_ends :
    (t : VsyncThread) (ws : List Wake)
    → t.place ≡ sleeping
    → t.callback_enabled ≡ true
    → (happen_all (stop t) (map loops ws)).place ≡ sleeping
unfolding stop
stop_enabled-never_ends t ws p on = enabled_sleeps (stop t) ws p on
