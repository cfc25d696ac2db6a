-- ===== src/Examples/Vsync.antt =====
-- The vsync thread, with and without clients.
use hardware_arpi.Base.{
  some, ltb, if◌then◌else◌, ◌==◌, ◌≡◌, ◌≢◌, refl, true, false, List, [], ◌∷◌, arith, length, ◌≤◌,
  ◌<◌, suc, map,
}
use hardware_arpi.Composer.Error.{no_error}
use hardware_arpi.Composer.Client.{init, destroy_client, client_set_vsync_enabled}
use hardware_arpi.Composer.Client.Callbacks.{
  registered, client_set_vsync_enabled-calls, destroy_client-calls,
}
use hardware_arpi.Composer.Vsync.{Wake, adjust}
use hardware_arpi.Composer.Vsync.Thread.{
  VsyncThread, Event, loops, sets_callback, enables, sleeping, ended, start, stop, loop_step,
  happen_all,
}
use hardware_arpi.Composer.Vsync.Thread.Calling.{SpacedBack, start-SpacedBack, enabled-calls}
use hardware_arpi.Composer.Vsync.Thread.Stopping.{
  stop-ends, stop_enabled-never_ends, disabled_calls_once,
}
use hardware_arpi.Composer.Vsync.Sleeping.{
  Timespec, Nanosleep, now, timespec_of, wake, second, eintr,
}
use hardware_arpi.Composer.Vsync.Sleeping.Waking.{wake-ends}
use hardware_arpi.Examples.Displays.{accepting}
use hardware_arpi.Examples.Sessions.{manager, asleep, client_now}

abbrev disabled : VsyncThread
disabled = record asleep { callback_enabled = false }

abbrev wakes_up : Wake
wakes_up = record { time = 90; fire = true }

disabled_called :
    length (happen_all disabled (loops wakes_up ∷ sets_callback true ∷ loops wakes_up ∷ [])).calls
    ≤ 1
disabled_called =
    disabled_calls_once disabled (loops wakes_up ∷ sets_callback true ∷ loops wakes_up ∷ []) refl
      refl

stop-ends_example :
    (happen_all (stop disabled) (sets_callback false ∷ loops wakes_up ∷ [])).place ≡ ended
stop-ends_example = stop-ends disabled (sets_callback false ∷ loops wakes_up ∷ []) refl refl refl

stop_enabled-never_ends_example :
    (happen_all (stop asleep) (map loops (wakes_up ∷ wakes_up ∷ []))).place ≡ sleeping
stop_enabled-never_ends_example =
    stop_enabled-never_ends asleep (wakes_up ∷ wakes_up ∷ []) refl refl

-- The first sleep ends late, and fails; the next one calls back.
abbrev vsync_events : List Event
vsync_events =
    sets_callback true
    ∷ enables true
    ∷ loops wakes_up
    ∷ loops (record { time = 150; fire = false })
    ∷ loops (record { time = 155; fire = true })
    ∷ loops (record { time = 390; fire = true })
    ∷ []

start-SpacedBack_example :
    SpacedBack 16 100
      (happen_all (start 100 16) vsync_events).calls
      (happen_all (start 100 16) vsync_events).next_vsync
start-SpacedBack_example = start-SpacedBack 100 16 vsync_events (omega arith)

vsync_called : (happen_all (start 100 16) vsync_events).calls ≡ 404 ∷ 164 ∷ []
unfolding happen_all start
vsync_called = refl

not_ended : sleeping ≢ ended
not_ended = λ e. cc e

enabled_called : length asleep.calls < length (loop_step (loop_step asleep wakes_up) wakes_up).calls
enabled_called = enabled-calls asleep wakes_up wakes_up not_ended refl refl refl refl refl

client_set_vsync_enabled-calls_example :
    let with_vsync = registered (manager true) false client_now in
    let (on, err) = client_set_vsync_enabled with_vsync 0 true in
    let (off, err') = client_set_vsync_enabled with_vsync 0 false in
    (err ≡ no_error)
    × (length on.vsync_thread.calls
        < length (loop_step (loop_step on.vsync_thread wakes_up) wakes_up).calls)
    × (err' ≡ no_error)
    × (length (happen_all off.vsync_thread (loops wakes_up ∷ loops wakes_up ∷ [])).calls
        ≤ suc (length off.vsync_thread.calls))
unfolding init
client_set_vsync_enabled-calls_example =
    client_set_vsync_enabled-calls (manager true) false client_now 0 wakes_up wakes_up
      (loops wakes_up ∷ loops wakes_up ∷ []) refl not_ended refl refl refl refl

destroy_client-calls_example :
    let gone = (destroy_client (manager true) accepting false client_now).vsync_thread in
    let next =
      (registered (manager true) false (init client_now.engine.hal gone [])).vsync_thread in
    ((happen_all gone (loops wakes_up ∷ enables true ∷ loops wakes_up ∷ [])).calls ≡ gone.calls)
    × (length next.calls < length (loop_step (loop_step next wakes_up) wakes_up).calls)
unfolding init
destroy_client-calls_example =
    destroy_client-calls (manager true) false accepting client_now client_now.engine.hal [] wakes_up
      wakes_up (loops wakes_up ∷ enables true ∷ loops wakes_up ∷ []) refl not_ended refl refl refl
      refl

-- Two signals come before the third sleep ends well.
abbrev signalled : Nanosleep
signalled ts n = if ltb n 2 then eintr else 0

abbrev clock_read : Timespec
clock_read = record { tv_sec = 3; tv_nsec = 500 }

abbrev planned : Timespec
planned = timespec_of (adjust 16666666 2900000000 (now clock_read))

wake-ends_example :
    (wake 3 signalled 16666666 2900000000 clock_read
      ≡ some (record { time = now clock_read; fire = signalled planned 2 == 0 }))
    × (now planned ≡ adjust 16666666 2900000000 (now clock_read))
    × (planned.tv_nsec < second)
wake-ends_example =
    wake-ends 2 3 signalled 16666666 2900000000 clock_read (omega arith) (λ j b. ground (arith, b))
      (ground arith)

planned_at : planned ≡ record { tv_sec = 3; tv_nsec = 16666662 }
unfolding timespec_of adjust now
planned_at = refl
