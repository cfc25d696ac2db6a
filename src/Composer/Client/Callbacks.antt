-- ===== src/Composer/Client/Callbacks.antt =====
-- When a client of ComposerClient gets vsync callbacks: registering, setVsyncEnabled and the
-- destructor, with the steps of the vsync thread after them.
use hardware_arpi.Base.{
  ℕ, suc, ◌≤◌, ◌<◌, ◌≡◌, ◌≢◌, refl, ◌∙◌, Bool, true, false, not, ◌&&◌, List, [], ◌∷◌, length, arith,
}
use hardware_arpi.Composer.Error.{no_error, is_display}
use hardware_arpi.Composer.Post.{Drm}
use hardware_arpi.Composer.Hal.{ComposerHal}
use hardware_arpi.Composer.Resources.{ComposerResources}
use hardware_arpi.Composer.Client.{
  Client, init, destroy_client, destroy_resources, client_set_vsync_enabled,
}
use hardware_arpi.Composer.Client.Events.{
  register_callback, register_device_callback, unregister_event_callback,
}
use hardware_arpi.Composer.Vsync.{Wake}
use hardware_arpi.Composer.Vsync.Thread.{
  VsyncThread, Place, starting, waiting, sleeping, ended, Event, loops, stops, sets_callback,
  enables, stop, set_callback, enable_callback, set_vsync_enabled, woken, loop_step, happen,
  happen_all,
}
use hardware_arpi.Composer.Vsync.Thread.Calling.{enabled-calls}
use hardware_arpi.Composer.Vsync.Thread.Stopping.{never_enables, disabled_calls_once}

-- No event sets a callback.
abbrev pub never_sets : List Event → Bool
never_sets [] = true
never_sets (sets_callback b ∷ es) = not b && never_sets es
never_sets (e ∷ es) = never_sets es

silent_step :
    (t : VsyncThread) (w : Wake) (p : Place)
    → t.place ≡ p
    → t.has_callback ≡ false
    → ((loop_step t w).has_callback ≡ false) × ((loop_step t w).calls ≡ t.calls)
unfolding loop_step woken
silent_step t w starting at none_set = rw at (none_set, refl)
silent_step t w waiting at none_set = rw at (none_set, refl)
silent_step t w sleeping at none_set = rw at (none_set, ground (arith, none_set))
silent_step t w ended at none_set = rw at (none_set, refl)

-- Without a callback nothing is called until one is set.
silent :
    (t : VsyncThread) (es : List Event)
    → t.has_callback ≡ false
    → never_sets es ≡ true
    → (happen_all t es).calls ≡ t.calls
unfolding happen_all happen stop set_callback enable_callback
silent t [] none_set n = refl
silent t (loops w ∷ es) none_set n =
    let (none_set', same) = silent_step t w t.place refl none_set in
    silent (loop_step t w) es none_set' n ∙ same
silent t (stops ∷ es) none_set n = silent (stop t) es none_set n
silent t (sets_callback b ∷ es) none_set n =
    silent (set_callback t b) es (ground (arith, n)) (ground (arith, n))
silent t (enables b ∷ es) none_set n = silent (enable_callback t b) es none_set n

module _ {ℓ} {R : Type ℓ} (lib : ComposerResources R) (display2_active : Bool) where
  -- The client once it has registered a callback.
  abbrev pub registered : Client R → Client R
  registered c =
      let (e, t) = register_callback lib display2_active c.engine c.vsync_thread in
      record { engine = e; vsync_thread = t }

  registered_lem : (c : Client R) → (registered c).vsync_thread ≡ set_callback c.vsync_thread true
  unfolding register_callback register_device_callback
  registered_lem c = refl

  destroyed :
      (drm : Drm) (c : Client R)
      → (destroy_client lib drm display2_active c).vsync_thread ≡ set_callback c.vsync_thread false
  unfolding destroy_client destroy_resources unregister_event_callback register_device_callback
  destroyed drm c = refl

  -- For a client that registers a callback while the vsync thread runs, and an existing display:
  -- setVsyncEnabled succeeds; once it enables, two steps of the thread whose sleeps succeed call the
  -- callback; once it disables, the callback is called at most once more, whatever the threads do until
  -- one enables it again.
  pub client_set_vsync_enabled-calls :
      (c : Client R) (display : ℕ) (w w' : Wake) (es : List Event)
      → is_display display ≡ true
      → c.vsync_thread.place ≢ ended
      → c.vsync_thread.started ≡ true
      → w.fire ≡ true
      → w'.fire ≡ true
      → never_enables es ≡ true
      → let (on, err) = client_set_vsync_enabled (registered c) display true in
        let (off, err') = client_set_vsync_enabled (registered c) display false in
        (err ≡ no_error)
        × (length on.vsync_thread.calls < length (loop_step (loop_step on.vsync_thread w) w').calls)
        × (err' ≡ no_error)
        × (length (happen_all off.vsync_thread es).calls ≤ suc (length off.vsync_thread.calls))
  unfolding client_set_vsync_enabled set_vsync_enabled enable_callback set_callback
  client_set_vsync_enabled-calls c display w w' es d p s f f' n =
      let on = enable_callback (set_callback c.vsync_thread true) true in
      let off = enable_callback (set_callback c.vsync_thread true) false in
      rw (registered_lem c, d)
        (refl, enabled-calls on w w' p s refl refl f f', refl, disabled_calls_once off es refl n)

  -- Once a client is destroyed nothing is called until a callback is set. Where it left callbacks
  -- enabled on a running vsync thread, the next client gets them as soon as it registers: two steps of
  -- the thread whose sleeps succeed call back, without a call of setVsyncEnabled.
  pub destroy_client-calls :
      (drm : Drm) (c : Client R) (hal : ComposerHal) (r : R) (w w' : Wake) (es : List Event)
      → never_sets es ≡ true
      → c.vsync_thread.place ≢ ended
      → c.vsync_thread.started ≡ true
      → c.vsync_thread.callback_enabled ≡ true
      → w.fire ≡ true
      → w'.fire ≡ true
      → let gone = (destroy_client lib drm display2_active c).vsync_thread in
        let next = (registered (init hal gone r)).vsync_thread in
        ((happen_all gone es).calls ≡ gone.calls)
        × (length next.calls < length (loop_step (loop_step next w) w').calls)
  unfolding set_callback init
  destroy_client-calls drm c hal r w w' es n p s on f f' =
      let gone = set_callback c.vsync_thread false in
      rw (registered_lem (init hal _ r), destroyed drm c)
        (silent gone es refl n, enabled-calls (set_callback gone true) w w' p s on refl f f')
