-- ===== src/Composer/Client.antt =====
-- ComposerClient of graphics/composer/aidl/ComposerClient.{h,cpp}: a session, with its engine and the
-- resource manager, on the ComposerHal that outlives it. A call that only answers a constant is in
-- Client/Answers; the callbacks of the framework do no more than log their status.
pub mod Answers
pub mod Events
pub mod Destruction
pub mod Tracking
pub mod Callbacks
use hardware_arpi.Base.{
  ℕ, ◌%◌, ◌^◌, Bool, true, false, List, [], ◌∷◌, Option, none, some, if◌then◌else◌,
}
use hardware_arpi.Base.Int.{ℤ}
use hardware_arpi.Composer.Error.{Error, is_ok}
use hardware_arpi.Composer.Post.{Drm}
use hardware_arpi.Composer.Hal.{
  ComposerHal, hal_create_layer, hal_destroy_layer, hal_validate_display, hal_present_display,
  hal_accept_display_changes,
}
use hardware_arpi.Composer.Engine.{Engine, DisplayCommand, Reply, execute}
use hardware_arpi.Composer.Resources.{
  ComposerResources, Cleared, resource_manager, resources_clear, resources_add_layer,
  resources_remove_layer, resources_readback_buffer, set_client_target_cache_size,
}
use hardware_arpi.Composer.Vsync.Thread.{VsyncThread, set_vsync_enabled}
use hardware_arpi.Composer.Client.Events.{unregister_event_callback}

-- The engine holds the HAL and the resource manager that the client holds too; the vsync thread is
-- the HAL's.
pub record Client {ℓ} (R : Type ℓ) : Type ℓ where
  pub engine : Engine R
  pub vsync_thread : VsyncThread

-- The HAL after the calls for a display: its layers, then validating, accepting and presenting.
-- What they return is dropped.
unfoldable pub destroy_layers : ComposerHal → ℕ → List ℕ → ComposerHal
destroy_layers hal display [] = hal
destroy_layers hal display (layer ∷ layers) =
    destroy_layers (hal_destroy_layer hal display layer).0 display layers

unfoldable pub final_present : Drm → ComposerHal → ℕ → ComposerHal × Error × Option ℤ
final_present drm hal display =
    let validated = (hal_validate_display hal display).0 in
    let accepted = (hal_accept_display_changes validated display).0 in
    hal_present_display drm accepted display

unfoldable pub remove_display : Drm → ComposerHal → Cleared → ComposerHal
unfolding destroy_layers final_present
remove_display drm hal c =
    let hal' = destroy_layers hal c.display c.layers in
    if c.is_virtual then hal' else (final_present drm hal' c.display).0

unfoldable pub remove_displays : Drm → ComposerHal → List Cleared → ComposerHal
remove_displays drm hal [] = hal
remove_displays drm hal (c ∷ cs) = remove_displays drm (remove_display drm hal c) cs

module _ {ℓ} {R : Type ℓ} where
  abbrev with_hal : Client R → ComposerHal → Client R
  with_hal c hal = record c { engine = record (c.engine) { hal = hal } }

  abbrev with_resources : Client R → R × Error → Client R × Error
  with_resources c (r, err) = (record c { engine = record (c.engine) { resources = r } }, err)

  -- A new client on the HAL, with new resources; callbacks are registered later.
  unfoldable pub init : ComposerHal → VsyncThread → R → Client R
  init hal thread resources = record {
    engine = record { hal = hal; resources = resources; replies = []; command_index = 0 };
    vsync_thread = thread;
  }

module _ {ℓ} {R : Type ℓ} (lib : ComposerResources R) where
  -- The layer is new in the HAL; `layer = 0` sets the pointer, so what it pointed to stays.
  unfoldable pub add_created : Client R → ℕ → ℕ → ComposerHal × Error × Option ℕ → Client R × Error
  add_created c display slots (hal, err, none) = (with_hal c hal, err)
  add_created c display slots (hal, err, some layer) =
      if is_ok err
      then with_resources (with_hal c hal)
          (resources_add_layer lib c.engine.resources display layer slots)
      else (with_hal c hal, err)

  -- The new layer is what the HAL wrote, if it wrote one; the slot count becomes an unsigned number.
  unfoldable pub client_create_layer : Client R → ℕ → ℕ → Client R × Error × Option ℕ
  unfolding add_created
  client_create_layer c display slots =
      let created = hal_create_layer c.engine.hal display in
      let (c', err) = add_created c display (slots % 2 ^ 32) created in (c', err, created.2)

  unfoldable pub client_destroy_layer : Client R → ℕ → ℕ → Client R × Error
  client_destroy_layer c display layer =
      let (hal, err) = hal_destroy_layer c.engine.hal display layer in
      if is_ok err
      then with_resources (with_hal c hal)
          (resources_remove_layer lib c.engine.resources display layer)
      else (with_hal c hal, err)

  unfoldable pub execute_commands : Drm → Client R → List DisplayCommand → Client R × List Reply
  execute_commands drm c commands =
      let (e, results) = execute (resource_manager lib) drm c.engine commands in
      (record c { engine = e }, results)

  unfoldable pub set_client_target_slot_count : Client R → ℕ → ℕ → Client R × Error
  set_client_target_slot_count c display count =
      with_resources c
        (set_client_target_cache_size lib c.engine.resources display (count % 2 ^ 32))

  -- The buffer that is found is dropped, and the fence waited for and closed.
  unfoldable pub set_readback_buffer : Client R → ℕ → ℕ → Client R × Error
  set_readback_buffer c display buffer =
      let (r, err, found) = resources_readback_buffer lib c.engine.resources display buffer in
      with_resources c (r, err)

  unfoldable pub destroy_resources : Drm → Client R → Client R
  unfolding remove_displays
  destroy_resources drm c =
      let (r, cleared) = resources_clear lib c.engine.resources in
      record c {
        engine = record (c.engine) {
          hal = remove_displays drm c.engine.hal cleared;
          resources = r;
        };
      }

  -- The destructor of a client that was initialised, up to the call of `mOnClientDestroyed`.
  unfoldable pub destroy_client : Drm → Bool → Client R → Client R
  unfolding destroy_resources
  destroy_client drm display2_active c =
      let (e, t) = unregister_event_callback lib display2_active c.engine c.vsync_thread in
      destroy_resources drm (record { engine = e; vsync_thread = t })

module _ {ℓ} {R : Type ℓ} where
  -- `static_cast<int32_t>(enabled)`, so 0 stands for what HWC2_VSYNC_DISABLE should.
  unfoldable pub client_set_vsync_enabled : Client R → ℕ → Bool → Client R × Error
  client_set_vsync_enabled c display enabled =
      let (t, err) = set_vsync_enabled c.vsync_thread display (if enabled then 1 else 0) in
      (record c { vsync_thread = t }, err)
