-- ===== src/Composer/Client/Events.antt =====
-- ComposerClient::HalEventCallback, registerCallback, and the parts of ComposerHal and Hwc2Device that
-- call back: Hwc2Device::registerCallback tells the displays there are when it is called.
use hardware_arpi.Base.{ℕ, zero, suc, ◌+◌, Bool, true, false, if◌then◌else◌}
use hardware_arpi.Composer.Error.{Error, no_error, bad_parameter, is_ok}
use hardware_arpi.Composer.Device.{dataspace_unknown}
use hardware_arpi.Composer.Hal.{hal_set_client_target, register_event_callback}
use hardware_arpi.Composer.Engine.{Engine}
use hardware_arpi.Composer.Resources.{
  ComposerResources, resources_has_display, resources_add_physical_display,
  resources_remove_display, resources_set_must_validate, resources_client_target,
  resources_output_buffer, get_client_target_cache_size, get_output_buffer_cache_size,
}
use hardware_arpi.Composer.Vsync.Thread.{VsyncThread, set_callback}

-- HWC2_CALLBACK_*.
pub data Descriptor : Type 0 where
  callback_hotplug callback_refresh callback_vsync other_callback : Descriptor

module _ {ℓ} {R : Type ℓ} (lib : ComposerResources R) where
  -- The buffer that the cache has for the slot becomes the client target; an error is logged.
  unfoldable pub clean_target_slot : Engine R → ℕ → R × Error × ℕ → Engine R
  clean_target_slot e display (r, err, handle) =
      let hal = (hal_set_client_target e.hal display handle dataspace_unknown).0 in
      if is_ok err then record e { hal = hal; resources = r } else record e { resources = r }

  -- The slots from `slot` on, `left` of them; the index stays within an int.
  unfoldable pub clean_target_slots : Engine R → ℕ → ℕ → ℕ → Engine R
  unfolding clean_target_slot
  clean_target_slots e display slot zero = e
  clean_target_slots e display slot (suc left) =
      let found = resources_client_target lib e.resources display slot true 0 in
      clean_target_slots (clean_target_slot e display found) display (slot + 1) left

  -- What is found for an output buffer is dropped.
  unfoldable pub clean_output_slots : Engine R → ℕ → ℕ → ℕ → Engine R
  clean_output_slots e display slot zero = e
  clean_output_slots e display slot (suc left) =
      let found = resources_output_buffer lib e.resources display slot true 0 in
      clean_output_slots (record e { resources = found.0 }) display (slot + 1) left

  unfoldable pub clean_display_resources : Engine R → ℕ → Engine R
  unfolding clean_target_slots clean_output_slots
  clean_display_resources e display =
      let (err, size) = get_client_target_cache_size lib e.resources display in
      let e' = if is_ok err then clean_target_slots e display 0 size else e in
      let (err', size') = get_output_buffer_cache_size lib e'.resources display in
      if is_ok err' then clean_output_slots e' display 0 size' else e'

  abbrev with_added : Engine R → R × Error → Engine R
  with_added e (r, err) = record e { resources = r }

  -- The errors of adding and removing are dropped.
  unfoldable pub on_hotplug : Engine R → ℕ → Bool → Engine R
  unfolding clean_display_resources
  on_hotplug e display connected =
      let cleaned = clean_display_resources e display in
      let removed = with_added cleaned (resources_remove_display lib cleaned.resources display) in
      let e' = if resources_has_display lib e.resources display then removed else e in
      if connected
      then with_added e' (resources_add_physical_display lib e'.resources display)
      else with_added e (resources_remove_display lib e.resources display)

  unfoldable pub on_refresh : Engine R → ℕ → Engine R
  on_refresh e display = record e {
    resources = resources_set_must_validate lib e.resources display true;
  }

  -- Hwc2Device::registerCallback with the hooks of ComposerHal, which `set` says whether there are.
  unfoldable pub register_device_callback :
      Bool → Engine R → VsyncThread → Descriptor → Bool → Engine R × VsyncThread × Error
  unfolding on_hotplug
  register_device_callback display2_active e t callback_hotplug set =
      let first = on_hotplug e 0 true in
      if set
      then ((if display2_active then on_hotplug first 1 true else first), t, no_error)
      else (e, t, no_error)
  register_device_callback display2_active e t callback_refresh set = (e, t, no_error)
  register_device_callback display2_active e t callback_vsync set =
      (e, set_callback t set, no_error)
  register_device_callback display2_active e t other_callback set = (e, t, bad_parameter)

  -- ComposerClient::registerCallback, through ComposerHal::registerEventCallback.
  unfoldable pub register_callback : Bool → Engine R → VsyncThread → Engine R × VsyncThread
  unfolding register_device_callback
  register_callback display2_active e t =
      let started = record e { hal = register_event_callback e.hal } in
      let (e', t', err) =
        register_device_callback display2_active started t callback_hotplug true in
      let (e'', t'', err') = register_device_callback display2_active e' t' callback_vsync true in
      (e'', t'')

  -- ComposerHal::unregisterEventCallback.
  unfoldable pub unregister_event_callback : Bool → Engine R → VsyncThread → Engine R × VsyncThread
  unfolding register_device_callback
  unregister_event_callback display2_active e t =
      let (e', t', err) = register_device_callback display2_active e t callback_hotplug false in
      let (e'', t'', err') = register_device_callback display2_active e' t' callback_vsync false in
      (e'', t'')
