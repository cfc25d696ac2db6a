-- ===== src/Composer/Hal/Validation.antt =====
-- What the calls of ComposerHal on the frame cycle answer.
use hardware_arpi.Base.{
  ℕ, ◌≡◌, refl, true, false, [], inl, inr, Bool-cases, ltb, length, map, take-length,
}
use hardware_arpi.Composer.Error.{no_error, is_display}
use hardware_arpi.Composer.Post.{Drm}
use hardware_arpi.Composer.Device.{
  client, modified, validated, is_state, validate_display, present_display, accept_display_changes,
  get_changed_composition_types,
}
use hardware_arpi.Composer.Device.Protocol.{min_same, no_dirty}
use hardware_arpi.Composer.Hal.{
  ComposerHal, hal_validate_display, hal_accept_display_changes, hal_present_display,
}

-- On a display there is, validating returns no error, also where Hwc2Device answers HAS_CHANGES, with
-- every dirty layer to be composed by the client, and clears the flag that a validation is due.
pub hal_validate_display_lem :
    (hal : ComposerHal) (display : ℕ)
    → is_display display ≡ true
    → hal_validate_display hal display ≡ (
      record { device = (validate_display hal.device display).0; must_validate = false },
      no_error,
      map (λ layer. (layer, client)) hal.device.dirty_layers,
    )
unfolding hal_validate_display validate_display get_changed_composition_types
hal_validate_display_lem hal display e =
    let dirty = hal.device.dirty_layers in
    elim (Bool-cases (ltb 0 (length dirty))) [
      | inl f ↦ rw (e, f, min_same (length dirty), take-length dirty) refl
      | inr f ↦ rw (e, f, no_dirty dirty f) refl
    ]

pub hal_accept_display_changes_lem :
    (hal : ComposerHal) (display : ℕ)
    → is_display display ≡ true
    → is_state hal.device.state modified ≡ false
    → hal_accept_display_changes hal display ≡ (
      record hal { device = record (hal.device) { state = validated; dirty_layers = [] } },
      no_error,
    )
unfolding hal_accept_display_changes accept_display_changes
hal_accept_display_changes_lem hal display e s = rw (e, s) refl

-- Where nothing is due and the device is validated, presenting is the device's.
pub hal_present_display_lem :
    (drm : Drm) (hal : ComposerHal) (display : ℕ)
    → is_display display ≡ true
    → hal.must_validate ≡ false
    → hal.device.state ≡ validated
    → hal_present_display drm hal display ≡ (
      record hal { device = (present_display drm hal.device display).0 },
      no_error,
      (present_display drm hal.device display).2,
    )
unfolding hal_present_display present_display
hal_present_display_lem drm hal display e m s = rw (m, e, s) refl
