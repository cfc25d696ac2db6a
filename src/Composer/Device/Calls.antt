-- ===== src/Composer/Device/Calls.antt =====
-- The calls of a client that change Hwc2Device, as data, with sequences of them.
use hardware_arpi.Base.{ℕ, Bool, true, false, List, [], ◌∷◌}
use hardware_arpi.Composer.Error.{Error}
use hardware_arpi.Composer.Post.{Drm}
use hardware_arpi.Composer.Device.{
  Device, Composition, create_layer, destroy_layer, set_client_target, validate_display,
  present_display, accept_display_changes, set_layer_composition_type,
}

pub data Call : Type 0 where
  creates : ℕ → Call
  destroys : ℕ → ℕ → Call
  sets_target : ℕ → ℕ → ℕ → Call
  validates : ℕ → Call
  presents : Drm → ℕ → Call
  accepts : ℕ → Call
  sets_type : ℕ → ℕ → Composition → Call

unfoldable pub step : Device → Call → Device × Error
step d (creates display) = ((create_layer d display).0, (create_layer d display).1)
step d (destroys display layer) = destroy_layer d display layer
step d (sets_target display target dataspace) = set_client_target d display target dataspace
step d (validates display) = ((validate_display d display).0, (validate_display d display).1)
step d (presents drm display) =
    ((present_display drm d display).0, (present_display drm d display).1)
step d (accepts display) = accept_display_changes d display
step d (sets_type display layer type) = set_layer_composition_type d display layer type

unfoldable pub run : Device → List Call → Device
run d [] = d
run d (c ∷ cs) = run (step d c).0 cs

-- Whether the call changes layers.
abbrev pub changes_layers : Call → Bool
changes_layers (creates display) = true
changes_layers (destroys display layer) = true
changes_layers (sets_type display layer type) = true
changes_layers _ = false
