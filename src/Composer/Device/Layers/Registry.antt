-- ===== src/Composer/Device/Layers/Registry.antt =====
-- The layers of Hwc2Device as a registry: a set of numbers, and the last one that was given. What the
-- registry leaves out is the order of the set, the dirty layers, and everything that is shown.
use hardware_arpi.Base.{
  ℕ, ◌+◌, ◌%◌, ◌^◌, ◌≡◌, Bool, false, not, ◌&&◌, ◌||◌, List, [], ◌∷◌, Option, none, some, ◌==◌,
  arith, if◌then◌else◌,
}
use hardware_arpi.Base.Ids.{contains}
use hardware_arpi.Composer.Error.{Error, no_error, bad_layer, bad_display, is_display}
use hardware_arpi.Composer.Device.{
  Device, set_client_target, validate_display, present_display, accept_display_changes,
}
use hardware_arpi.Composer.Device.Calls.{
  Call, creates, destroys, sets_target, validates, presents, accepts, sets_type, step,
}
use hardware_arpi.Composer.Device.Layers.{IsValid}

pub record Registry : Type 0 where
  pub last : ℕ
  pub has : ℕ → Bool

abbrev pub empty_registry : Registry
empty_registry = record { last = 0; has = λ l. false }

-- What a call on layers answers; the other calls are not the registry's.
abbrev pub register_step : Registry → Call → Registry × Option Error
register_step s (creates display) =
    let id = (s.last + 1) % 2 ^ 64 in
    if is_display display
    then (record { last = id; has = λ l. id == l || s.has l }, some no_error)
    else (s, some bad_display)
register_step s (destroys display layer) =
    if is_display display
    then (
      record s { has = λ l. not (layer == l) && s.has l },
      some (if s.has layer then no_error else bad_layer),
    )
    else (s, some bad_display)
register_step s (sets_type display layer type) = (
  s,
  some (if is_display display then if s.has layer then no_error else bad_layer else bad_display),
)
register_step s (sets_target display target dataspace) = (s, none)
register_step s (validates display) = (s, none)
register_step s (presents drm display) = (s, none)
register_step s (accepts display) = (s, none)

-- What the device answers to the same calls.
abbrev pub layer_answer : Call → Error → Option Error
layer_answer (creates display) err = some err
layer_answer (destroys display layer) err = some err
layer_answer (sets_type display layer type) err = some err
layer_answer _ err = none

abbrev pub device_answers : Device → List Call → List (Option Error)
device_answers d [] = []
device_answers d (c ∷ cs) = layer_answer c (step d c).1 ∷ device_answers (step d c).0 cs

abbrev pub registry_answers : Registry → List Call → List (Option Error)
registry_answers s [] = []
registry_answers s (c ∷ cs) = (register_step s c).1 ∷ registry_answers (register_step s c).0 cs

abbrev pub register : Registry → List Call → Registry
register s [] = s
register s (c ∷ cs) = register (register_step s c).0 cs

record Refines (d : Device) (s : Registry) : Type 0 where
  valid : IsValid d
  last_same : d.next_layer_id ≡ s.last
  has_same : (l : ℕ) → contains l d.layers ≡ s.has l

-- The calls that are not the registry's.
pub keeps_layers :
    (d : Device) (c : Call)
    → layer_answer c no_error ≡ none
    → ((step d c).0.next_layer_id ≡ d.next_layer_id) × ((step d c).0.layers ≡ d.layers)
unfolding step set_client_target validate_display present_display accept_display_changes
keeps_layers d (creates display) n = ground (arith, n)
keeps_layers d (destroys display layer) n = ground (arith, n)
keeps_layers d (sets_type display layer type) n = ground (arith, n)
keeps_layers d (sets_target display target dataspace) n = ground arith
keeps_layers d (validates display) n = ground arith
keeps_layers d (presents drm display) n = ground arith
keeps_layers d (accepts display) n = ground arith
