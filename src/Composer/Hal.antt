-- ===== src/Composer/Hal.antt =====
-- ComposerHal of graphics/composer/aidl/ComposerHal.cpp: the AIDL side's view of Hwc2Device.
pub mod Validation
use hardware_arpi.Base.{
  ℕ, Bool, true, false, List, [], ◌∷◌, ◌==◌, Option, none, some, if◌then◌else◌, ◌||◌, not, take,
}
use hardware_arpi.Base.Int.{ℤ}
use hardware_arpi.Composer.Error.{Error, no_error, has_changes, not_validated, is_ok}
use hardware_arpi.Composer.Post.{Drm}
use hardware_arpi.Composer.Device.{
  Device, Composition, attribute_vsync_period, create_layer, destroy_layer, get_display_attribute,
  get_display_name, set_client_target, validate_display, present_display, accept_display_changes,
  get_changed_composition_types, set_layer_composition_type,
}

pub record ComposerHal : Type 0 where
  pub device : Device
  pub must_validate : Bool

abbrev pub is_has_changes : Error → Bool
is_has_changes has_changes = true
is_has_changes _ = false

abbrev with_device : ComposerHal → Device → ComposerHal
with_device hal d = record hal { device = d }

-- What it does to the flag; the device's callbacks are its own.
unfoldable pub register_event_callback : ComposerHal → ComposerHal
register_event_callback hal = record hal { must_validate = true }

unfoldable pub hal_create_layer : ComposerHal → ℕ → ComposerHal × Error × Option ℕ
hal_create_layer hal display =
    let (d, err, layer) = create_layer hal.device display in (with_device hal d, err, layer)

unfoldable pub hal_destroy_layer : ComposerHal → ℕ → ℕ → ComposerHal × Error
hal_destroy_layer hal display layer =
    let (d, err) = destroy_layer hal.device display layer in (with_device hal d, err)

unfoldable pub get_display_vsync_period : ComposerHal → ℕ → Error × Option ℕ
get_display_vsync_period hal display =
    get_display_attribute hal.device display 0 attribute_vsync_period

-- The characters of a C string: those before the first that is 0.
unfoldable pub c_string : List ℕ → List ℕ
c_string [] = []
c_string (c ∷ cs) = if c == 0 then [] else c ∷ c_string cs

-- The buffer is one longer than the size of the first call, and is given to the second.
unfoldable pub hal_get_display_name : ComposerHal → ℕ → Error × Option (List ℕ)
unfolding c_string
hal_get_display_name hal display =
    let (err, count, _) = get_display_name hal.device display 0 false in
    let (err', count', name) = get_display_name hal.device display count true in
    if not (is_ok err)
    then (err, none)
    else if not (is_ok err')
    then (err', none)
    else (no_error, some (c_string (take count' name)))

unfoldable pub hal_set_client_target : ComposerHal → ℕ → ℕ → ℕ → ComposerHal × Error
hal_set_client_target hal display target dataspace =
    let (d, err) = set_client_target hal.device display target dataspace in (with_device hal d, err)

-- The changed layers with their types, where they are written. The request mask and the requested
-- layers are always empty.
unfoldable pub hal_validate_display : ComposerHal → ℕ → ComposerHal × Error × List (ℕ × Composition)
hal_validate_display hal display =
    let (d, err, count) = validate_display hal.device display in
    let hal' : ComposerHal = record { device = d; must_validate = false } in
    let (err', count', _) = get_changed_composition_types d display count false in
    let (err'', count'', changed) = get_changed_composition_types d display count' true in
    if not (is_ok err || is_has_changes err)
    then (hal', err, [])
    else if not (is_ok err')
    then (hal', err', [])
    else if not (is_ok err'')
    then (hal', err'', [])
    else (hal', err'', changed)

-- The present fence, where it is written. No layer gets a release fence.
unfoldable pub hal_present_display : Drm → ComposerHal → ℕ → ComposerHal × Error × Option ℤ
hal_present_display drm hal display =
    let (d, err, fence) = present_display drm hal.device display in
    if hal.must_validate
    then (hal, not_validated, none)
    else if not (is_ok err)
    then (with_device hal d, err, none)
    else (with_device hal d, no_error, fence)

unfoldable pub hal_accept_display_changes : ComposerHal → ℕ → ComposerHal × Error
hal_accept_display_changes hal display =
    let (d, err) = accept_display_changes hal.device display in (with_device hal d, err)

unfoldable pub hal_set_layer_composition_type :
    ComposerHal → ℕ → ℕ → Composition → ComposerHal × Error
hal_set_layer_composition_type hal display layer type =
    let (d, err) = set_layer_composition_type hal.device display layer type in
    (with_device hal d, err)
