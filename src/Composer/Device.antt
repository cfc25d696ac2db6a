-- ===== src/Composer/Device.antt =====
-- Hwc2Device of graphics/composer/aidl/Hwc2Device.{h,cpp}: the layers, the validation state and the
-- calls of the client. One device serves both displays.
pub mod Calls
pub mod Dump
pub mod Layers
pub mod Protocol
pub mod Presenting
use hardware_arpi.Base.{
  ℕ, ◌+◌, ◌%◌, ◌^◌, Bool, true, false, ◌&&◌, not, min, List, [], ◌∷◌, ◌++◌, Option, none, some,
  ◌==◌, if◌then◌else◌, map, length, take, ltb,
}
use hardware_arpi.Base.Int.{ℤ, pos, negsuc, is_negative}
use hardware_arpi.Base.Ids.{contains, insert, erase}
use hardware_arpi.Composer.Error.{
  Error, no_error, bad_config, bad_display, bad_layer, bad_parameter, has_changes, not_validated,
  unsupported, is_ok, is_display,
}
use hardware_arpi.Composer.Post.{Drm, Context, Memory, Request, Posted, hwc_post}

pub data State : Type 0 where
  modified validated_with_changes validated : State

-- `Info`; the scaled numbers are int patterns.
pub record Info : Type 0 where
  pub name : List ℕ
  pub width : ℕ
  pub height : ℕ
  pub format : ℕ
  pub vsync_period_ns : ℕ
  pub xdpi_scaled : ℕ
  pub ydpi_scaled : ℕ

-- The requests are those that its posts have made of the kernel, last first.
pub record Device : Type 0 where
  pub fb_info : Info
  pub state : State
  pub next_layer_id : ℕ
  pub layers : List ℕ
  pub dirty_layers : List ℕ
  pub buffer : ℕ
  pub context : Context
  pub memory : Memory
  pub requests : List Request

-- The values of HWC2_COMPOSITION_* that the device tells apart.
pub data Composition : Type 0 where
  client : Composition
  other_composition : ℕ → Composition

-- HAL_DATASPACE_UNKNOWN.
abbrev pub dataspace_unknown : ℕ
dataspace_unknown = 0

-- A new device; the screen's description and context are those of `hwc_context`.
abbrev pub new_device : Info → Context → Memory → Device
new_device info c m = record {
  fb_info = info;
  state = modified;
  next_layer_id = 0;
  layers = [];
  dirty_layers = [];
  buffer = 0;
  context = c;
  memory = m;
  requests = [];
}

abbrev pub set_state : Device → State → Device
set_state d s = record d { state = s }

-- `++mNextLayerId` is on 64 bits.
unfoldable pub add_layer : Device → Device × ℕ
add_layer d =
    let id = (d.next_layer_id + 1) % 2 ^ 64 in
    (
      record d {
        next_layer_id = id;
        layers = insert id d.layers;
        dirty_layers = insert id d.dirty_layers;
      },
      id,
    )

unfoldable pub remove_layer : Device → ℕ → Device × Bool
remove_layer d layer = (
  record d { dirty_layers = erase layer d.dirty_layers; layers = erase layer d.layers },
  contains layer d.layers,
)

unfoldable pub mark_layer_dirty : Device → ℕ → Bool → Device × Bool
mark_layer_dirty d layer dirty =
    if contains layer d.layers
    then (
      record d {
        dirty_layers = if dirty then insert layer d.dirty_layers else erase layer d.dirty_layers;
      },
      true,
    )
    else (d, false)

-- The new layer is none where `*outLayerId` is not written.
unfoldable pub create_layer : Device → ℕ → Device × Error × Option ℕ
unfolding add_layer
create_layer d display =
    let (d', id) = add_layer d in
    if is_display display
    then (set_state d' modified, no_error, some id)
    else (d, bad_display, none)

unfoldable pub destroy_layer : Device → ℕ → ℕ → Device × Error
unfolding remove_layer
destroy_layer d display layer =
    let (d', removed) = remove_layer d layer in
    if is_display display
    then if removed then (set_state d' modified, no_error) else (d', bad_layer)
    else (d, bad_display)

unfoldable pub get_client_target_support : Device → ℕ → ℕ → ℕ → ℕ → ℕ → Error
get_client_target_support d display width height format dataspace =
    if is_display display
    then if not (dataspace == dataspace_unknown)
      then unsupported
      else if d.fb_info.width == width && d.fb_info.height == height && d.fb_info.format == format
      then no_error
      else unsupported
    else bad_display

pub data Attribute : Type 0 where
  attribute_width attribute_height attribute_vsync_period : Attribute
  attribute_dpi_x attribute_dpi_y : Attribute
  other_attribute : ℕ → Attribute

attribute_value : Info → Attribute → Option ℕ
attribute_value i attribute_width = some i.width
attribute_value i attribute_height = some i.height
attribute_value i attribute_vsync_period = some i.vsync_period_ns
attribute_value i attribute_dpi_x = some i.xdpi_scaled
attribute_value i attribute_dpi_y = some i.ydpi_scaled
attribute_value i (other_attribute n) = none

unfoldable pub get_display_attribute : Device → ℕ → ℕ → Attribute → Error × Option ℕ
unfolding attribute_value
get_display_attribute d display config attribute =
    if is_display display
    then if not (config == 0)
      then (bad_config, none)
      else elim (attribute_value d.fb_info attribute) [
        | none ↦ (bad_parameter, none)
        | some v ↦ (no_error, some v)
      ]
    else (bad_display, none)

-- The size and what is copied; without a buffer nothing is.
unfoldable pub get_display_name : Device → ℕ → ℕ → Bool → Error × ℕ × List ℕ
get_display_name d display size has_buffer =
    if is_display display
    then if has_buffer
      then (no_error, length (take size d.fb_info.name), take size d.fb_info.name)
      else (no_error, length d.fb_info.name, [])
    else (bad_display, size, [])

-- The acquire fence is waited for and closed before anything else, and is no part of the state.
unfoldable pub set_client_target : Device → ℕ → ℕ → ℕ → Device × Error
set_client_target d display target dataspace =
    if is_display display
    then if not (dataspace == dataspace_unknown)
      then (d, bad_parameter)
      else (record d { buffer = target }, no_error)
    else (d, bad_display)

-- The number of types, where it is written.
unfoldable pub validate_display : Device → ℕ → Device × Error × ℕ
validate_display d display =
    if is_display display
    then if ltb 0 (length d.dirty_layers)
      then (set_state d validated_with_changes, has_changes, length d.dirty_layers)
      else (set_state d validated, no_error, 0)
    else (d, bad_display, 0)

abbrev pub is_state : State → State → Bool
is_state modified modified = true
is_state validated_with_changes validated_with_changes = true
is_state validated validated = true
is_state _ _ = false

-- The retire fence, where it is written; the status of the post is dropped, its requests are kept.
unfoldable pub present_display : Drm → Device → ℕ → Device × Error × Option ℤ
present_display drm d display =
    let p = hwc_post drm d.context d.memory display d.buffer (negsuc 0) in
    if is_display display
    then if not (is_state d.state validated) then (d, not_validated, none) else (
      record d { context = p.context; memory = p.memory; requests = p.requests ++ d.requests },
      no_error,
      some p.out_fence,
    )
    else (d, bad_display, none)

unfoldable pub accept_display_changes : Device → ℕ → Device × Error
accept_display_changes d display =
    if is_display display
    then if is_state d.state modified
      then (d, not_validated)
      else (record d { dirty_layers = []; state = validated }, no_error)
    else (d, bad_display)

-- The number of elements with the layers and types that are written: none without the arrays.
unfoldable pub get_changed_composition_types :
    Device → ℕ → ℕ → Bool → Error × ℕ × List (ℕ × Composition)
get_changed_composition_types d display n has_arrays =
    let count = min n (length d.dirty_layers) in
    if is_display display
    then if is_state d.state modified
      then (not_validated, n, [])
      else if has_arrays
      then (no_error, count, map (λ l. (l, client)) (take count d.dirty_layers))
      else (no_error, length d.dirty_layers, [])
    else (bad_display, n, [])

abbrev is_client : Composition → Bool
is_client client = true
is_client (other_composition n) = false

unfoldable pub set_layer_composition_type : Device → ℕ → ℕ → Composition → Device × Error
unfolding mark_layer_dirty
set_layer_composition_type d display layer type =
    let (d', known) = mark_layer_dirty d layer (not (is_client type)) in
    if is_display display
    then if known then (set_state d' modified, no_error) else (d, bad_layer)
    else (d, bad_display)
