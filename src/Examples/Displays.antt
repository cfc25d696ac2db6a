-- ===== src/Examples/Displays.antt =====
-- The composer on a kernel that accepts everything, and on one that refuses commits.
use hardware_arpi.Base.{
  ◌<◌, ◌%◌, max, ℕ, ◌≡◌, refl, ◌≤◌, true, false, none, some, List, [], ◌∷◌, ◌+◌, map, arith,
}
use hardware_arpi.Base.Int.{pos, negsuc}
use hardware_arpi.Base.Ids.{contains, insert, erase}
use hardware_arpi.Composer.Error.{no_error, bad_display, bad_layer, not_validated}
use hardware_arpi.Composer.Post.{Memory, KmsOutput, Context, Drm, sets_crtc, validate, hwc_post}
use hardware_arpi.Composer.Post.Modeset.{failed_post-sets_mode}
use hardware_arpi.Composer.Device.{
  Device, Info, client, other_composition, new_device, create_layer, destroy_layer,
  validate_display, present_display, accept_display_changes, set_layer_composition_type,
  get_changed_composition_types,
}
use hardware_arpi.Composer.Device.Calls.{
  Call, creates, destroys, sets_type, validates, accepts, presents, step, run,
}
use hardware_arpi.Composer.Device.Dump.{dump, device_banner}
use hardware_arpi.Composer.Device.Layers.{IsValid}
use hardware_arpi.Composer.Device.Layers.Steps.{nothing-Within, run_new-IsValid}
use hardware_arpi.Composer.Device.Layers.Registry.{device_answers}
use hardware_arpi.Composer.Device.Layers.Numbers.{create_layer-destroy}
use hardware_arpi.Composer.Device.Protocol.{
  validate-accept-present, change_blocks_present, validate-changed_types,
}
use hardware_arpi.Composer.Device.Protocol.Traces.{Settled, present_needs_validation}
use hardware_arpi.Composer.Hal.{ComposerHal, hal_validate_display}
use hardware_arpi.Composer.Hal.Validation.{hal_validate_display_lem}
use hardware_arpi.Composer.Engine.{
  Resources, Engine, ClientTarget, DisplayCommand, release_fences, present_fence,
  client_target_property, display_requests, changed_composition_types, dispatch_display_command,
  dispatch_targets, dispatch_layers, execute,
}
use hardware_arpi.Composer.Engine.Frames.{dispatch-frame}
use hardware_arpi.Composer.Engine.Errors.{ErrorsBelow}
use hardware_arpi.Composer.Engine.Errors.Commands.{execute-ErrorsBelow}
use hardware_arpi.Composer.Vsync.{Wake, adjust, vsync_loop}
use hardware_arpi.Composer.Vsync.Spacing.{adjust_lem, Spaced, vsync_loop-Spaced}

abbrev pub output_of : ℕ → KmsOutput
output_of n = record {
  plane_id = n + 1;
  crtc_id = n + 2;
  connector_id = n + 3;
  hdisplay = 1920;
  vdisplay = 1080;
  timing = 60;
  drm_format = 0x34324258;
  prop_fb_id = n + 4;
  prop_crtc_id = n + 5;
  prop_out_fence = n + 6;
}

-- Both modes are set.
abbrev pub shown : Context
shown = record {
  first_post = false;
  first_post2 = false;
  primary_output = output_of 10;
  secondary_output = output_of 20;
}

-- Every address holds a handle of the allocator with a frame buffer.
abbrev pub handles : Memory
handles h = record {
  version = 12;
  num_ints = 8;
  num_fds = 1;
  magic = 0x3141592;
  fd = pos 5;
  fb_id = 40;
}

abbrev pub accepting : Drm
accepting = record {
  prime_fd_to_handle = λ fd. (pos 0, 3);
  add_fb2 = λ r. (pos 0, 41);
  set_crtc = λ crtc fb connector timing. pos 0;
  atomic_commit = λ properties. (pos 0, 0, pos 8);
}

-- -EINVAL with the error number EINVAL.
abbrev refusing : Drm
refusing = record {
  prime_fd_to_handle = λ fd. (pos 0, 3);
  add_fb2 = λ r. (pos 0, 41);
  set_crtc = λ crtc fb connector timing. pos 0;
  atomic_commit = λ properties. (negsuc 21, 22, pos 8);
}

abbrev pub screen : Info
screen = record {
  name = 104 ∷ 119 ∷ 99 ∷ [];
  width = 1920;
  height = 1080;
  format = 5;
  vsync_period_ns = 16666666;
  xdpi_scaled = 160000;
  ydpi_scaled = 160000;
}

abbrev pub fresh_device : Device
fresh_device = new_device screen shown handles

-- With one layer, 1, that is dirty.
abbrev one_layer : Device
one_layer = (create_layer fresh_device 0).0

failed_post-sets_mode_example :
    let p = hwc_post refusing shown handles 0 100 (negsuc 0) in
    (p.status ≡ negsuc 21)
    × (p.out_fence ≡ negsuc 0)
    × ((hwc_post accepting p.context p.memory 0 200 (negsuc 0)).requests
        ≡ sets_crtc 12 40 13 60 ∷ [])
unfolding validate
failed_post-sets_mode_example =
    failed_post-sets_mode refusing accepting shown handles 0 100 200 (negsuc 0) (negsuc 0)
      (refl, refl) (refl, refl) refl refl refl refl

run_new-IsValid_example : IsValid (
    run
      (new_device screen shown handles)
      (creates 0 ∷ validates 0 ∷ accepts 0 ∷ presents accepting 0 ∷ []))
run_new-IsValid_example =
    run_new-IsValid screen shown handles
      (creates 0 ∷ validates 0 ∷ accepts 0 ∷ presents accepting 0 ∷ [])

fresh-IsValid : IsValid fresh_device
fresh-IsValid = record {
  distinct = tt;
  distinct_dirty = tt;
  within = nothing-Within [];
  promise = tt;
}

no_layer_above : (x : ℕ) → contains x [] ≡ true → x ≤ 0
unfolding contains
no_layer_above x e = ground (arith, e)

layer_created :
    let (d', error, made) = create_layer fresh_device 0 in
    let (d'', error') = destroy_layer d' 0 1 in
    (error ≡ no_error)
    × (made ≡ some 1)
    × (contains 1 [] ≡ false)
    × (contains 1 d'.dirty_layers ≡ true)
    × (error' ≡ no_error)
    × (d''.layers ≡ [])
    × (d''.dirty_layers ≡ [])
layer_created = create_layer-destroy fresh_device 0 fresh-IsValid no_layer_above (omega arith) refl

validated_then_presented :
    let d1 = (step one_layer (validates 0)).0 in
    let d2 = step d1 (accepts 0) in
    (d2.1 ≡ no_error) × ((step d2.0 (presents accepting 0)).1 ≡ no_error)
validated_then_presented = validate-accept-present accepting one_layer 0 refl

change_blocked :
    step (step one_layer (sets_type 0 1 (other_composition 2))).0 (presents accepting 1)
    ≡ ((step one_layer (sets_type 0 1 (other_composition 2))).0, not_validated)
unfolding step create_layer set_layer_composition_type contains insert
change_blocked =
    change_blocks_present accepting one_layer (sets_type 0 1 (other_composition 2)) 1 refl refl refl

abbrev cycle : List Call
cycle = creates 0 ∷ validates 0 ∷ accepts 0 ∷ []

present_needs_validation_example : Settled (new_device screen shown handles) cycle
unfolding step run create_layer validate_display accept_display_changes present_display insert
    contains
present_needs_validation_example =
    present_needs_validation screen shown handles cycle accepting 0 refl

-- A layer is made, a second one is refused on a display that is not there, the first is destroyed twice.
abbrev made_and_destroyed : List Call
made_and_destroyed = creates 0 ∷ creates 2 ∷ validates 0 ∷ destroys 0 1 ∷ destroys 1 1 ∷ []

answers_given :
    device_answers fresh_device made_and_destroyed
    ≡ some no_error ∷ some bad_display ∷ none ∷ some no_error ∷ some bad_layer ∷ []
unfolding step create_layer validate_display destroy_layer insert contains erase
answers_given = refl

types_changed :
    let (d', error, count) = validate_display one_layer 0 in
    (get_changed_composition_types d' 0 count true
      ≡ (no_error, count, map (λ layer. (layer, client)) one_layer.dirty_layers))
    × (get_changed_composition_types d' 0 9 false ≡ (no_error, count, []))
types_changed = validate-changed_types one_layer 0 9 refl

abbrev hal : ComposerHal
hal = record { device = one_layer; must_validate = true }

hal_validated : hal_validate_display hal 0 ≡ (
  record { device = (validate_display one_layer 0).0; must_validate = false },
  no_error,
  map (λ layer. (layer, client)) one_layer.dirty_layers,
)
hal_validated = hal_validate_display_lem hal 0 refl

-- A resource manager that finds every handle, and keeps nothing.
abbrev pub finding : Resources (Unit {0})
finding = record {
  get_display_client_target = λ r display slot cached raw. (r, no_error, raw);
  get_display_output_buffer = λ r display slot cached raw. (r, no_error, raw);
  get_layer_buffer = λ r display layer slot cached raw. (r, no_error, raw);
  get_layer_sideband_stream = λ r display layer raw. (r, no_error, raw);
  set_display_must_validate_state = λ r display must. r;
}

abbrev pub idle : Engine (Unit {0})
idle = record { hal = hal; resources = tt; replies = []; command_index = 0 }

abbrev pub target : ClientTarget
target = record { buffer = record { slot = 0; handle = some 100 }; dataspace = 0 }

-- One layer is composed by the device, the target is set, and the frame is shown.
abbrev pub frame : DisplayCommand
frame = record {
  display = 0;
  layers =
      record {
        layer = 1;
        buffer = none;
        composition = some (other_composition 2);
        sideband_stream = none;
      }
      ∷ [];
  client_target = some target;
  virtual_display_output_buffer = none;
  validate = true;
  accept = true;
  present = true;
  present_or_validate = false;
}

dispatch-frame_example :
    let e' =
      dispatch_targets finding accepting
        (dispatch_layers finding accepting 0 idle frame.layers)
        frame in
    let d = e'.hal.device in
    (dispatch_display_command finding accepting idle frame).replies
    ≡ release_fences 0
      ∷ present_fence 0
          (some (hwc_post accepting d.context d.memory 0 d.buffer (negsuc 0)).out_fence)
      ∷ client_target_property 0
      ∷ display_requests 0
      ∷ changed_composition_types 0 (map (λ layer. (layer, client)) d.dirty_layers)
      ∷ e'.replies
dispatch-frame_example = dispatch-frame finding accepting idle frame refl refl refl refl refl

execute-ErrorsBelow_example :
    ErrorsBelow 2 (execute finding accepting idle (frame ∷ frame ∷ [])).1
    × ((execute finding accepting idle (frame ∷ frame ∷ [])).0.replies ≡ [])
execute-ErrorsBelow_example = execute-ErrorsBelow finding accepting idle (frame ∷ frame ∷ []) refl

-- The thread wakes in time, then more than two periods late, and a sleep fails.
abbrev wakes : List Wake
wakes =
    record { time = 90; fire = true }
    ∷ record { time = 450; fire = true }
    ∷ record { time = 455; fire = false }
    ∷ []

vsync_times : vsync_loop 100 100 wakes ≡ 100 ∷ 500 ∷ []
unfolding vsync_loop
vsync_times = refl

calls_apart : Spaced 100 100 (vsync_loop 100 100 wakes)
calls_apart = vsync_loop-Spaced 100 100 wakes (omega arith)

vsync_adjusted :
    (450 ≤ adjust 100 200 450)
    × (200 ≤ adjust 100 200 450)
    × (adjust 100 200 450 < max (200 + 1) (450 + 100))
    × (adjust 100 200 450 % 100 ≡ 200 % 100)
vsync_adjusted = adjust_lem 100 200 450 (omega arith)

-- The framework asks for the size, then for as many bytes.
banner_dumped :
    let first = dump [] 0 false in
    (first.size ≡ 14) × ((dump first.dump_string first.size true).copied ≡ device_banner)
unfolding dump
banner_dumped = (refl, refl)
