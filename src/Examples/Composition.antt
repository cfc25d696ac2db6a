-- ===== src/Examples/Composition.antt =====
-- The parts of the composer together: the start and the first frame, and whole commands.
use hardware_arpi.Base.{length, ℕ, ◌≡◌, refl, none, some, [], ◌∷◌, get_elem?, map}
use hardware_arpi.Base.Int.{pos, negsuc}
use hardware_arpi.Composer.Modes.{ModeInfo, find_mode}
use hardware_arpi.Composer.Post.{validate, sets_crtc, hwc_post}
use hardware_arpi.Composer.Kms.{connector_hdmia, init_with_connector}
use hardware_arpi.Composer.Kms.Start.{Description, new_hwc_context, context_of, fetch_connector}
use hardware_arpi.Composer.Kms.FirstFrame.{Fetched, start-first_frame}
use hardware_arpi.Base.Ids.{count, contains, insert}
use hardware_arpi.Composer.Engine.Fences.{FencedCommand, execute_fences, close_fence}
use hardware_arpi.Composer.Engine.Fences.Closed.{closings, execute_fences-closings}
use hardware_arpi.Composer.Device.{
  create_layer, get_changed_composition_types, present_display, accept_display_changes,
  validate_display, set_client_target, set_layer_composition_type,
}
use hardware_arpi.Composer.Hal.{
  hal_present_display, hal_accept_display_changes, hal_validate_display, hal_set_client_target,
  hal_set_layer_composition_type,
}
use hardware_arpi.Composer.Engine.{
  execute_present_display, execute_accept_display_changes, execute_validate_display,
  execute_set_client_target, execute_set_layer_composition,
}
use hardware_arpi.Composer.Engine.Whole.{
  dispatch_whole, dispatch_whole_command, dispatch_whole_layers, dispatch_whole_layer,
  LayerSettings, WholeCommand, execute_whole,
}
use hardware_arpi.Examples.Displays.{handles, accepting, finding, idle, frame}
use hardware_arpi.Examples.Screens.{board, dark, wished, middle, two_crtcs, connector_of}

abbrev trimmed : ModeInfo
trimmed = record middle { clock = 75000 }

abbrev unknown : Description
unknown = record { width = 0; height = 0; format = 0; fps = 0; xdpi = 0; ydpi = 0 }

start-first_frame_example :
    let (s, description) = new_hwc_context (board two_crtcs) wished (pos 1) dark unknown in
    Fetched (board two_crtcs) connector_hdmia (50 ∷ 51 ∷ []) (connector_of 50)
    × (description.width ≡ 1280)
    × (description.height ≡ 720)
    × ((crtc : ℕ) × (get_elem? two_crtcs 0 ≡ some crtc)
        × ((hwc_post accepting (context_of (λ m. m.clock) s) handles 0 100 (negsuc 0)).requests
            ≡ sets_crtc crtc 40 50 75000 ∷ []))
unfolding validate fetch_connector find_mode init_with_connector
start-first_frame_example =
    start-first_frame (board two_crtcs) wished
      (record { crtcs = two_crtcs; connectors = 50 ∷ 51 ∷ [] }) (61 ∷ 62 ∷ []) dark unknown refl
      refl refl refl 0 (connector_of 50) refl 0 trimmed (λ m. m.clock) accepting handles 100
      (negsuc 0) refl refl (refl, refl)

-- What a client asks for a layer and gets nothing of.
abbrev settings_asked : LayerSettings
settings_asked = record {
  cursor_position = none;
  damage = some 1;
  blend_mode = some 2;
  color = some 0xff0000;
  dataspace = some 4;
  display_frame = some 5;
  plane_alpha = some 128;
  source_crop = some 6;
  transform = some 3;
  visible_region = none;
  z = some 7;
  color_transform = none;
  brightness = some 1;
  per_frame_metadata = none;
  per_frame_metadata_blob = none;
}

abbrev whole_frame : WholeCommand
whole_frame = record {
  command = frame;
  whole_layers = map (λ l. record { command = l; settings = settings_asked }) frame.layers;
  display_brightness = some 50;
  color_transform_matrix = some 1;
  expected_present_time = some 1000;
}

-- One reply for each step of the frame.
whole_replies : length (execute_whole finding accepting idle (whole_frame ∷ [])).1 ≡ 5
unfolding execute_whole dispatch_whole dispatch_whole_command execute_present_display
    hal_present_display execute_accept_display_changes hal_accept_display_changes
    accept_display_changes execute_validate_display hal_validate_display validate_display
    execute_set_client_target hal_set_client_target set_client_target dispatch_whole_layers
    dispatch_whole_layer execute_set_layer_composition hal_set_layer_composition_type
    set_layer_composition_type contains create_layer insert get_changed_composition_types
    present_display
whole_replies = refl

abbrev fenced : FencedCommand
fenced = record {
  command = frame;
  fenced_layers =
      record {
        command = record {
          layer = 1;
          buffer = some record { slot = 0; handle = some 7 };
          composition = none;
          sideband_stream = none;
        };
        fence = some 10;
      }
      ∷ [];
  target_fence = some 9;
  output_fence = none;
}

execute_fences-closings_example :
    closings 10 (execute_fences finding accepting idle (fenced ∷ [])) ≡ count 10 (10 ∷ 9 ∷ [])
unfolding close_fence
execute_fences-closings_example = execute_fences-closings finding accepting idle (fenced ∷ []) 10
