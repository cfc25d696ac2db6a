-- ===== src/Examples/Sessions.antt =====
-- Sessions of a client, and the service.
use hardware_arpi.Base.{
  not, ◌&&◌, ◌||◌, ℕ, ◌≡◌, refl, Bool, true, false, List, [], ◌∷◌, none, some, ◌==◌, arith, ◌≤◌,
  if◌then◌else◌,
}
use hardware_arpi.Base.Ids.{contains, insert, erase, contains-insert}
use hardware_arpi.Composer.Engine.{DisplayCommand}
use hardware_arpi.Composer.Error.{no_error, no_resources}
use hardware_arpi.Composer.Device.{other_composition, create_layer, destroy_layer}
use hardware_arpi.Composer.Hal.{hal_create_layer, hal_destroy_layer}
use hardware_arpi.Composer.Resources.{
  ComposerResources, resources_clear, translate_cleared, translate_error, resources_add_layer,
  resources_remove_layer,
}
use hardware_arpi.Composer.Client.{
  Client, init, client_create_layer, client_destroy_layer, destroy_resources,
}
use hardware_arpi.Composer.Client.Destruction.{layers_of}
use hardware_arpi.Composer.Client.Tracking.{LayerLaws, IsTracked}
use hardware_arpi.Composer.Client.Tracking.Sessions.{
  SessionCall, creates_layer, destroys_layer, executes, session, session_step,
  session-leaves_no_layers, unknown_layer_stays,
}
use hardware_arpi.Composer.Vsync.Thread.{VsyncThread, sleeping}
use hardware_arpi.Composer.Service.{creates, new_composer, create_client, serve_all}
use hardware_arpi.Composer.Service.Clients.{one_client}
use hardware_arpi.Examples.Displays.{fresh_device, accepting}

-- A manager of one display that takes every layer, or none; a full one refuses with NO_RESOURCES.
abbrev pub manager : Bool → ComposerResources (List ℕ)
manager takes = record {
  clear = λ r. ([], record { display = 0; is_virtual = false; layers = r } ∷ []);
  has_display = λ r display. display == 0;
  add_physical_display = λ r display. (r, 0);
  add_virtual_display = λ r display size. (r, 0);
  remove_display = λ r display. (r, 0);
  set_display_client_target_cache_size = λ r display size. (r, 0);
  get_display_client_target_cache_size = λ r display. (0, 3);
  get_display_output_buffer_cache_size = λ r display. (0, 0);
  add_layer = λ r display layer size. if takes then (insert layer r, 0) else (r, 6);
  remove_layer = λ r display layer. (erase layer r, 0);
  set_display_must_validate_state = λ r display must. r;
  must_validate_display = λ r display. false;
  get_display_readback_buffer = λ r display handle. (r, 0, handle);
  get_display_client_target = λ r display slot cached handle. (r, 0, handle);
  get_display_output_buffer = λ r display slot cached handle. (r, 0, handle);
  get_layer_buffer = λ r display layer slot cached handle. (r, 0, handle);
  get_layer_sideband_stream = λ r display layer handle. (r, 0, handle);
}

erase_other : (x y : ℕ) (ys : List ℕ) → (x == y) ≡ false → contains y (erase x ys) ≡ contains y ys
unfolding contains erase
erase_other x y [] e = refl
erase_other x y (z ∷ zs) e = ground (arith, erase_other x y zs, e)

list_laws : LayerLaws (manager true)
list_laws = record {
  knows = λ r x. contains x r;
  added = λ r display layer size x e. contains-insert layer x r;
  removed = λ r display layer x e. erase_other layer x r e;
  cleared = λ r x h. ground (arith, h);
  target_kept = λ r display slot cached handle x. refl;
  output_kept = λ r display slot cached handle x. refl;
  buffer_kept = λ r display layer slot cached handle x. refl;
  stream_kept = λ r display layer handle x. refl;
  state_kept = λ r display must x. refl;
}

abbrev pub asleep : VsyncThread
asleep = record {
  place = sleeping;
  started = true;
  callback_enabled = true;
  has_callback = true;
  next_vsync = 100;
  period = 16;
  calls = [];
}

abbrev pub client_now : Client (List ℕ)
client_now = init (record { device = fresh_device; must_validate = true }) asleep []

-- The first layer composed by the device, with a buffer, and what is left to the client validated.
abbrev frame_command : DisplayCommand
frame_command = record {
  display = 0;
  layers =
      record {
        layer = 1;
        buffer = some record { slot = 0; handle = some 7 };
        composition = some (other_composition 2);
        sideband_stream = none;
      }
      ∷ [];
  client_target = some record { buffer = record { slot = 0; handle = some 8 }; dataspace = 0 };
  virtual_display_output_buffer = none;
  validate = true;
  accept = true;
  present = false;
  present_or_validate = false;
}

-- Two layers, of which the second is destroyed after a frame.
abbrev calls_made : List SessionCall
calls_made =
    creates_layer 0 3 ∷ creates_layer 1 3 ∷ executes (frame_command ∷ []) ∷ destroys_layer 0 2 ∷ []

new-IsTracked : IsTracked (manager true) list_laws client_now
unfolding init contains
new-IsTracked = record { distinct = tt; known = λ l h. absurd (ground (arith, h)) }

layers_made :
    layers_of
      (session
        (manager true)
        accepting
        client_now
        (creates_layer 0 3 ∷ creates_layer 1 3 ∷ destroys_layer 0 2 ∷ [])).engine.hal
    ≡ 1 ∷ []
unfolding session session_step client_create_layer client_destroy_layer init hal_destroy_layer
    destroy_layer contains hal_create_layer create_layer insert erase
layers_made = refl

session-leaves_no_layers_example :
    layers_of
      (destroy_resources
        (manager true)
        accepting
        (session (manager true) accepting client_now calls_made)).engine.hal
    ≡ []
unfolding session session_step client_create_layer client_destroy_layer init hal_destroy_layer
    destroy_layer contains hal_create_layer create_layer insert erase resources_clear
    translate_cleared resources_add_layer resources_remove_layer translate_error
session-leaves_no_layers_example =
    session-leaves_no_layers (manager true) list_laws accepting client_now calls_made new-IsTracked
      (refl, (refl, tt)) (refl, tt)

-- A manager that takes none: the layer that the device made outlives the client.
unknown_layer_stays_example :
    contains 1 (
      layers_of
        (destroy_resources
          (manager false)
          accepting
          (client_create_layer (manager false) client_now 0 3).0).engine.hal)
    ≡ true
unfolding client_create_layer init contains hal_create_layer create_layer resources_clear
    translate_cleared resources_add_layer
unknown_layer_stays_example =
    unknown_layer_stays (manager false) accepting client_now 0 3 1 refl refl tt (refl, tt) refl

one_client_example :
    let s = serve_all new_composer (creates false true ∷ creates false true ∷ []) in
    (s.clients ≤ 1)
    × ((create_client s true true).1
        ≡ (if true && (not s.client_alive || true) then no_error else no_resources))
one_client_example = one_client (creates false true ∷ creates false true ∷ []) true true
