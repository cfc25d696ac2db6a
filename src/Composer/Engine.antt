-- ===== src/Composer/Engine.antt =====
-- ComposerCommandEngine of graphics/composer/aidl: the commands of a client, from the list that
-- arrives down to the calls on ComposerHal. The resource manager wraps a library that is not here:
-- its state and its calls are arguments. ComposerServiceWriter is not here either: the calls on it
-- since its last reset are kept, last first.
pub mod Frames
pub mod Errors
pub mod Fences
pub mod Whole
use hardware_arpi.Base.{ℕ, ◌+◌, Bool, true, false, List, [], ◌∷◌, Option, none, some, if◌then◌else◌}
use hardware_arpi.Base.Int.{ℤ}
use hardware_arpi.Composer.Error.{Error, no_error, is_ok}
use hardware_arpi.Composer.Post.{Drm}
use hardware_arpi.Composer.Device.{Composition}
use hardware_arpi.Composer.Hal.{
  ComposerHal, hal_set_client_target, hal_validate_display, hal_present_display,
  hal_accept_display_changes, hal_set_layer_composition_type,
}

-- IResourceManager's calls that the engine makes: on a display (and a layer), a slot, whether the
-- cache is to be used, and the raw handle, 0 for null. Each gives an error and the handle it found.
pub record Resources {ℓ} (R : Type ℓ) : Type ℓ where
  pub get_display_client_target : R → ℕ → ℕ → Bool → ℕ → R × Error × ℕ
  pub get_display_output_buffer : R → ℕ → ℕ → Bool → ℕ → R × Error × ℕ
  pub get_layer_buffer : R → ℕ → ℕ → ℕ → Bool → ℕ → R × Error × ℕ
  pub get_layer_sideband_stream : R → ℕ → ℕ → ℕ → R × Error × ℕ
  pub set_display_must_validate_state : R → ℕ → Bool → R

-- A call on the writer.
pub data Reply : Type 0 where
  error_at : ℕ → Error → Reply
  changed_composition_types : ℕ → List (ℕ × Composition) → Reply
  display_requests : ℕ → Reply
  client_target_property : ℕ → Reply
  present_or_validate_result : ℕ → Reply
  present_fence : ℕ → Option ℤ → Reply
  release_fences : ℕ → Reply

-- A buffer of a command: its slot and its handle; a fence is waited for and closed, and no state.
pub record Buffer : Type 0 where
  pub slot : ℕ
  pub handle : Option ℕ

pub record ClientTarget : Type 0 where
  pub buffer : Buffer
  pub dataspace : ℕ

-- The fields whose handlers do something; the bodies of the others are commented out.
pub record LayerCommand : Type 0 where
  pub layer : ℕ
  pub buffer : Option Buffer
  pub composition : Option Composition
  pub sideband_stream : Option ℕ

pub record DisplayCommand : Type 0 where
  pub display : ℕ
  pub layers : List LayerCommand
  pub client_target : Option ClientTarget
  pub virtual_display_output_buffer : Option Buffer
  pub validate : Bool
  pub accept : Bool
  pub present : Bool
  pub present_or_validate : Bool

pub record Engine {ℓ} (R : Type ℓ) : Type ℓ where
  pub hal : ComposerHal
  pub resources : R
  pub replies : List Reply
  pub command_index : ℕ

abbrev pub use_cache : Buffer → Bool
use_cache b = elim b.handle [ none ↦ true | some h ↦ false ]

abbrev pub raw_handle : Buffer → ℕ
raw_handle b = elim b.handle [ none ↦ 0 | some h ↦ h ]

module _ {ℓ} {R : Type ℓ} where
  abbrev pub reply : Engine R → Reply → Engine R
  reply e r = record e { replies = r ∷ e.replies }

  -- `if (err) mWriter->setError(mCommandIndex, err)`
  unfoldable pub report : Engine R → Error → Engine R
  report e err = if is_ok err then e else reply e (error_at e.command_index err)

  unfoldable pub validate_result : Engine R → ℕ → Error → List (ℕ × Composition) → Engine R
  validate_result e display err changed =
      if is_ok err
      then reply
          (reply (reply e (changed_composition_types display changed)) (display_requests display))
          (client_target_property display)
      else reply e (error_at e.command_index err)

module _ {ℓ} {R : Type ℓ} (res : Resources R) (drm : Drm) where
  unfoldable pub execute_validate_display : Engine R → ℕ → Engine R × Error
  unfolding validate_result
  execute_validate_display e display =
      let (hal, err, changed) = hal_validate_display e.hal display in
      (
        validate_result
            (record e {
              hal = hal;
              resources = res.set_display_must_validate_state e.resources display false;
            })
            display err changed,
        err,
      )

  unfoldable pub target_found : Engine R → ℕ → ℕ → R × Error × ℕ → Engine R
  unfolding report
  target_found e display dataspace (r, err, target) =
      let (hal, err') = hal_set_client_target e.hal display target dataspace in
      if is_ok err
      then report (record e { hal = hal; resources = r }) err'
      else report (record e { resources = r }) err

  unfoldable pub execute_set_client_target : Engine R → ℕ → ClientTarget → Engine R
  unfolding target_found
  execute_set_client_target e display command = target_found e display command.dataspace (
      res.get_display_client_target e.resources display command.buffer.slot
        (use_cache command.buffer) (raw_handle command.buffer))

  unfoldable pub report_found : Engine R → R × Error × ℕ → Engine R
  unfolding report
  report_found e (r, err, found) = report (record e { resources = r }) err

  unfoldable pub execute_set_output_buffer : Engine R → ℕ → Buffer → Engine R
  unfolding report_found
  execute_set_output_buffer e display b =
      report_found e
        (res.get_display_output_buffer e.resources display b.slot (use_cache b) (raw_handle b))

  unfoldable pub execute_set_layer_buffer : Engine R → ℕ → ℕ → Buffer → Engine R
  unfolding report_found
  execute_set_layer_buffer e display layer b =
      report_found e
        (res.get_layer_buffer e.resources display layer b.slot (use_cache b) (raw_handle b))

  -- The error is set to 0 where there is one.
  unfoldable pub execute_set_layer_sideband_stream : Engine R → ℕ → ℕ → ℕ → Engine R
  unfolding report_found
  execute_set_layer_sideband_stream e display layer stream =
      let (r, err, found) = res.get_layer_sideband_stream e.resources display layer stream in
      report_found e (r, (if is_ok err then err else no_error), found)

  unfoldable pub execute_set_layer_composition : Engine R → ℕ → ℕ → Composition → Engine R
  unfolding report
  execute_set_layer_composition e display layer type =
      let (hal, err) = hal_set_layer_composition_type e.hal display layer type in
      report (record e { hal = hal }) err

  unfoldable pub execute_accept_display_changes : Engine R → ℕ → Engine R
  unfolding report
  execute_accept_display_changes e display =
      let (hal, err) = hal_accept_display_changes e.hal display in
      report (record e { hal = hal }) err

  -- An error is returned, and reported by nobody.
  unfoldable pub execute_present_display : Engine R → ℕ → Engine R
  execute_present_display e display =
      let (hal, err, fence) = hal_present_display drm e.hal display in
      let e' = record e { hal = hal } in
      if is_ok err
      then reply (reply e' (present_fence display fence)) (release_fences display)
      else e'

  unfoldable pub execute_present_or_validate_display : Engine R → ℕ → Engine R
  execute_present_or_validate_display e display =
      let (e', err) = execute_validate_display e display in
      if is_ok err then reply e' (present_or_validate_result display) else e'

  -- `if (command.field) { execute...(*command.field) }`
  abbrev pub when_some {ℓ'} :
      {A : Type ℓ'} → Option A → (Engine R → A → Engine R) → Engine R → Engine R
  when_some none f e = e
  when_some (some a) f e = f e a

  abbrev pub when : Bool → (Engine R → Engine R) → Engine R → Engine R
  when true f e = f e
  when false f e = e

  unfoldable pub dispatch_layer_command : ℕ → Engine R → LayerCommand → Engine R
  dispatch_layer_command display e c =
      when_some c.sideband_stream (λ d s. execute_set_layer_sideband_stream d display c.layer s)
        (when_some c.composition (λ d t. execute_set_layer_composition d display c.layer t)
          (when_some c.buffer (λ d b. execute_set_layer_buffer d display c.layer b) e))

  unfoldable pub dispatch_layers : ℕ → Engine R → List LayerCommand → Engine R
  dispatch_layers display e [] = e
  dispatch_layers display e (c ∷ cs) =
      dispatch_layers display (dispatch_layer_command display e c) cs

  unfoldable pub dispatch_targets : Engine R → DisplayCommand → Engine R
  dispatch_targets e c =
      when_some c.virtual_display_output_buffer (λ d b. execute_set_output_buffer d c.display b)
        (when_some c.client_target (λ d t. execute_set_client_target d c.display t) e)

  unfoldable pub dispatch_display_command : Engine R → DisplayCommand → Engine R
  dispatch_display_command e c =
      let e1 = dispatch_targets (dispatch_layers c.display e c.layers) c in
      let e2 = when c.validate (λ d. (execute_validate_display d c.display).0) e1 in
      let e3 = when c.accept (λ d. execute_accept_display_changes d c.display) e2 in
      let e4 = when c.present (λ d. execute_present_display d c.display) e3 in
      when c.present_or_validate (λ d. execute_present_or_validate_display d c.display) e4

  unfoldable pub dispatch_all : Engine R → List DisplayCommand → Engine R
  dispatch_all e [] = e
  dispatch_all e (c ∷ cs) =
      let e' = dispatch_display_command e c in
      dispatch_all (record e' { command_index = e'.command_index + 1 }) cs

  -- The replies are what the writer makes the result from.
  unfoldable pub execute : Engine R → List DisplayCommand → Engine R × List Reply
  execute e cs =
      let e' = dispatch_all (record e { command_index = 0 }) cs in
      (record e' { replies = [] }, e'.replies)
