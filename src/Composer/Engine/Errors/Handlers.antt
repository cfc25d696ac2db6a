-- ===== src/Composer/Engine/Errors/Handlers.antt =====
-- Which command the handlers of ComposerCommandEngine report errors for.
use hardware_arpi.Base.{
  ℕ, Bool, true, false, List, [], ◌∷◌, Option, none, some, inl, inr, Bool-cases, if◌then◌else◌,
  arith,
}
use hardware_arpi.Composer.Error.{Error, no_error, is_ok}
use hardware_arpi.Composer.Post.{Drm}
use hardware_arpi.Composer.Device.{Composition}
use hardware_arpi.Composer.Hal.{
  hal_validate_display, hal_set_client_target, hal_set_layer_composition_type,
  hal_accept_display_changes, hal_present_display,
}
use hardware_arpi.Composer.Engine.{
  validate_result, target_found, report_found, ClientTarget, Buffer, use_cache, raw_handle,
  when_some, when, Resources, Engine, LayerCommand, DisplayCommand, execute_validate_display,
  execute_set_client_target, execute_set_output_buffer, execute_set_layer_buffer,
  execute_set_layer_sideband_stream, execute_set_layer_composition, execute_accept_display_changes,
  execute_present_display, execute_present_or_validate_display, dispatch_layer_command,
  dispatch_layers, dispatch_targets, dispatch_display_command,
}
use hardware_arpi.Composer.Engine.Errors.{At, report-At, moved-At}

module _ {ℓ} {R : Type ℓ} (res : Resources R) (drm : Drm) (i : ℕ) where
  validate_result-At :
      (e : Engine R) (d : ℕ) (err : Error) (changed : List (ℕ × Composition))
      → At i e
      → At i (validate_result e d err changed)
  unfolding validate_result
  validate_result-At e d err changed a = elim (Bool-cases (is_ok err)) [
    | inl f ↦ rw f (record { index = a.index; below = a.below })
    | inr f ↦ rw f (record { index = a.index; below = (ground (arith, a.index), a.below) })
  ]

  validate-At : (e : Engine R) (d : ℕ) → At i e → At i (execute_validate_display res drm e d).0
  unfolding execute_validate_display
  validate-At e d a =
      let (hal, err, changed) = hal_validate_display e.hal d in
      let r = res.set_display_must_validate_state e.resources d false in
      validate_result-At (record e { hal = hal; resources = r }) d err changed
        (moved-At i e hal r a)

  target_found-At :
      (e : Engine R) (d s : ℕ) (r : R) (err : Error) (found : ℕ)
      → At i e
      → At i (target_found res drm e d s (r, err, found))
  unfolding target_found
  target_found-At e d s r err found a = elim (Bool-cases (is_ok err)) [
    | inl f ↦ rw f (
        report-At i (record e { hal = (hal_set_client_target e.hal d found s).0; resources = r })
          (hal_set_client_target e.hal d found s).1
          (moved-At i e (hal_set_client_target e.hal d found s).0 r a))
    | inr f ↦ rw f (record { index = a.index; below = (ground (arith, a.index), a.below) })
  ]

  target-At :
      (e : Engine R) (d : ℕ) (t : ClientTarget)
      → At i e
      → At i (execute_set_client_target res drm e d t)
  unfolding execute_set_client_target
  target-At e d t a =
      let (r, err, found) =
        res.get_display_client_target e.resources d t.buffer.slot (use_cache t.buffer)
          (raw_handle t.buffer) in
      target_found-At e d t.dataspace r err found a

  report_found-At :
      (e : Engine R) (r : R) (err : Error) (found : ℕ)
      → At i e
      → At i (report_found res drm e (r, err, found))
  unfolding report_found
  report_found-At e r err found a = report-At i _ err (moved-At i e e.hal r a)

  buffer-At :
      (e : Engine R) (d layer : ℕ) (b : Buffer)
      → At i e
      → At i (execute_set_layer_buffer res drm e d layer b)
  unfolding execute_set_layer_buffer
  buffer-At e d layer b a =
      let (r, err, found) =
        res.get_layer_buffer e.resources d layer b.slot (use_cache b) (raw_handle b) in
      report_found-At e r err found a

  output-At :
      (e : Engine R) (d : ℕ) (b : Buffer) → At i e → At i (execute_set_output_buffer res drm e d b)
  unfolding execute_set_output_buffer
  output-At e d b a =
      let (r, err, found) =
        res.get_display_output_buffer e.resources d b.slot (use_cache b) (raw_handle b) in
      report_found-At e r err found a

  sideband-At :
      (e : Engine R) (d layer stream : ℕ)
      → At i e
      → At i (execute_set_layer_sideband_stream res drm e d layer stream)
  unfolding execute_set_layer_sideband_stream
  sideband-At e d layer stream a =
      let (r, err, found) = res.get_layer_sideband_stream e.resources d layer stream in
      report_found-At e r (if is_ok err then err else no_error) found a

  type-At :
      (e : Engine R) (d layer : ℕ) (type : Composition)
      → At i e
      → At i (execute_set_layer_composition res drm e d layer type)
  unfolding execute_set_layer_composition
  type-At e d layer type a =
      let (hal, err) = hal_set_layer_composition_type e.hal d layer type in
      report-At i (record e { hal = hal }) err (moved-At i e hal e.resources a)

  accept-At : (e : Engine R) (d : ℕ) → At i e → At i (execute_accept_display_changes res drm e d)
  unfolding execute_accept_display_changes
  accept-At e d a =
      let (hal, err) = hal_accept_display_changes e.hal d in
      report-At i (record e { hal = hal }) err (moved-At i e hal e.resources a)

  present-At : (e : Engine R) (d : ℕ) → At i e → At i (execute_present_display res drm e d)
  unfolding execute_present_display
  present-At e d a = elim (Bool-cases (is_ok (hal_present_display drm e.hal d).1)) [
    | inl f ↦ rw f (record { index = a.index; below = a.below })
    | inr f ↦ rw f (moved-At i e (hal_present_display drm e.hal d).0 e.resources a)
  ]

  present_or_validate-At :
      (e : Engine R) (d : ℕ) → At i e → At i (execute_present_or_validate_display res drm e d)
  unfolding execute_present_or_validate_display
  present_or_validate-At e d a =
      elim (Bool-cases (is_ok (execute_validate_display res drm e d).1)) [
        | inl f ↦
            rw f (record { index = (validate-At e d a).index; below = (validate-At e d a).below })
        | inr f ↦ rw f (validate-At e d a)
      ]

  when_some-At {ℓ'} :
      {A : Type ℓ'} (o : Option A) (f : Engine R → A → Engine R) (e : Engine R)
      → ((e' : Engine R) (x : A) → At i e' → At i (f e' x))
      → At i e
      → At i (when_some res drm o f e)
  when_some-At none f e k a = a
  when_some-At (some x) f e k a = k e x a

  when-At :
      (b : Bool) (f : Engine R → Engine R) (e : Engine R)
      → ((e' : Engine R) → At i e' → At i (f e'))
      → At i e
      → At i (when res drm b f e)
  when-At true f e k a = k e a
  when-At false f e k a = a

  layer_command-At :
      (d : ℕ) (e : Engine R) (c : LayerCommand)
      → At i e
      → At i (dispatch_layer_command res drm d e c)
  unfolding dispatch_layer_command
  layer_command-At d e c a =
      when_some-At c.sideband_stream _ _ (λ f s b. sideband-At f d c.layer s b)
        (when_some-At c.composition _ _ (λ f t b. type-At f d c.layer t b)
          (when_some-At c.buffer _ e (λ f t b. buffer-At f d c.layer t b) a))

  layers-At :
      (d : ℕ) (e : Engine R) (cs : List LayerCommand)
      → At i e
      → At i (dispatch_layers res drm d e cs)
  unfolding dispatch_layers
  layers-At d e [] a = a
  layers-At d e (c ∷ cs) a =
      layers-At d (dispatch_layer_command res drm d e c) cs (layer_command-At d e c a)

  targets-At : (e : Engine R) (c : DisplayCommand) → At i e → At i (dispatch_targets res drm e c)
  unfolding dispatch_targets
  targets-At e c a =
      when_some-At c.virtual_display_output_buffer _ _ (λ f b k. output-At f c.display b k)
        (when_some-At c.client_target _ e (λ f t k. target-At f c.display t k) a)

  pub command-At :
      (e : Engine R) (c : DisplayCommand) → At i e → At i (dispatch_display_command res drm e c)
  unfolding dispatch_display_command
  command-At e c a =
      when-At c.present_or_validate _ _ (λ f k. present_or_validate-At f c.display k)
        (when-At c.present _ _ (λ f k. present-At f c.display k)
          (when-At c.accept _ _ (λ f k. accept-At f c.display k)
            (when-At c.validate _ _ (λ f k. validate-At f c.display k)
              (targets-At _ c (layers-At c.display e c.layers a)))))
