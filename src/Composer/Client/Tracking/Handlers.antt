-- ===== src/Composer/Client/Tracking/Handlers.antt =====
-- The handlers of ComposerCommandEngine, by the layers of the device and what the resource manager
-- knows of them.
use hardware_arpi.Base.{ℕ, ◌≡◌, refl, ◌∙◌, true, false, not, ◌||◌, inl, inr, Bool-cases}
use hardware_arpi.Base.Ids.{contains}
use hardware_arpi.Composer.Error.{Error, is_ok, is_display}
use hardware_arpi.Composer.Post.{Drm}
use hardware_arpi.Composer.Device.{
  Composition, validate_display, present_display, set_layer_composition_type, mark_layer_dirty,
  get_changed_composition_types,
}
use hardware_arpi.Composer.Device.Calls.{step, sets_target, validates, presents, accepts}
use hardware_arpi.Composer.Device.Layers.Registry.{keeps_layers}
use hardware_arpi.Composer.Hal.{
  ComposerHal, is_has_changes, hal_set_client_target, hal_validate_display, hal_present_display,
  hal_accept_display_changes, hal_set_layer_composition_type,
}
use hardware_arpi.Composer.Engine.{
  validate_result, target_found, report_found, report, ClientTarget, Buffer, use_cache, raw_handle,
  Engine, execute_validate_display, execute_set_client_target, execute_set_output_buffer,
  execute_set_layer_buffer, execute_set_layer_sideband_stream, execute_set_layer_composition,
  execute_accept_display_changes, execute_present_display, execute_present_or_validate_display,
}
use hardware_arpi.Composer.Resources.{
  ComposerResources, resource_manager, translate_id, resources_client_target,
  resources_output_buffer, resources_layer_buffer, resources_sideband_stream,
  resources_set_must_validate,
}
use hardware_arpi.Composer.Client.Destruction.{layers_of}
use hardware_arpi.Composer.Client.Tracking.{LayerLaws}

target-layers :
    (hal : ComposerHal) (display target dataspace : ℕ)
    → layers_of (hal_set_client_target hal display target dataspace).0 ≡ layers_of hal
unfolding hal_set_client_target step
target-layers hal display target dataspace =
    (keeps_layers hal.device (sets_target display target dataspace) refl).1

accept-layers :
    (hal : ComposerHal) (display : ℕ)
    → layers_of (hal_accept_display_changes hal display).0 ≡ layers_of hal
unfolding hal_accept_display_changes step
accept-layers hal display = (keeps_layers hal.device (accepts display) refl).1

type-layers :
    (hal : ComposerHal) (display layer : ℕ) (type : Composition)
    → layers_of (hal_set_layer_composition_type hal display layer type).0 ≡ layers_of hal
unfolding hal_set_layer_composition_type set_layer_composition_type mark_layer_dirty
type-layers hal display layer type = elim (Bool-cases (is_display display)) [
  | inr e ↦ rw e refl
  | inl e ↦ elim (Bool-cases (contains layer (layers_of hal))) [
    | inl f ↦ rw (e, f) refl
    | inr f ↦ rw (e, f) refl
  ]
]

present-layers :
    (drm : Drm) (hal : ComposerHal) (display : ℕ)
    → layers_of (hal_present_display drm hal display).0 ≡ layers_of hal
unfolding hal_present_display step
present-layers drm hal display =
    let same = (keeps_layers hal.device (presents drm display) refl).1 in
    elim (Bool-cases hal.must_validate) [
      | inl m ↦ rw m refl
      | inr m ↦ elim (Bool-cases (is_ok (present_display drm hal.device display).1)) [
        | inl f ↦ rw (m, f) same
        | inr f ↦ rw (m, f) same
      ]
    ]

validate-layers :
    (hal : ComposerHal) (display : ℕ)
    → layers_of (hal_validate_display hal display).0 ≡ layers_of hal
unfolding hal_validate_display step
validate-layers hal display =
    let (d, err, count) = validate_display hal.device display in
    let same : layers_of (record { device = d; must_validate = false }) ≡ layers_of hal =
      (keeps_layers hal.device (validates display) refl).1 in
    let (err', count', none_yet) = get_changed_composition_types d display count false in
    let (err'', count'', changed) = get_changed_composition_types d display count' true in
    elim (Bool-cases (not (is_ok err || is_has_changes err))) [
      | inl a ↦ rw a same
      | inr a ↦ elim (Bool-cases (not (is_ok err'))) [
        | inl b ↦ rw (a, b) same
        | inr b ↦ elim (Bool-cases (not (is_ok err''))) [
          | inl f ↦ rw (a, b, f) same
          | inr f ↦ rw (a, b, f) same
        ]
      ]
    ]

module _ {ℓ} {R : Type ℓ} (lib : ComposerResources R) (laws : LayerLaws lib) where
  -- The second engine has the layers of the first and knows what the first knows.
  abbrev pub IsSame : Engine R → Engine R → Type 0
  IsSame e e' =
      (layers_of e'.hal ≡ layers_of e.hal)
      × ((x : ℕ) → laws.knows e'.resources x ≡ laws.knows e.resources x)

  pub then-IsSame : (a b c : Engine R) → IsSame a b → IsSame b c → IsSame a c
  then-IsSame a b c (l, k) (l', k') = (l' ∙ l, λ x. k' x ∙ k x)

  report-IsSame : (e e' : Engine R) (err : Error) → IsSame e e' → IsSame e (report e' err)
  unfolding report
  report-IsSame e e' err same = elim (Bool-cases (is_ok err)) [
    | inl a ↦ rw a same
    | inr a ↦ rw a same
  ]

  module _ (drm : Drm) (e : Engine R) where
    found-IsSame :
        (r : R) (err : Error) (found : ℕ)
        → ((x : ℕ) → laws.knows r x ≡ laws.knows e.resources x)
        → IsSame e (report_found (resource_manager lib) drm e (r, err, found))
    unfolding report_found report
    found-IsSame r err found k = report-IsSame e (record e { resources = r }) err (refl, k)

    target_found-IsSame :
        (display dataspace : ℕ) (r : R) (err : Error) (target : ℕ)
        → ((x : ℕ) → laws.knows r x ≡ laws.knows e.resources x)
        → IsSame e (target_found (resource_manager lib) drm e display dataspace (r, err, target))
    unfolding target_found report
    target_found-IsSame display dataspace r err target k =
        let (hal, err') = hal_set_client_target e.hal display target dataspace in
        let e' : Engine R = record e { hal = hal; resources = r } in
        elim (Bool-cases (is_ok err)) [
          | inl a ↦ rw a (report-IsSame e e' err' (target-layers e.hal display target dataspace, k))
          | inr a ↦ rw a (refl, k)
        ]

    pub target-IsSame :
        (display : ℕ) (command : ClientTarget)
        → IsSame e (execute_set_client_target (resource_manager lib) drm e display command)
    unfolding execute_set_client_target target_found resource_manager resources_client_target
    target-IsSame display command =
        let b = command.buffer in
        target_found-IsSame display command.dataspace _ _ _
          (laws.target_kept e.resources (translate_id display) b.slot (use_cache b) (raw_handle b))

    pub output-IsSame :
        (display : ℕ) (b : Buffer)
        → IsSame e (execute_set_output_buffer (resource_manager lib) drm e display b)
    unfolding execute_set_output_buffer report_found resource_manager resources_output_buffer
    output-IsSame display b =
        found-IsSame _ _ 0
          (laws.output_kept e.resources (translate_id display) b.slot (use_cache b) (raw_handle b))

    pub buffer-IsSame :
        (display layer : ℕ) (b : Buffer)
        → IsSame e (execute_set_layer_buffer (resource_manager lib) drm e display layer b)
    unfolding execute_set_layer_buffer report_found resource_manager resources_layer_buffer
    buffer-IsSame display layer b = found-IsSame _ _ 0 (
        laws.buffer_kept e.resources (translate_id display) (translate_id layer) b.slot
          (use_cache b) (raw_handle b))

    pub stream-IsSame :
        (display layer stream : ℕ)
        → IsSame e
            (execute_set_layer_sideband_stream (resource_manager lib) drm e display layer stream)
    unfolding execute_set_layer_sideband_stream report_found resource_manager
        resources_sideband_stream
    stream-IsSame display layer stream =
        found-IsSame _ _ 0
          (laws.stream_kept e.resources (translate_id display) (translate_id layer) stream)

    pub type-IsSame :
        (display layer : ℕ) (type : Composition)
        → IsSame e (execute_set_layer_composition (resource_manager lib) drm e display layer type)
    unfolding execute_set_layer_composition report
    type-IsSame display layer type =
        let (hal, err) = hal_set_layer_composition_type e.hal display layer type in
        report-IsSame e (record e { hal = hal }) err
          (type-layers e.hal display layer type, λ x. refl)

    pub accept-IsSame :
        (display : ℕ)
        → IsSame e (execute_accept_display_changes (resource_manager lib) drm e display)
    unfolding execute_accept_display_changes report
    accept-IsSame display =
        let (hal, err) = hal_accept_display_changes e.hal display in
        report-IsSame e (record e { hal = hal }) err (accept-layers e.hal display, λ x. refl)

    pub present-IsSame :
        (display : ℕ) → IsSame e (execute_present_display (resource_manager lib) drm e display)
    unfolding execute_present_display
    present-IsSame display =
        let (hal, err, fence) = hal_present_display drm e.hal display in
        let same = present-layers drm e.hal display in
        elim (Bool-cases (is_ok err)) [
          | inl a ↦ rw a (same, λ x. refl)
          | inr a ↦ rw a (same, λ x. refl)
        ]

    pub validate-IsSame :
        (display : ℕ) → IsSame e (execute_validate_display (resource_manager lib) drm e display).0
    unfolding execute_validate_display validate_result resource_manager resources_set_must_validate
    validate-IsSame display =
        let (hal, err, changed) = hal_validate_display e.hal display in
        let k = laws.state_kept e.resources (translate_id display) false in
        elim (Bool-cases (is_ok err)) [
          | inl a ↦ rw a (validate-layers e.hal display, k)
          | inr a ↦ rw a (validate-layers e.hal display, k)
        ]

    pub present_or_validate-IsSame :
        (display : ℕ)
        → IsSame e (execute_present_or_validate_display (resource_manager lib) drm e display)
    unfolding execute_present_or_validate_display
    present_or_validate-IsSame display =
        let (e', err) = execute_validate_display (resource_manager lib) drm e display in
        let same = validate-IsSame display in
        elim (Bool-cases (is_ok err)) [ inl a ↦ rw a same | inr a ↦ rw a same ]
