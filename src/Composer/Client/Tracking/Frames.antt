-- ===== src/Composer/Client/Tracking/Frames.antt =====
-- The lists of commands that ComposerClient executes, by the layers of the device and what the
-- resource manager knows of them.
use hardware_arpi.Base.{ℕ, ◌+◌, refl, ◌∙◌, Bool, true, false, List, [], ◌∷◌, Option, none, some}
use hardware_arpi.Composer.Post.{Drm}
use hardware_arpi.Composer.Engine.{
  when_some, when, Engine, LayerCommand, DisplayCommand, execute_validate_display,
  execute_set_client_target, execute_set_layer_buffer, execute_set_layer_composition,
  execute_accept_display_changes, execute_present_display, dispatch_layer_command, dispatch_layers,
  dispatch_targets, dispatch_display_command, dispatch_all, execute,
}
use hardware_arpi.Composer.Resources.{ComposerResources, resource_manager}
use hardware_arpi.Composer.Client.{Client, execute_commands}
use hardware_arpi.Composer.Client.Tracking.{LayerLaws, IsTracked}
use hardware_arpi.Composer.Client.Tracking.Handlers.{
  IsSame, then-IsSame, target-IsSame, output-IsSame, buffer-IsSame, stream-IsSame, type-IsSame,
  accept-IsSame, present-IsSame, validate-IsSame, present_or_validate-IsSame,
}

module _ {ℓ} {R : Type ℓ} (lib : ComposerResources R) (laws : LayerLaws lib) where
  module _ (drm : Drm) where
    when-IsSame :
        (b : Bool) (f : Engine R → Engine R) (e : Engine R)
        → IsSame lib laws e (f e)
        → IsSame lib laws e (when (resource_manager lib) drm b f e)
    when-IsSame true f e same = same
    when-IsSame false f e same = (refl, λ x. refl)

    when_some-IsSame :
        {A : Type 0} (o : Option A) (f : Engine R → A → Engine R) (e : Engine R)
        → ((a : A) → IsSame lib laws e (f e a))
        → IsSame lib laws e (when_some (resource_manager lib) drm o f e)
    when_some-IsSame none f e same = (refl, λ x. refl)
    when_some-IsSame (some a) f e same = same a

    layer-IsSame :
        (display : ℕ) (e : Engine R) (c : LayerCommand)
        → IsSame lib laws e (dispatch_layer_command (resource_manager lib) drm display e c)
    unfolding dispatch_layer_command
    layer-IsSame display e c =
        let res = resource_manager lib in
        let e1 =
          when_some res drm c.buffer (λ d b. execute_set_layer_buffer res drm d display c.layer b)
            e in
        let e2 =
          when_some res drm c.composition
            (λ d t. execute_set_layer_composition res drm d display c.layer t) e1 in
        then-IsSame lib laws e e1 (dispatch_layer_command res drm display e c)
          (when_some-IsSame c.buffer _ e (buffer-IsSame lib laws drm e display c.layer))
          (then-IsSame lib laws e1 e2 (dispatch_layer_command res drm display e c)
            (when_some-IsSame c.composition _ e1 (type-IsSame lib laws drm e1 display c.layer))
            (when_some-IsSame c.sideband_stream _ e2
              (stream-IsSame lib laws drm e2 display c.layer)))

    layers-IsSame :
        (display : ℕ) (e : Engine R) (cs : List LayerCommand)
        → IsSame lib laws e (dispatch_layers (resource_manager lib) drm display e cs)
    unfolding dispatch_layers
    layers-IsSame display e [] = (refl, λ x. refl)
    layers-IsSame display e (c ∷ cs) =
        let res = resource_manager lib in
        let e' = dispatch_layer_command res drm display e c in
        then-IsSame lib laws e e' (dispatch_layers res drm display e' cs) (layer-IsSame display e c)
          (layers-IsSame display e' cs)

    targets-IsSame :
        (e : Engine R) (c : DisplayCommand)
        → IsSame lib laws e (dispatch_targets (resource_manager lib) drm e c)
    unfolding dispatch_targets
    targets-IsSame e c =
        let res = resource_manager lib in
        let e1 =
          when_some res drm c.client_target (λ d t. execute_set_client_target res drm d c.display t)
            e in
        then-IsSame lib laws e e1 (dispatch_targets res drm e c)
          (when_some-IsSame c.client_target _ e (target-IsSame lib laws drm e c.display))
          (when_some-IsSame c.virtual_display_output_buffer _ e1
            (output-IsSame lib laws drm e1 c.display))

    display-IsSame :
        (e : Engine R) (c : DisplayCommand)
        → IsSame lib laws e (dispatch_display_command (resource_manager lib) drm e c)
    unfolding dispatch_display_command
    display-IsSame e c =
        let res = resource_manager lib in
        let e0 = dispatch_layers res drm c.display e c.layers in
        let e1 = dispatch_targets res drm e0 c in
        let e2 =
          when res drm c.validate (λ d. (execute_validate_display res drm d c.display).0) e1 in
        let e3 =
          when res drm c.accept (λ d. execute_accept_display_changes res drm d c.display) e2 in
        let e4 = when res drm c.present (λ d. execute_present_display res drm d c.display) e3 in
        let e5 = dispatch_display_command res drm e c in
        then-IsSame lib laws e e0 e5 (layers-IsSame c.display e c.layers) (
          then-IsSame lib laws e0 e1 e5 (targets-IsSame e0 c) (
            then-IsSame lib laws e1 e2 e5
              (when-IsSame c.validate _ e1 (validate-IsSame lib laws drm e1 c.display))
              (then-IsSame lib laws e2 e3 e5
                (when-IsSame c.accept _ e2 (accept-IsSame lib laws drm e2 c.display))
                (then-IsSame lib laws e3 e4 e5
                  (when-IsSame c.present _ e3 (present-IsSame lib laws drm e3 c.display))
                  (when-IsSame c.present_or_validate _ e4
                    (present_or_validate-IsSame lib laws drm e4 c.display))))))

    all-IsSame :
        (e : Engine R) (cs : List DisplayCommand)
        → IsSame lib laws e (dispatch_all (resource_manager lib) drm e cs)
    unfolding dispatch_all
    all-IsSame e [] = (refl, λ x. refl)
    all-IsSame e (c ∷ cs) =
        let res = resource_manager lib in
        let e' = dispatch_display_command res drm e c in
        let e'' = record e' { command_index = e'.command_index + 1 } in
        then-IsSame lib laws e e' (dispatch_all res drm e'' cs) (display-IsSame e c)
          (all-IsSame e'' cs)

    pub execute-IsTracked :
        (c : Client R) (commands : List DisplayCommand)
        → IsTracked lib laws c
        → IsTracked lib laws (execute_commands lib drm c commands).0
    unfolding execute_commands execute
    execute-IsTracked c commands t =
        let (same, k) = all-IsSame (record (c.engine) { command_index = 0 }) commands in
        record {
          distinct = rw same t.distinct;
          known = λ l h. let (known, ti) = t.known l (rw same at h) in (k l ∙ known, ti);
        }
