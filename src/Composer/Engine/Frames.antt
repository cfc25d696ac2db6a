-- ===== src/Composer/Engine/Frames.antt =====
-- The frame cycle of one command of the client: validate, accept, present.
use hardware_arpi.Base.{
  ℕ, ◌≡◌, refl, true, false, [], ◌∷◌, some, inl, inr, Bool-cases, ltb, length, map,
}
use hardware_arpi.Base.Int.{negsuc}
use hardware_arpi.Composer.Error.{is_display}
use hardware_arpi.Composer.Post.{Drm, hwc_post}
use hardware_arpi.Composer.Device.{Device, client, validated, validate_display, present_display}
use hardware_arpi.Composer.Device.Protocol.{settled_state}
use hardware_arpi.Composer.Hal.Validation.{
  hal_validate_display_lem, hal_accept_display_changes_lem, hal_present_display_lem,
}
use hardware_arpi.Composer.Engine.{
  Resources, Engine, DisplayCommand, changed_composition_types, display_requests,
  client_target_property, present_fence, release_fences, execute_validate_display,
  execute_accept_display_changes, execute_present_display, dispatch_targets, dispatch_layers,
  dispatch_display_command, report,
}

-- A validation touches nothing that a post reads.
validate_keeps :
    (d : Device) (display : ℕ)
    → is_display display ≡ true
    → ((validate_display d display).0.context ≡ d.context)
      × ((validate_display d display).0.memory ≡ d.memory)
      × ((validate_display d display).0.buffer ≡ d.buffer)
unfolding validate_display
validate_keeps d display e = elim (Bool-cases (ltb 0 (length d.dirty_layers))) [
  | inl f ↦ rw (e, f) (refl, refl, refl)
  | inr f ↦ rw (e, f) (refl, refl, refl)
]

presented_fence :
    (drm : Drm) (d : Device) (display : ℕ)
    → is_display display ≡ true
    → d.state ≡ validated
    → (present_display drm d display).2
      ≡ some (hwc_post drm d.context d.memory display d.buffer (negsuc 0)).out_fence
unfolding present_display
presented_fence drm d display e s = rw (e, s) refl

module _ {ℓ} {R : Type ℓ} (res : Resources R) (drm : Drm) where
  cycle_replies :
      (e : Engine R) (display : ℕ)
      → is_display display ≡ true
      → let d = e.hal.device in
        let e1 = (execute_validate_display res drm e display).0 in
        let e2 = execute_accept_display_changes res drm e1 display in
        (execute_present_display res drm e2 display).replies
        ≡ release_fences display
          ∷ present_fence display
              (some (hwc_post drm d.context d.memory display d.buffer (negsuc 0)).out_fence)
          ∷ client_target_property display
          ∷ display_requests display
          ∷ changed_composition_types display (map (λ layer. (layer, client)) d.dirty_layers)
          ∷ e.replies
  unfolding execute_validate_display execute_accept_display_changes execute_present_display report
  cycle_replies e display v =
      let d = e.hal.device in
      let dv = (validate_display d display).0 in
      let da : Device = record dv { state = validated; dirty_layers = [] } in
      rw
        (
          hal_validate_display_lem e.hal display v,
          hal_accept_display_changes_lem (record { device = dv; must_validate = false }) display v
              (settled_state d display v),
          hal_present_display_lem drm (record { device = da; must_validate = false }) display v refl
              refl,
          presented_fence drm da display v refl,
          (validate_keeps d display v).0,
          (validate_keeps d display v).1,
          (validate_keeps d display v).2,
        )
        refl

  -- A command that validates, accepts and presents a display there is does so, whatever the state,
  -- the layers and the client target of before: the replies to the three steps are the dirty layers
  -- of after the layer commands and the targets, with no error, then the fence of the post.
  pub dispatch-frame :
      (e : Engine R) (c : DisplayCommand)
      → is_display c.display ≡ true
      → c.validate ≡ true
      → c.accept ≡ true
      → c.present ≡ true
      → c.present_or_validate ≡ false
      → let e' = dispatch_targets res drm (dispatch_layers res drm c.display e c.layers) c in
        let d = e'.hal.device in
        (dispatch_display_command res drm e c).replies
        ≡ release_fences c.display
          ∷ present_fence c.display
              (some (hwc_post drm d.context d.memory c.display d.buffer (negsuc 0)).out_fence)
          ∷ client_target_property c.display
          ∷ display_requests c.display
          ∷ changed_composition_types c.display (map (λ layer. (layer, client)) d.dirty_layers)
          ∷ e'.replies
  unfolding dispatch_display_command
  dispatch-frame e c k v a p n = rw (v, a, p, n) (cycle_replies _ c.display k)
