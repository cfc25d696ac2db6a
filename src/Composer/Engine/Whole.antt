-- ===== src/Composer/Engine/Whole.antt =====
-- The commands of ComposerCommandEngine with all of their fields, and the handlers whose bodies are
-- commented out. What such a field holds is a number here: nothing reads it.
use hardware_arpi.Base.{ℕ, ◌+◌, List, [], ◌∷◌, Option}
use hardware_arpi.Composer.Post.{Drm}
use hardware_arpi.Composer.Engine.{
  Resources, Engine, Reply, LayerCommand, DisplayCommand, when_some, when, execute_validate_display,
  execute_set_client_target, execute_set_output_buffer, execute_set_layer_buffer,
  execute_set_layer_sideband_stream, execute_set_layer_composition, execute_accept_display_changes,
  execute_present_display, execute_present_or_validate_display,
}

-- The other fields of a `LayerCommand`.
pub record LayerSettings : Type 0 where
  pub cursor_position : Option ℕ
  pub damage : Option ℕ
  pub blend_mode : Option ℕ
  pub color : Option ℕ
  pub dataspace : Option ℕ
  pub display_frame : Option ℕ
  pub plane_alpha : Option ℕ
  pub source_crop : Option ℕ
  pub transform : Option ℕ
  pub visible_region : Option ℕ
  pub z : Option ℕ
  pub color_transform : Option ℕ
  pub brightness : Option ℕ
  pub per_frame_metadata : Option ℕ
  pub per_frame_metadata_blob : Option ℕ

pub record WholeLayer : Type 0 where
  pub command : LayerCommand
  pub settings : LayerSettings

-- A `DisplayCommand`; the layers of `command` are not read.
pub record WholeCommand : Type 0 where
  pub command : DisplayCommand
  pub whole_layers : List WholeLayer
  pub display_brightness : Option ℕ
  pub color_transform_matrix : Option ℕ
  pub expected_present_time : Option ℕ

module _ {ℓ} {R : Type ℓ} where
  unfoldable pub execute_set_layer_cursor_position : Engine R → ℕ → ℕ → ℕ → Engine R
  execute_set_layer_cursor_position e display layer value = e

  unfoldable pub execute_set_layer_surface_damage : Engine R → ℕ → ℕ → ℕ → Engine R
  execute_set_layer_surface_damage e display layer value = e

  unfoldable pub execute_set_layer_blend_mode : Engine R → ℕ → ℕ → ℕ → Engine R
  execute_set_layer_blend_mode e display layer value = e

  unfoldable pub execute_set_layer_color : Engine R → ℕ → ℕ → ℕ → Engine R
  execute_set_layer_color e display layer value = e

  unfoldable pub execute_set_layer_dataspace : Engine R → ℕ → ℕ → ℕ → Engine R
  execute_set_layer_dataspace e display layer value = e

  unfoldable pub execute_set_layer_display_frame : Engine R → ℕ → ℕ → ℕ → Engine R
  execute_set_layer_display_frame e display layer value = e

  unfoldable pub execute_set_layer_plane_alpha : Engine R → ℕ → ℕ → ℕ → Engine R
  execute_set_layer_plane_alpha e display layer value = e

  unfoldable pub execute_set_layer_source_crop : Engine R → ℕ → ℕ → ℕ → Engine R
  execute_set_layer_source_crop e display layer value = e

  unfoldable pub execute_set_layer_transform : Engine R → ℕ → ℕ → ℕ → Engine R
  execute_set_layer_transform e display layer value = e

  unfoldable pub execute_set_layer_visible_region : Engine R → ℕ → ℕ → ℕ → Engine R
  execute_set_layer_visible_region e display layer value = e

  unfoldable pub execute_set_layer_z_order : Engine R → ℕ → ℕ → ℕ → Engine R
  execute_set_layer_z_order e display layer value = e

  unfoldable pub execute_set_layer_color_transform : Engine R → ℕ → ℕ → ℕ → Engine R
  execute_set_layer_color_transform e display layer value = e

  unfoldable pub execute_set_layer_brightness : Engine R → ℕ → ℕ → ℕ → Engine R
  execute_set_layer_brightness e display layer value = e

  unfoldable pub execute_set_layer_per_frame_metadata : Engine R → ℕ → ℕ → ℕ → Engine R
  execute_set_layer_per_frame_metadata e display layer value = e

  unfoldable pub execute_set_layer_per_frame_metadata_blobs : Engine R → ℕ → ℕ → ℕ → Engine R
  execute_set_layer_per_frame_metadata_blobs e display layer value = e

  unfoldable pub execute_set_color_transform : Engine R → ℕ → ℕ → Engine R
  execute_set_color_transform e display matrix = e

  unfoldable pub execute_set_display_brightness : Engine R → ℕ → ℕ → Engine R
  execute_set_display_brightness e display brightness = e

  unfoldable pub set_expected_present_time : Engine R → ℕ → Option ℕ → Engine R
  set_expected_present_time e display time = e

module _ {ℓ} {R : Type ℓ} (res : Resources R) (drm : Drm) where
  -- `DISPATCH_LAYER_COMMAND`, field by field.
  unfoldable pub dispatch_whole_layer : ℕ → Engine R → WholeLayer → Engine R
  unfolding execute_set_layer_cursor_position execute_set_layer_surface_damage
      execute_set_layer_blend_mode execute_set_layer_color execute_set_layer_dataspace
      execute_set_layer_display_frame execute_set_layer_plane_alpha execute_set_layer_source_crop
      execute_set_layer_transform execute_set_layer_visible_region execute_set_layer_z_order
      execute_set_layer_color_transform execute_set_layer_brightness
      execute_set_layer_per_frame_metadata execute_set_layer_per_frame_metadata_blobs
  dispatch_whole_layer display e c =
      let s = c.settings in
      let layer = c.command.layer in
      let e1 =
        when_some res drm s.cursor_position
          (λ d v. execute_set_layer_cursor_position d display layer v) e in
      let e2 =
        when_some res drm c.command.buffer
          (λ d v. execute_set_layer_buffer res drm d display layer v) e1 in
      let e3 =
        when_some res drm s.damage (λ d v. execute_set_layer_surface_damage d display layer v) e2 in
      let e4 =
        when_some res drm s.blend_mode (λ d v. execute_set_layer_blend_mode d display layer v) e3 in
      let e5 = when_some res drm s.color (λ d v. execute_set_layer_color d display layer v) e4 in
      let e6 =
        when_some res drm c.command.composition
          (λ d v. execute_set_layer_composition res drm d display layer v) e5 in
      let e7 =
        when_some res drm s.dataspace (λ d v. execute_set_layer_dataspace d display layer v) e6 in
      let e8 =
        when_some res drm s.display_frame (λ d v. execute_set_layer_display_frame d display layer v)
          e7 in
      let e9 =
        when_some res drm s.plane_alpha (λ d v. execute_set_layer_plane_alpha d display layer v)
          e8 in
      let e10 =
        when_some res drm c.command.sideband_stream
          (λ d v. execute_set_layer_sideband_stream res drm d display layer v) e9 in
      let e11 =
        when_some res drm s.source_crop (λ d v. execute_set_layer_source_crop d display layer v)
          e10 in
      let e12 =
        when_some res drm s.transform (λ d v. execute_set_layer_transform d display layer v) e11 in
      let e13 =
        when_some res drm s.visible_region
          (λ d v. execute_set_layer_visible_region d display layer v) e12 in
      let e14 = when_some res drm s.z (λ d v. execute_set_layer_z_order d display layer v) e13 in
      let e15 =
        when_some res drm s.color_transform
          (λ d v. execute_set_layer_color_transform d display layer v) e14 in
      let e16 =
        when_some res drm s.brightness (λ d v. execute_set_layer_brightness d display layer v)
          e15 in
      let e17 =
        when_some res drm s.per_frame_metadata
          (λ d v. execute_set_layer_per_frame_metadata d display layer v) e16 in
      when_some res drm s.per_frame_metadata_blob
        (λ d v. execute_set_layer_per_frame_metadata_blobs d display layer v) e17

  unfoldable pub dispatch_whole_layers : ℕ → Engine R → List WholeLayer → Engine R
  dispatch_whole_layers display e [] = e
  dispatch_whole_layers display e (c ∷ cs) =
      dispatch_whole_layers display (dispatch_whole_layer display e c) cs

  unfoldable pub dispatch_whole_command : Engine R → WholeCommand → Engine R
  unfolding execute_set_color_transform execute_set_display_brightness set_expected_present_time
  dispatch_whole_command e w =
      let c = w.command in
      let display = c.display in
      let e1 =
        when_some res drm w.display_brightness (λ d v. execute_set_display_brightness d display v)
          e in
      let e2 = dispatch_whole_layers display e1 w.whole_layers in
      let e3 =
        when_some res drm w.color_transform_matrix (λ d v. execute_set_color_transform d display v)
          e2 in
      let e4 =
        when_some res drm c.client_target (λ d t. execute_set_client_target res drm d display t)
          e3 in
      let e5 =
        when_some res drm c.virtual_display_output_buffer
          (λ d b. execute_set_output_buffer res drm d display b) e4 in
      let e6 =
        when res drm c.validate
          (λ d.
            (execute_validate_display res drm
              (set_expected_present_time d display w.expected_present_time) display).0)
          e5 in
      let e7 = when res drm c.accept (λ d. execute_accept_display_changes res drm d display) e6 in
      let e8 = when res drm c.present (λ d. execute_present_display res drm d display) e7 in
      when res drm c.present_or_validate
        (λ d.
          execute_present_or_validate_display res drm
            (set_expected_present_time d display w.expected_present_time) display)
        e8

  unfoldable pub dispatch_whole : Engine R → List WholeCommand → Engine R
  dispatch_whole e [] = e
  dispatch_whole e (c ∷ cs) =
      let e' = dispatch_whole_command e c in
      dispatch_whole (record e' { command_index = e'.command_index + 1 }) cs

  -- The set of displays whose brightness is pending is local to the call, and nothing reads it.
  unfoldable pub execute_whole : Engine R → List WholeCommand → Engine R × List Reply
  execute_whole e cs =
      let e' = dispatch_whole (record e { command_index = 0 }) cs in
      (record e' { replies = [] }, e'.replies)
