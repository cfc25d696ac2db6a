-- ===== src/Composer/Client/Destruction.antt =====
-- What ComposerClient::destroyResources leaves in the HAL, and the layers that it does not know.
use hardware_arpi.Base.{
  ℕ, ◌≡◌, refl, Bool, true, false, not, ◌&&◌, ◌||◌, List, [], ◌∷◌, ◌==◌, arith, inl, inr,
  Bool-cases, ltb, length,
}
use hardware_arpi.Base.Ids.{contains, erase, Distinct, contains-erase, Distinct-erase}
use hardware_arpi.Composer.Error.{no_error, is_display}
use hardware_arpi.Composer.Post.{Drm}
use hardware_arpi.Composer.Device.{
  validated, validate_display, present_display, remove_layer, destroy_layer,
}
use hardware_arpi.Composer.Device.Protocol.{settled_state}
use hardware_arpi.Composer.Hal.{
  ComposerHal, hal_destroy_layer, hal_validate_display, hal_accept_display_changes,
}
use hardware_arpi.Composer.Hal.Validation.{
  hal_validate_display_lem, hal_accept_display_changes_lem, hal_present_display_lem,
}
use hardware_arpi.Composer.Resources.{ComposerResources, Cleared, resources_clear}
use hardware_arpi.Composer.Client.{
  Client, destroy_layers, final_present, remove_display, remove_displays, destroy_resources,
}

-- The layers of the device.
abbrev pub layers_of : ComposerHal → List ℕ
layers_of hal = hal.device.layers

not_or : (a b c : Bool) → (not b && (not a && c)) ≡ (not (a || b) && c)
not_or a b c = ground arith

hal_destroy_layer-layers :
    (hal : ComposerHal) (display layer : ℕ)
    → is_display display ≡ true
    → layers_of (hal_destroy_layer hal display layer).0 ≡ erase layer (layers_of hal)
unfolding hal_destroy_layer destroy_layer remove_layer
hal_destroy_layer-layers hal display layer e = elim (Bool-cases (contains layer (layers_of hal))) [
  | inl f ↦ rw (e, f) refl
  | inr f ↦ rw (e, f) refl
]

-- A layer is left where it was there and is not destroyed.
destroy_layers-contains :
    (hal : ComposerHal) (display l : ℕ) (layers : List ℕ)
    → is_display display ≡ true
    → Distinct (layers_of hal)
    → Distinct (layers_of (destroy_layers hal display layers))
      × (contains l (layers_of (destroy_layers hal display layers))
          ≡ (not (contains l layers) && contains l (layers_of hal)))
unfolding destroy_layers contains
destroy_layers-contains hal display l [] e d = (d, refl)
destroy_layers-contains hal display l (x ∷ xs) e d =
    let same = hal_destroy_layer-layers hal display x e in
    let d' : Distinct (layers_of (hal_destroy_layer hal display x).0) =
      rw same (Distinct-erase x (layers_of hal) d) in
    let (left, eq) =
      destroy_layers-contains (hal_destroy_layer hal display x).0 display l xs e d' in
    (left, rw (eq, same, contains-erase x l (layers_of hal) d) (not_or (x == l) (contains l xs) _))

-- Validating and accepting from any state.
accepted :
    (hal : ComposerHal) (display : ℕ)
    → is_display display ≡ true
    → (hal_accept_display_changes (hal_validate_display hal display).0 display).0 ≡ record {
      device = record (hal.device) { state = validated; dirty_layers = [] };
      must_validate = false;
    }
unfolding validate_display
accepted hal display e =
    let v : ComposerHal = record {
      device = (validate_display hal.device display).0;
      must_validate = false;
    } in
    rw
      (
        hal_validate_display_lem hal display e,
        hal_accept_display_changes_lem v display e (settled_state hal.device display e),
      )
      (elim (Bool-cases (ltb 0 (length hal.device.dirty_layers))) [
        | inl f ↦ rw (e, f) refl
        | inr f ↦ rw (e, f) refl
      ])

pub final_present_lem :
    (drm : Drm) (hal : ComposerHal) (display : ℕ)
    → is_display display ≡ true
    → let (hal', error, fence) = final_present drm hal display in
      (error ≡ no_error)
      × (hal'.device.state ≡ validated)
      × (hal'.device.dirty_layers ≡ [])
      × (hal'.must_validate ≡ false)
      × (layers_of hal' ≡ layers_of hal)
unfolding final_present present_display
final_present_lem drm hal display e =
    let a : ComposerHal = record {
      device = record (hal.device) { state = validated; dirty_layers = [] };
      must_validate = false;
    } in
    rw (accepted hal display e, hal_present_display_lem drm a display e refl refl, e)
      (refl, refl, refl, refl, refl)

-- Whether one of the displays has the layer, and that all of them are displays of the device.
abbrev pub knows_layer : List Cleared → ℕ → Bool
knows_layer [] l = false
knows_layer (c ∷ cs) l = contains l c.layers || knows_layer cs l

abbrev pub AreDisplays : List Cleared → Type 0
AreDisplays [] = Unit {0}
AreDisplays (c ∷ cs) = (is_display c.display ≡ true) × AreDisplays cs

remove_display-layers :
    (drm : Drm) (hal : ComposerHal) (c : Cleared)
    → is_display c.display ≡ true
    → layers_of (remove_display drm hal c) ≡ layers_of (destroy_layers hal c.display c.layers)
unfolding remove_display
remove_display-layers drm hal c e =
    let hal' = destroy_layers hal c.display c.layers in
    elim (Bool-cases c.is_virtual) [
      | inl v ↦ rw v refl
      | inr v ↦ rw v (final_present_lem drm hal' c.display e).4
    ]

remove_displays-contains :
    (drm : Drm) (hal : ComposerHal) (l : ℕ) (cs : List Cleared)
    → AreDisplays cs
    → Distinct (layers_of hal)
    → contains l (layers_of (remove_displays drm hal cs))
      ≡ (not (knows_layer cs l) && contains l (layers_of hal))
unfolding remove_displays
remove_displays-contains drm hal l [] es d = refl
remove_displays-contains drm hal l (c ∷ cs) es d =
    let same = remove_display-layers drm hal c es.0 in
    let (distinct, left) = destroy_layers-contains hal c.display l c.layers es.0 d in
    let hal' = remove_display drm hal c in
    let distinct' : Distinct (layers_of hal') = rw same distinct in
    rw (remove_displays-contains drm hal' l cs es.1 distinct', same, left)
      (not_or (contains l c.layers) (knows_layer cs l) (contains l (layers_of hal)))

-- Where the resource manager's displays are those of the device, whose layers are distinct, the layers
-- that are left in the device after destroyResources are those that the manager did not know.
pub destroy_resources-layers {ℓ} :
    {R : Type ℓ} (lib : ComposerResources R) (drm : Drm) (c : Client R) (l : ℕ)
    → AreDisplays (resources_clear lib c.engine.resources).1
    → Distinct (layers_of c.engine.hal)
    → contains l (layers_of (destroy_resources lib drm c).engine.hal) ≡ (
        not (knows_layer (resources_clear lib c.engine.resources).1 l)
        && contains l (layers_of c.engine.hal))
unfolding destroy_resources
destroy_resources-layers lib drm c l es d =
    remove_displays-contains drm c.engine.hal l (resources_clear lib c.engine.resources).1 es d
