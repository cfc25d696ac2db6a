-- ===== src/Composer/Device/Protocol.antt =====
-- The order that Hwc2Device asks of a client: validate, accept where there are changes, present.
pub mod Traces
use hardware_arpi.Base.{
  ℕ, ◌≡◌, ◌≢◌, refl, Bool, true, false, List, [], ◌∷◌, arith, inl, inr, Bool-cases, ltb, ◌==◌,
  length, ◌⊎◌, map, take-length, min,
}
use hardware_arpi.Base.Ids.{contains}
use hardware_arpi.Composer.Error.{Error, is_display, no_error, not_validated}
use hardware_arpi.Composer.Post.{Drm, Context, Memory}
use hardware_arpi.Composer.Device.{
  Device, State, Info, Composition, client, is_state, modified, validated, validated_with_changes,
  create_layer, destroy_layer, set_client_target, validate_display, present_display,
  accept_display_changes, set_layer_composition_type, new_device, remove_layer, mark_layer_dirty,
  get_changed_composition_types,
}
use hardware_arpi.Composer.Device.Calls.{
  Call, creates, destroys, sets_target, validates, presents, accepts, sets_type, step, run,
  changes_layers,
}

-- The state after a validation is not MODIFIED.
pub settled_state :
    (d : Device) (display : ℕ)
    → is_display display ≡ true
    → is_state (validate_display d display).0.state modified ≡ false
unfolding validate_display
settled_state d display e = elim (Bool-cases (ltb 0 (length d.dirty_layers))) [
  | inl f ↦ rw (e, f) refl
  | inr f ↦ rw (e, f) refl
]

-- On a display there is, whatever the state and the layers, validating and then accepting succeeds,
-- and after it presenting returns no error, whatever the kernel answers.
pub validate-accept-present :
    (drm : Drm) (d : Device) (display : ℕ)
    → is_display display ≡ true
    → let d1 = (step d (validates display)).0 in
      let d2 = step d1 (accepts display) in
      (d2.1 ≡ no_error) × ((step d2.0 (presents drm display)).1 ≡ no_error)
unfolding step accept_display_changes present_display
validate-accept-present drm d display e = rw (e, settled_state d display e) (refl, refl)

create-modifies :
    (d : Device) (q : ℕ) → (create_layer d q).1 ≡ no_error → (create_layer d q).0.state ≡ modified
unfolding create_layer
create-modifies d q ok = elim (Bool-cases (is_display q)) [
  | inl e ↦ rw e refl
  | inr e ↦ ground (arith, rw e at ok)
]

destroy-modifies :
    (d : Device) (q layer : ℕ)
    → (destroy_layer d q layer).1 ≡ no_error
    → (destroy_layer d q layer).0.state ≡ modified
unfolding destroy_layer remove_layer
destroy-modifies d q layer ok = elim (Bool-cases (is_display q)) [
  | inr e ↦ ground (arith, rw e at ok)
  | inl e ↦ elim (Bool-cases (contains layer d.layers)) [
    | inl f ↦ rw (e, f) refl
    | inr f ↦ ground (arith, rw (e, f) at ok)
  ]
]

set_type-modifies :
    (d : Device) (q layer : ℕ) (type : Composition)
    → (set_layer_composition_type d q layer type).1 ≡ no_error
    → (set_layer_composition_type d q layer type).0.state ≡ modified
unfolding set_layer_composition_type mark_layer_dirty
set_type-modifies d q layer type ok = elim (Bool-cases (is_display q)) [
  | inr e ↦ ground (arith, rw e at ok)
  | inl e ↦ elim (Bool-cases (contains layer d.layers)) [
    | inl f ↦ rw (e, f) refl
    | inr f ↦ ground (arith, rw (e, f) at ok)
  ]
]

change_modifies :
    (d : Device) (c : Call)
    → changes_layers c ≡ true
    → (step d c).1 ≡ no_error
    → (step d c).0.state ≡ modified
unfolding step
change_modifies d (creates q) k ok = create-modifies d q ok
change_modifies d (destroys q layer) k ok = destroy-modifies d q layer ok
change_modifies d (sets_type q layer type) k ok = set_type-modifies d q layer type ok
change_modifies d (sets_target q t s) k ok = ground (arith, k)
change_modifies d (validates q) k ok = ground (arith, k)
change_modifies d (presents drm' q) k ok = ground (arith, k)
change_modifies d (accepts q) k ok = ground (arith, k)

modified_fails :
    (drm : Drm) (d : Device) (display : ℕ)
    → is_display display ≡ true
    → d.state ≡ modified
    → step d (presents drm display) ≡ (d, not_validated)
unfolding step present_display
modified_fails drm d display e m = rw (e, m) refl

-- A call that changes the layers and succeeds makes every present that follows it on a display there
-- is fail with NOT_VALIDATED, and leave the device as it is.
pub change_blocks_present :
    (drm : Drm) (d : Device) (c : Call) (display : ℕ)
    → changes_layers c ≡ true
    → (step d c).1 ≡ no_error
    → is_display display ≡ true
    → step (step d c).0 (presents drm display) ≡ ((step d c).0, not_validated)
change_blocks_present drm d c display k ok e =
    modified_fails drm (step d c).0 display e (change_modifies d c k ok)

pub min_same : (n : ℕ) → min n n ≡ n
min_same n = omega arith

pub no_dirty : (xs : List ℕ) → ltb 0 (length xs) ≡ false → xs ≡ []
no_dirty [] f = refl
no_dirty (x ∷ xs) f = ground (arith, f)

-- The two calls of the framework: after a validation that returned the number of changes, asking for
-- that many returns all of the dirty layers, each to be composed by the client; asking without the
-- arrays returns that number.
pub validate-changed_types :
    (d : Device) (display n : ℕ)
    → is_display display ≡ true
    → let (d', error, count) = validate_display d display in
      (get_changed_composition_types d' display count true
        ≡ (no_error, count, map (λ layer. (layer, client)) d.dirty_layers))
      × (get_changed_composition_types d' display n false ≡ (no_error, count, []))
unfolding validate_display get_changed_composition_types
validate-changed_types d display n e = elim (Bool-cases (ltb 0 (length d.dirty_layers))) [
  | inl f ↦ rw (e, f, min_same (length d.dirty_layers), take-length d.dirty_layers) (refl, refl)
  | inr f ↦ rw (e, f, no_dirty d.dirty_layers f) (refl, refl)
]
