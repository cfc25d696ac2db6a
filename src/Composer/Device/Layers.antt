-- ===== src/Composer/Device/Layers.antt =====
-- What is always true of the layer sets and the validation state of Hwc2Device.
pub mod Steps
pub mod Numbers
pub mod Registry
use hardware_arpi.Base.{
  ℕ, ◌≡◌, ◌≢◌, refl, Bool, true, false, List, [], ◌∷◌, arith, inl, inr, Bool-cases, ltb, ◌==◌, not,
  length, if◌then◌else◌, ◌≤◌, ◌<◌, ◌+◌, ◌^◌, ◌%◌, some,
}
use hardware_arpi.Base.Ids.{
  contains, insert, erase, Distinct, contains-insert, contains-erase, Distinct-insert,
  Distinct-erase,
}
use hardware_arpi.Composer.Error.{is_display, no_error}
use hardware_arpi.Composer.Post.{Drm, Context, Memory}
use hardware_arpi.Composer.Device.{
  Device, State, Info, Composition, is_state, is_client, modified, validated,
  validated_with_changes, create_layer, destroy_layer, set_client_target, validate_display,
  present_display, accept_display_changes, set_layer_composition_type, new_device, add_layer,
  remove_layer, mark_layer_dirty, set_state,
}
use hardware_arpi.Composer.Device.Calls.{
  Call, creates, destroys, sets_target, validates, presents, accepts, sets_type, step, run,
}

-- Every layer of `xs` is one of `ys`.
abbrev pub Within : List ℕ → List ℕ → Type 0
Within xs ys = (x : ℕ) → contains x xs ≡ true → contains x ys ≡ true

-- What each state promises of the dirty layers.
abbrev pub Promises : State → List ℕ → Type 0
Promises modified dirty = Unit
Promises validated_with_changes dirty = dirty ≢ []
Promises validated dirty = dirty ≡ []

pub record IsValid (d : Device) : Type 0 where
  pub distinct : Distinct d.layers
  pub distinct_dirty : Distinct d.dirty_layers
  pub within : Within d.dirty_layers d.layers
  pub promise : Promises d.state d.dirty_layers

pub Within-insert : (x : ℕ) (xs ys : List ℕ) → Within xs ys → Within (insert x xs) (insert x ys)
Within-insert x xs ys w y c = ground (arith, contains-insert x y xs, contains-insert x y ys, w y, c)

pub Within-insert_known :
    (x : ℕ) (xs ys : List ℕ) → Within xs ys → contains x ys ≡ true → Within (insert x xs) ys
Within-insert_known x xs ys w known y c = ground (arith, contains-insert x y xs, w y, c, known)

pub Within-erase :
    (x : ℕ) (xs ys : List ℕ)
    → Distinct xs
    → Distinct ys
    → Within xs ys
    → Within (erase x xs) (erase x ys)
Within-erase x xs ys d d' w y c =
    ground (arith, contains-erase x y xs d, contains-erase x y ys d', w y, c)

pub Within-erase_one :
    (x : ℕ) (xs ys : List ℕ) → Distinct xs → Within xs ys → Within (erase x xs) ys
Within-erase_one x xs ys d w y c = ground (arith, contains-erase x y xs d, w y, c)
