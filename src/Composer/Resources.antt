-- ===== src/Composer/Resources.antt =====
-- graphics/composer/aidl/impl/ResourceManager.cpp with the translations of impl/TranslateHwcAidl.h.
-- ComposerResources, which holds the displays, layers and buffer caches, is a library: its state and
-- its calls are arguments. A replaced handle goes to the releaser, which is the library's too.
use hardware_arpi.Base.{
  ℕ, ◌%◌, ◌^◌, Bool, List, [], ◌∷◌, Option, none, some, if◌then◌else◌, ◌==◌, map,
}
use hardware_arpi.Composer.Error.{
  Error, no_error, bad_config, bad_display, bad_layer, bad_parameter, has_changes, no_resources,
  not_validated, unsupported, other_error,
}
use hardware_arpi.Composer.Engine.{Resources}

-- The casts between int64_t and the library's uint64_t keep the 64 bits, and a number here is those
-- bits. An error is an int32_t that keeps its value.
unfoldable pub translate_id : ℕ → ℕ
translate_id id = id % 2 ^ 64

unfoldable pub translate_error : ℕ → Error
translate_error n =
    if n == 0
    then no_error
    else if n == 1
    then bad_config
    else if n == 2
    then bad_display
    else if n == 3
    then bad_layer
    else if n == 4
    then bad_parameter
    else if n == 5
    then has_changes
    else if n == 6
    then no_resources
    else if n == 7
    then not_validated
    else if n == 8
    then unsupported
    else other_error n

-- A vector is translated element by element; of one with holes, those that are there.
unfoldable pub translate_each {ℓ κ} : {A : Type ℓ} {B : Type κ} → (A → B) → List A → List B
translate_each f [] = []
translate_each f (t ∷ ts) = f t ∷ translate_each f ts

unfoldable pub translate_present {ℓ κ} :
    {A : Type ℓ} {B : Type κ} → (A → B) → List (Option A) → List B
translate_present f [] = []
translate_present f (none ∷ ts) = translate_present f ts
translate_present f (some t ∷ ts) = f t ∷ translate_present f ts

-- A display that `clear` forgets: its id, whether it is virtual, and its layers.
pub record Cleared : Type 0 where
  pub display : ℕ
  pub is_virtual : Bool
  pub layers : List ℕ

-- The library's calls, with the numbers of its errors. `clear` gives the displays for which it calls
-- the function it is given, in that order.
pub record ComposerResources {ℓ} (R : Type ℓ) : Type ℓ where
  pub clear : R → R × List Cleared
  pub has_display : R → ℕ → Bool
  pub add_physical_display : R → ℕ → R × ℕ
  pub add_virtual_display : R → ℕ → ℕ → R × ℕ
  pub remove_display : R → ℕ → R × ℕ
  pub set_display_client_target_cache_size : R → ℕ → ℕ → R × ℕ
  pub get_display_client_target_cache_size : R → ℕ → ℕ × ℕ
  pub get_display_output_buffer_cache_size : R → ℕ → ℕ × ℕ
  pub add_layer : R → ℕ → ℕ → ℕ → R × ℕ
  pub remove_layer : R → ℕ → ℕ → R × ℕ
  pub set_display_must_validate_state : R → ℕ → Bool → R
  pub must_validate_display : R → ℕ → Bool
  pub get_display_readback_buffer : R → ℕ → ℕ → R × ℕ × ℕ
  pub get_display_client_target : R → ℕ → ℕ → Bool → ℕ → R × ℕ × ℕ
  pub get_display_output_buffer : R → ℕ → ℕ → Bool → ℕ → R × ℕ × ℕ
  pub get_layer_buffer : R → ℕ → ℕ → ℕ → Bool → ℕ → R × ℕ × ℕ
  pub get_layer_sideband_stream : R → ℕ → ℕ → ℕ → R × ℕ × ℕ

module _ {ℓ} {R : Type ℓ} where
  abbrev with_error : R × ℕ → R × Error
  with_error (r, err) = (r, translate_error err)

  abbrev with_handle : R × ℕ × ℕ → R × Error × ℕ
  with_handle (r, err, handle) = (r, translate_error err, handle)

unfoldable pub translate_cleared : Cleared → Cleared
unfolding translate_id translate_each
translate_cleared c = record {
  display = translate_id c.display;
  is_virtual = c.is_virtual;
  layers = translate_each translate_id c.layers;
}

module _ {ℓ} {R : Type ℓ} (lib : ComposerResources R) where
  unfoldable pub resources_clear : R → R × List Cleared
  resources_clear r = let (r', cs) = lib.clear r in (r', map translate_cleared cs)

  unfoldable pub resources_has_display : R → ℕ → Bool
  resources_has_display r display = lib.has_display r (translate_id display)

  unfoldable pub resources_add_physical_display : R → ℕ → R × Error
  resources_add_physical_display r display =
      with_error (lib.add_physical_display r (translate_id display))

  unfoldable pub resources_add_virtual_display : R → ℕ → ℕ → R × Error
  resources_add_virtual_display r display output_buffer_cache_size =
      with_error (lib.add_virtual_display r (translate_id display) output_buffer_cache_size)

  unfoldable pub resources_remove_display : R → ℕ → R × Error
  resources_remove_display r display = with_error (lib.remove_display r (translate_id display))

  unfoldable pub set_client_target_cache_size : R → ℕ → ℕ → R × Error
  set_client_target_cache_size r display size =
      with_error (lib.set_display_client_target_cache_size r (translate_id display) size)

  unfoldable pub get_client_target_cache_size : R → ℕ → Error × ℕ
  get_client_target_cache_size r display =
      let (err, size) = lib.get_display_client_target_cache_size r (translate_id display) in
      (translate_error err, size)

  unfoldable pub get_output_buffer_cache_size : R → ℕ → Error × ℕ
  get_output_buffer_cache_size r display =
      let (err, size) = lib.get_display_output_buffer_cache_size r (translate_id display) in
      (translate_error err, size)

  unfoldable pub resources_add_layer : R → ℕ → ℕ → ℕ → R × Error
  resources_add_layer r display layer buffer_cache_size =
      with_error (lib.add_layer r (translate_id display) (translate_id layer) buffer_cache_size)

  unfoldable pub resources_remove_layer : R → ℕ → ℕ → R × Error
  resources_remove_layer r display layer =
      with_error (lib.remove_layer r (translate_id display) (translate_id layer))

  unfoldable pub resources_set_must_validate : R → ℕ → Bool → R
  resources_set_must_validate r display must_validate =
      lib.set_display_must_validate_state r (translate_id display) must_validate

  unfoldable pub resources_must_validate : R → ℕ → Bool
  resources_must_validate r display = lib.must_validate_display r (translate_id display)

  unfoldable pub resources_readback_buffer : R → ℕ → ℕ → R × Error × ℕ
  resources_readback_buffer r display handle =
      with_handle (lib.get_display_readback_buffer r (translate_id display) handle)

  unfoldable pub resources_client_target : R → ℕ → ℕ → Bool → ℕ → R × Error × ℕ
  resources_client_target r display slot from_cache handle =
      with_handle (lib.get_display_client_target r (translate_id display) slot from_cache handle)

  unfoldable pub resources_output_buffer : R → ℕ → ℕ → Bool → ℕ → R × Error × ℕ
  resources_output_buffer r display slot from_cache handle =
      with_handle (lib.get_display_output_buffer r (translate_id display) slot from_cache handle)

  unfoldable pub resources_layer_buffer : R → ℕ → ℕ → ℕ → Bool → ℕ → R × Error × ℕ
  resources_layer_buffer r display layer slot from_cache handle =
      with_handle
        (lib.get_layer_buffer r (translate_id display) (translate_id layer) slot from_cache handle)

  unfoldable pub resources_sideband_stream : R → ℕ → ℕ → ℕ → R × Error × ℕ
  resources_sideband_stream r display layer handle =
      with_handle
        (lib.get_layer_sideband_stream r (translate_id display) (translate_id layer) handle)

  -- The calls that the engine makes.
  unfoldable pub resource_manager : Resources R
  resource_manager = record {
    get_display_client_target = resources_client_target;
    get_display_output_buffer = resources_output_buffer;
    get_layer_buffer = resources_layer_buffer;
    get_layer_sideband_stream = resources_sideband_stream;
    set_display_must_validate_state = resources_set_must_validate;
  }
