-- ===== src/Composer/Client/Tracking.antt =====
-- The layers that ComposerClient makes and destroys, in the device and in the resource manager.
pub mod Sessions
pub mod Handlers
pub mod Frames
use native.Mathlib.Nat.{mod-mod}
use hardware_arpi.Base.{
  ℕ, ◌+◌, ◌^◌, ◌%◌, ◌≡◌, refl, sym, ap, ◌∙◌, Bool, true, false, not, ◌||◌, ◌&&◌, List, [], ◌∷◌, map,
  ◌==◌, arith, inl, inr, Bool-cases, some,
}
use hardware_arpi.Base.Ids.{
  contains, insert, erase, Distinct, contains-insert, contains-erase, Distinct-insert,
  Distinct-erase,
}
use hardware_arpi.Composer.Error.{Error, no_error, is_ok, is_display}
use hardware_arpi.Composer.Post.{Drm}
use hardware_arpi.Composer.Device.{modified, create_layer, add_layer, destroy_layer, remove_layer}
use hardware_arpi.Composer.Hal.{ComposerHal, hal_create_layer, hal_destroy_layer}
use hardware_arpi.Composer.Resources.{
  ComposerResources, Cleared, translate_id, translate_error, translate_each, translate_cleared,
  resources_clear, resources_add_layer, resources_remove_layer,
}
use hardware_arpi.Composer.Client.{
  Client, add_created, client_create_layer, client_destroy_layer, destroy_resources,
}
use hardware_arpi.Composer.Client.Destruction.{
  layers_of, knows_layer, AreDisplays, destroy_resources-layers,
}

-- What the library promises of the layers it knows: a layer that is added without error is known, one
-- that is removed is the only one to be forgotten, clearing tells all of them, and looking a buffer
-- up or noting whether to validate changes none.
pub record LayerLaws {ℓ} {R : Type ℓ} (lib : ComposerResources R) : Type ℓ where
  pub knows : R → ℕ → Bool
  pub added :
      (r : R) (display layer size x : ℕ)
      → (lib.add_layer r display layer size).1 ≡ 0
      → knows (lib.add_layer r display layer size).0 x ≡ (layer == x || knows r x)
  pub removed :
      (r : R) (display layer x : ℕ)
      → (layer == x) ≡ false
      → knows (lib.remove_layer r display layer).0 x ≡ knows r x
  pub cleared : (r : R) (x : ℕ) → knows r x ≡ true → knows_layer (lib.clear r).1 x ≡ true
  pub target_kept :
      (r : R) (display slot : ℕ) (from_cache : Bool) (handle x : ℕ)
      → knows (lib.get_display_client_target r display slot from_cache handle).0 x ≡ knows r x
  pub output_kept :
      (r : R) (display slot : ℕ) (from_cache : Bool) (handle x : ℕ)
      → knows (lib.get_display_output_buffer r display slot from_cache handle).0 x ≡ knows r x
  pub buffer_kept :
      (r : R) (display layer slot : ℕ) (from_cache : Bool) (handle x : ℕ)
      → knows (lib.get_layer_buffer r display layer slot from_cache handle).0 x ≡ knows r x
  pub stream_kept :
      (r : R) (display layer handle x : ℕ)
      → knows (lib.get_layer_sideband_stream r display layer handle).0 x ≡ knows r x
  pub state_kept :
      (r : R) (display : ℕ) (must_validate : Bool) (x : ℕ)
      → knows (lib.set_display_must_validate_state r display must_validate) x ≡ knows r x

-- What is known of each of the layers.
abbrev pub AreKnown : (ℕ → Bool) → List ℕ → Type 0
AreKnown known xs = (l : ℕ) → contains l xs ≡ true → (known l ≡ true) × (translate_id l ≡ l)

pub same_id : (x y : ℕ) → (x == y) ≡ true → x ≡ y
same_id x y e = ground (arith, e)

left_after :
    (x y : ℕ) (ys : List ℕ)
    → Distinct ys
    → contains y (erase x ys) ≡ true
    → ((x == y) ≡ false) × (contains y ys ≡ true)
left_after x y ys d h = ground (arith, contains-erase x y ys d, h)

insert-AreKnown :
    (known known' : ℕ → Bool) (id : ℕ) (xs : List ℕ)
    → translate_id id ≡ id
    → ((x : ℕ) → known' x ≡ (id == x || known x))
    → AreKnown known xs
    → AreKnown known' (insert id xs)
insert-AreKnown known known' id xs ti more k l h = elim (Bool-cases (id == l)) [
  | inl e ↦ (rw (more l, e) refl, ap translate_id (sym (same_id id l e)) ∙ ti ∙ same_id id l e)
  | inr e ↦
      let h' : contains l xs ≡ true = ground (arith, contains-insert id l xs, e, h) in
      (rw (more l, e) (k l h').0, (k l h').1)
]

module _ {ℓ} {R : Type ℓ} (lib : ComposerResources R) (laws : LayerLaws lib) where
  -- The device's layers are distinct 64-bit numbers that the manager knows.
  pub record IsTracked (c : Client R) : Type 0 where
    pub distinct : Distinct (layers_of c.engine.hal)
    pub known : AreKnown (laws.knows c.engine.resources) (layers_of c.engine.hal)

  ok_code : (n : ℕ) → is_ok (translate_error n) ≡ true → n ≡ 0
  unfolding translate_error
  ok_code n h = ground (arith, h)

  add-IsTracked :
      (c : Client R) (display slots : ℕ)
      → let (d, id) = add_layer c.engine.hal.device in
        let (r, err) = resources_add_layer lib c.engine.resources display id slots in
        is_ok err ≡ true
        → IsTracked c
        → IsTracked (record c {
          engine = record (c.engine) {
            hal = record (c.engine.hal) { device = record d { state = modified } };
            resources = r;
          };
        })
  unfolding add_layer resources_add_layer translate_id
  add-IsTracked c display slots ok t =
      let id = (c.engine.hal.device.next_layer_id + 1) % 2 ^ 64 in
      let layers = layers_of c.engine.hal in
      let ti : translate_id id ≡ id = mod-mod (c.engine.hal.device.next_layer_id + 1) (2 ^ 64) in
      record {
        distinct = Distinct-insert id layers t.distinct;
        known =
            insert-AreKnown _ _ id layers ti
              (λ x.
                laws.added c.engine.resources (translate_id display) (translate_id id) slots x
                  (ok_code _ ok)
                ∙ ap (λ y. y == x || laws.knows c.engine.resources x) ti)
              t.known;
      }

  pub create-IsTracked :
      (c : Client R) (display slots : ℕ)
      → (is_display display && not (is_ok (client_create_layer lib c display slots).1)) ≡ false
      → IsTracked c
      → IsTracked (client_create_layer lib c display slots).0
  unfolding client_create_layer add_created hal_create_layer create_layer
  create-IsTracked c display slots h t = elim (Bool-cases (is_display display)) [
    | inl e ↦
        let h' = (rw e at h) in
        rw e (add-IsTracked c display (slots % 2 ^ 32) (ground (arith, h')) t)
    | inr e ↦ rw e t
  ]

  remove-IsTracked :
      (c : Client R) (display layer : ℕ) (hal : ComposerHal)
      → layers_of hal ≡ erase layer (layers_of c.engine.hal)
      → translate_id layer ≡ layer
      → IsTracked c
      → IsTracked (record c {
        engine = record (c.engine) {
          hal = hal;
          resources = (resources_remove_layer lib c.engine.resources display layer).0;
        };
      })
  unfolding resources_remove_layer
  remove-IsTracked c display layer hal same ti t =
      let layers = layers_of c.engine.hal in
      record {
        distinct = rw same (Distinct-erase layer layers t.distinct);
        known = λ l h.
            let (other, there) = left_after layer l layers t.distinct (rw same at h) in
            let other' : (translate_id layer == l) ≡ false = rw ti other in
            (
              laws.removed c.engine.resources (translate_id display) (translate_id layer) l other'
                  ∙ (t.known l there).0,
              (t.known l there).1,
            );
      }

  pub destroy-IsTracked :
      (c : Client R) (display layer : ℕ)
      → IsTracked c
      → IsTracked (client_destroy_layer lib c display layer).0
  unfolding client_destroy_layer hal_destroy_layer destroy_layer remove_layer
  destroy-IsTracked c display layer t = elim (Bool-cases (is_display display)) [
    | inr e ↦ rw e t
    | inl e ↦ elim (Bool-cases (contains layer (layers_of c.engine.hal))) [
      | inl f ↦ rw (e, f) (remove-IsTracked c display layer _ refl (t.known layer f).1 t)
      | inr f ↦
          rw (e, f)
            record {
              distinct = Distinct-erase layer (layers_of c.engine.hal) t.distinct;
              known = λ l h. t.known l (left_after layer l (layers_of c.engine.hal) t.distinct h).1;
            }
    ]
  ]
