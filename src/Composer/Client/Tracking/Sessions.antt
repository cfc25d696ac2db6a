-- ===== src/Composer/Client/Tracking/Sessions.antt =====
-- Whole sessions of ComposerClient: whether destroyResources leaves layers in the device.
use hardware_arpi.Base.{
  ℕ, ◌+◌, ◌^◌, ◌%◌, ◌≡◌, refl, Bool, true, false, not, ◌&&◌, List, [], ◌∷◌, map, ◌==◌, arith, inl,
  inr, Bool-cases, some,
}
use hardware_arpi.Base.Ids.{contains, insert, Distinct, contains-insert, Distinct-insert}
use hardware_arpi.Composer.Engine.{DisplayCommand}
use hardware_arpi.Composer.Client.Tracking.Frames.{execute-IsTracked}
use hardware_arpi.Composer.Error.{Error, no_error, is_ok, is_display}
use hardware_arpi.Composer.Post.{Drm}
use hardware_arpi.Composer.Device.{create_layer, add_layer}
use hardware_arpi.Composer.Hal.{hal_create_layer}
use hardware_arpi.Composer.Resources.{
  ComposerResources, Cleared, translate_id, translate_each, translate_cleared, resources_clear,
}
use hardware_arpi.Composer.Client.{
  Client, add_created, client_create_layer, client_destroy_layer, destroy_resources,
  execute_commands,
}
use hardware_arpi.Composer.Client.Destruction.{
  layers_of, knows_layer, AreDisplays, destroy_resources-layers,
}
use hardware_arpi.Composer.Client.Tracking.{
  LayerLaws, IsTracked, same_id, create-IsTracked, destroy-IsTracked,
}

-- The calls of a session on the layers, and the command lists between them.
pub data SessionCall : Type 0 where
  creates_layer destroys_layer : ℕ → ℕ → SessionCall
  executes : List DisplayCommand → SessionCall

and_false : (a : Bool) → (a && false) ≡ false
and_false a = ground arith

same_test : (x : ℕ) → (x == x) ≡ true
same_test x = ground arith

translate-contains :
    (x : ℕ) (ys : List ℕ)
    → contains x ys ≡ true
    → contains (translate_id x) (translate_each translate_id ys) ≡ true
unfolding contains translate_each
translate-contains x [] h = ground (arith, h)
translate-contains x (y ∷ ys) h = elim (Bool-cases (y == x)) [
  | inl e ↦ rw (same_id y x e, same_test (translate_id x)) refl
  | inr e ↦ ground (arith, translate-contains x ys, h, e)
]

translate-knows :
    (x : ℕ) (cs : List Cleared)
    → knows_layer cs x ≡ true
    → knows_layer (map translate_cleared cs) (translate_id x) ≡ true
unfolding translate_cleared
translate-knows x [] h = ground (arith, h)
translate-knows x (c ∷ cs) h =
    ground (arith, translate-contains x c.layers, translate-knows x cs, h)

none_left : (xs : List ℕ) → ((x : ℕ) → contains x xs ≡ false) → xs ≡ []
unfolding contains
none_left [] h = refl
none_left (x ∷ xs) h = ground (arith, h x, same_test x)

module _ {ℓ} {R : Type ℓ} (lib : ComposerResources R) (drm : Drm) where
  unfoldable pub session_step : Client R → SessionCall → Client R × Error
  session_step c (creates_layer display slots) =
      let (c', err, layer) = client_create_layer lib c display slots in (c', err)
  session_step c (destroys_layer display layer) = client_destroy_layer lib c display layer
  session_step c (executes commands) = ((execute_commands lib drm c commands).0, no_error)

  unfoldable pub session : Client R → List SessionCall → Client R
  session c [] = c
  session c (k ∷ ks) = session (session_step c k).0 ks

  -- The resource manager takes every layer that the device makes.
  abbrev pub NoneRefused : Client R → List SessionCall → Type 0
  NoneRefused c [] = Unit {0}
  NoneRefused c (creates_layer display slots ∷ ks) =
      ((is_display display && not (is_ok (session_step c (creates_layer display slots)).1)) ≡ false)
      × NoneRefused (session_step c (creates_layer display slots)).0 ks
  NoneRefused c (destroys_layer display layer ∷ ks) =
      NoneRefused (session_step c (destroys_layer display layer)).0 ks
  NoneRefused c (executes commands ∷ ks) = NoneRefused (session_step c (executes commands)).0 ks

module _ {ℓ} {R : Type ℓ} (lib : ComposerResources R) (laws : LayerLaws lib) where
  session-IsTracked :
      (drm : Drm) (c : Client R) (ks : List SessionCall)
      → NoneRefused lib drm c ks
      → IsTracked lib laws c
      → IsTracked lib laws (session lib drm c ks)
  unfolding session session_step
  session-IsTracked drm c [] n t = t
  session-IsTracked drm c (creates_layer display slots ∷ ks) n t =
      session-IsTracked drm (session_step lib drm c (creates_layer display slots)).0 ks n.1
        (create-IsTracked lib laws c display slots n.0 t)
  session-IsTracked drm c (destroys_layer display layer ∷ ks) n t =
      session-IsTracked drm (session_step lib drm c (destroys_layer display layer)).0 ks n
        (destroy-IsTracked lib laws c display layer t)
  session-IsTracked drm c (executes commands ∷ ks) n t =
      session-IsTracked drm (session_step lib drm c (executes commands)).0 ks n
        (execute-IsTracked lib laws drm c commands t)

  cleared-known :
      (c : Client R) (l : ℕ)
      → IsTracked lib laws c
      → contains l (layers_of c.engine.hal) ≡ true
      → knows_layer (resources_clear lib c.engine.resources).1 l ≡ true
  unfolding resources_clear
  cleared-known c l t h =
      let (known, ti) = t.known l h in
      let cs = (lib.clear c.engine.resources).1 in
      let knows : knows_layer (map translate_cleared cs) (translate_id l) ≡ true =
        translate-knows l cs (laws.cleared c.engine.resources l known) in
      rw ti at knows

  -- From a client on a device whose layers, if any, are distinct 64-bit numbers that the resource manager
  -- knows: whatever layers a session made and destroyed, and whatever command lists it executed between,
  -- as long as the manager, which keeps its promises and has no other displays than the device, refused
  -- none of the layers, destroyResources leaves the device without layers.
  pub session-leaves_no_layers :
      (drm : Drm) (c : Client R) (ks : List SessionCall)
      → IsTracked lib laws c
      → NoneRefused lib drm c ks
      → AreDisplays (resources_clear lib (session lib drm c ks).engine.resources).1
      → layers_of (destroy_resources lib drm (session lib drm c ks)).engine.hal ≡ []
  session-leaves_no_layers drm c ks t n es =
      let c' = session lib drm c ks in
      let t' = session-IsTracked drm c ks n t in
      none_left (layers_of (destroy_resources lib drm c').engine.hal) (λ l.
        elim (Bool-cases (contains l (layers_of c'.engine.hal))) [
          | inl h ↦
              rw (destroy_resources-layers lib drm c' l es t'.distinct, cleared-known c' l t' h)
                refl
          | inr h ↦ rw (destroy_resources-layers lib drm c' l es t'.distinct, h) (and_false _)
        ])

module _ {ℓ} {R : Type ℓ} (lib : ComposerResources R) where
  created_layers :
      (c : Client R) (display slots : ℕ)
      → is_display display ≡ true
      → let id = (c.engine.hal.device.next_layer_id + 1) % 2 ^ 64 in
        let (c', error, layer) = client_create_layer lib c display slots in
        (layer ≡ some id) × (layers_of c'.engine.hal ≡ insert id (layers_of c.engine.hal))
  unfolding client_create_layer add_created hal_create_layer create_layer add_layer
  created_layers c display slots e = rw e (refl, refl)

  -- A layer that the device made is given to the framework, error or not. Where the resource manager
  -- does not know it, as after a refusal, destroyResources leaves it in the device, on displays that
  -- there are and with layers that are distinct.
  pub unknown_layer_stays :
      (drm : Drm) (c : Client R) (display slots id : ℕ)
      → let (c', error, layer) = client_create_layer lib c display slots in
        layer ≡ some id
        → is_display display ≡ true
        → Distinct (layers_of c.engine.hal)
        → AreDisplays (resources_clear lib c'.engine.resources).1
        → knows_layer (resources_clear lib c'.engine.resources).1 id ≡ false
        → contains id (layers_of (destroy_resources lib drm c').engine.hal) ≡ true
  unknown_layer_stays drm c display slots id made e d es k =
      let id' = (c.engine.hal.device.next_layer_id + 1) % 2 ^ 64 in
      let layers = layers_of c.engine.hal in
      let c' = (client_create_layer lib c display slots).0 in
      let (new, grown) = created_layers c display slots e in
      let same : id' ≡ id = ground (arith, made, new) in
      let there : contains id (layers_of c'.engine.hal) ≡ true =
        rw (grown, contains-insert id' id layers, same, same_test id) refl in
      let d' : Distinct (layers_of c'.engine.hal) = rw grown (Distinct-insert id' layers d) in
      rw (destroy_resources-layers lib drm c' id es d', k, there) refl
