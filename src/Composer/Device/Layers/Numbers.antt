-- ===== src/Composer/Device/Layers/Numbers.antt =====
-- The numbers of the layers of Hwc2Device.
use hardware_arpi.Base.{ℕ, ◌≡◌, refl, true, false, List, arith, ◌≤◌, ◌<◌, ◌+◌, ◌^◌, ◌%◌, some}
use hardware_arpi.Base.Ids.{contains, insert, erase, contains-insert}
use hardware_arpi.Composer.Error.{is_display, no_error}
use hardware_arpi.Composer.Device.{Device, create_layer, destroy_layer, add_layer, remove_layer}
use hardware_arpi.Composer.Device.Layers.{IsValid}

erase-insert : (x : ℕ) (xs : List ℕ) → contains x xs ≡ false → erase x (insert x xs) ≡ xs
unfolding erase insert
erase-insert x xs e = rw e (ground arith)

same_id : (n : ℕ) → n + 1 < 2 ^ 64 → (n + 1) % 2 ^ 64 ≡ n + 1
same_id n small = omega (arith, small)

unused :
    (n : ℕ) (xs : List ℕ) → ((x : ℕ) → contains x xs ≡ true → x ≤ n) → contains (n + 1) xs ≡ false
unused n xs numbered = ground (arith, numbered (n + 1))

contains-insert_same : (x : ℕ) (xs : List ℕ) → contains x (insert x xs) ≡ true
contains-insert_same x xs = ground (arith, contains-insert x x xs)

-- While fewer than 2^64 layers have been made and each layer's number is one of those given, a new
-- layer's number is no layer's, the layer is dirty, and destroying it succeeds and gives back the
-- sets of before.
pub create_layer-destroy :
    (d : Device) (display : ℕ)
    → IsValid d
    → ((x : ℕ) → contains x d.layers ≡ true → x ≤ d.next_layer_id)
    → d.next_layer_id + 1 < 2 ^ 64
    → is_display display ≡ true
    → let (d', error, made) = create_layer d display in
      let id = d.next_layer_id + 1 in
      let (d'', error') = destroy_layer d' display id in
      (error ≡ no_error)
      × (made ≡ some id)
      × (contains id d.layers ≡ false)
      × (contains id d'.dirty_layers ≡ true)
      × (error' ≡ no_error)
      × (d''.layers ≡ d.layers)
      × (d''.dirty_layers ≡ d.dirty_layers)
unfolding create_layer destroy_layer add_layer remove_layer
create_layer-destroy d display v numbered small e =
    let n = d.next_layer_id in
    let new = unused n d.layers numbered in
    let clean = unused n d.dirty_layers (λ x c. numbered x (v.within x c)) in
    rw
      (
        e,
        same_id n small,
        new,
        contains-insert_same (n + 1) d.layers,
        contains-insert_same (n + 1) d.dirty_layers,
        erase-insert (n + 1) d.layers new,
        erase-insert (n + 1) d.dirty_layers clean,
      )
      (refl, refl, refl, refl, refl, refl, refl)
