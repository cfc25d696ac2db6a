-- ===== src/Gralloc/Lock.antt =====
-- CPU access: gbm_map, gbm_unmap, gbm_lock and gbm_unlock of graphics/common/gbm_gralloc.cpp.
-- `gbm_bo_map` is an argument: from the object and the request to the address and the map data that
-- it returns, or none where it returns NULL; it then leaves the map data alone. The lock count is a
-- number that does not wrap.
pub mod Bytes
pub mod Session
pub mod Faults
use hardware_arpi.Base.{
  ℕ, ◌+◌, ◌-◌, ◌%◌, ◌^◌, Bool, true, false, ◌&&◌, ◌||◌, not, ◌≡◌, refl, inl, inr, Bool-cases,
  Option, none, some, ◌==◌, bit_and, bit_or, if◌then◌else◌,
}
use hardware_arpi.Base.Int.{ℤ, pos, half, is_zero, ◌+ℤ◌}
use hardware_arpi.Platform.{
  PixelFormat, yv12, einval, enomem, to_int, to_u32, sign_extend, cpu_read_often, cpu_write,
  cpu_write_often, cpu_access, client_target, gpu_texture,
}
use hardware_arpi.Gralloc.Buffers.Map.{find}
use hardware_arpi.Gralloc.Buffers.{
  PrivateHandle, BoData, Gralloc, update, bo_from_handle, bo_from_handle_known,
}

-- A call that reads through a null pointer has no result.
pub data Outcome {ℓ} (A : Type ℓ) : Type ℓ where
  returns : A → Outcome A
  faults : Outcome A

pub record MapRequest : Type 0 where
  pub map_width : ℕ
  pub map_height : ℕ
  pub writable : Bool

abbrev pub BoMapper : Type 0
BoMapper = ℕ → MapRequest → Option (ℕ × ℕ)

-- `new struct bo_data_t()`.
abbrev pub fresh_data : BoData
fresh_data = record { map_data = none; lock_count = 0; locked_for = 0 }

abbrev pub data_or_fresh : Option BoData → BoData
data_or_fresh none = fresh_data
data_or_fresh (some d) = d

unfoldable pub set_data : Gralloc → ℕ → BoData → Gralloc
set_data g bo d = record g { user_data = update g.user_data bo (some d) }

is_yv12 : PixelFormat → Bool
is_yv12 yv12 = true
is_yv12 _ = false

-- The size that `gbm_map` asks for; the pixels of YV12 are pairs of bytes.
map_request : PixelFormat → ℤ → ℤ → ℤ → ℤ → Bool → MapRequest
unfolding is_yv12
map_request f x y w h write = record {
  map_width = to_u32 (x +ℤ (if is_yv12 f then half w else w));
  map_height = to_u32 (y +ℤ (if is_yv12 f then h +ℤ half h else h));
  writable = write;
}

-- `mapped` is what `gbm_bo_map` returns where it is called. The data, the status and the address.
gbm_map : Option (ℕ × ℕ) → BoData → BoData × ℤ × Option ℕ
gbm_map mapped d = elim d.map_data [
  | some _ ↦ (d, einval, none)
  | none ↦ elim mapped [
    | none ↦ (d, enomem, none)
    | some (address, token) ↦ (record d { map_data = some token }, pos 0, some address)
  ]
]

unfoldable pub is_allowed : ℕ → ℕ → Bool
is_allowed granted usage =
    bit_and granted usage == usage
    || not (bit_and granted cpu_read_often == 0)
    || not (bit_and granted client_target == 0)
    || not (bit_and granted gpu_texture == 0)

-- A rectangle of size 0 stands for the whole buffer.
crop : PrivateHandle → ℤ → ℤ → ℤ × ℤ
crop hnd w h = if is_zero w && is_zero h then (to_int hnd.width, to_int hnd.height) else (w, h)

-- `bo_data->lock_count++; bo_data->locked_for |= usage;`, where the object is locked for `held`.
unfoldable pub count_lock : ℕ → ℕ → BoData → BoData
count_lock held usage d = record d {
  lock_count = d.lock_count + 1;
  locked_for = bit_or held usage % 2 ^ 32;
}

-- "allow multiple locks with compatible usages"
unfoldable pub is_compatible : BoData → ℕ → ℕ → Bool
is_compatible d held asked = d.lock_count == 0 || bit_and held asked == asked

-- The part of `gbm_lock` that works on the object's data; `held` is what the object is locked for.
pub lock_data : Option (ℕ × ℕ) → BoData → ℕ → ℕ → BoData × ℤ × Option ℕ
unfolding gbm_map
lock_data mapped d held asked =
    let usage = bit_or asked held in
    let (d', err, addr) = gbm_map mapped d in
    if not (is_compatible d held asked)
    then (d, einval, none)
    else if bit_and usage cpu_access == 0
    then (count_lock held usage d, pos 0, none)
    else if is_zero err
    then (count_lock held usage d', pos 0, addr)
    else (d', err, none)

-- Where a lock fails, where it succeeds without a mapping, and where with one.
pub lock_data_cases {ℓ} :
    (P : BoData × ℤ × Option ℕ → Type ℓ) (mapped : Option (ℕ × ℕ)) (d : BoData) (held asked : ℕ)
    → ((err : ℤ) → is_zero err ≡ false → P (d, err, none))
    → (is_compatible d held asked ≡ true
        → (bit_and (bit_or asked held) cpu_access == 0) ≡ true
        → P (count_lock held (bit_or asked held) d, pos 0, none))
    → ((address token : ℕ)
        → is_compatible d held asked ≡ true
        → (bit_and (bit_or asked held) cpu_access == 0) ≡ false
        → d.map_data ≡ none
        → mapped ≡ some (address, token)
        → P (
          count_lock held (bit_or asked held) (record d { map_data = some token }),
          pos 0,
          some address,
        ))
    → P (lock_data mapped d held asked)
unfolding lock_data
lock_data_cases P mapped d held asked refused plain cpu =
    elim (Bool-cases (is_compatible d held asked)) [
      | inr e ↦ rw e (refused einval refl)
      | inl e ↦ elim (Bool-cases (bit_and (bit_or asked held) cpu_access == 0)) [
        | inl f ↦ rw (e, f) (plain e f)
        | inr f ↦ rw (e, f) (by_map d.map_data mapped refl refl e f)
      ]
    ]
  where
    by_map :
        (m : Option ℕ) (o : Option (ℕ × ℕ))
        → d.map_data ≡ m
        → mapped ≡ o
        → is_compatible d held asked ≡ true
        → (bit_and (bit_or asked held) cpu_access == 0) ≡ false
        → P (
            if is_zero (gbm_map mapped d).1
            then (
              count_lock held (bit_or asked held) (gbm_map mapped d).0,
              pos 0,
              (gbm_map mapped d).2,
            )
            else ((gbm_map mapped d).0, (gbm_map mapped d).1, none))
    by_map (some t) o p q e f = rw (p, gbm_map) (refused einval refl)
    by_map none none p q e f = rw (p, q, gbm_map) (refused enomem refl)
    by_map none (some (a, t)) p q e f = rw (p, q, gbm_map) (cpu a t e f p q)

-- The request that `gbm_lock` hands to `gbm_bo_map`.
lock_request : PrivateHandle → ℕ → ℤ → ℤ → ℤ → ℤ → MapRequest
unfolding map_request crop
lock_request hnd usage x y w h =
    let (w', h') = crop hnd w h in
    map_request hnd.format x y w' h' (not (bit_and usage (bit_or cpu_write cpu_write_often) == 0))

lock_bo : BoMapper → Gralloc → ℕ → ℕ → ℕ → ℤ → ℤ → ℤ → ℤ → Gralloc × ℤ × Option ℕ
unfolding lock_data lock_request set_data
lock_bo bo_map g h bo asked x y w hgt =
    let hnd = g.memory h in
    let d = data_or_fresh (g.user_data bo) in
    let held = sign_extend d.locked_for in
    let mapped = bo_map bo (lock_request hnd (bit_or asked held) x y w hgt) in
    let (d', err, addr) = lock_data mapped d held asked in
    if is_allowed hnd.usage asked then (set_data g bo d', err, addr) else (g, einval, none)

-- `gbm_lock` once the handle is looked up.
lock_found : BoMapper → Gralloc × Option ℕ → ℕ → ℕ → ℤ → ℤ → ℤ → ℤ → Gralloc × ℤ × Option ℕ
unfolding lock_bo
lock_found bo_map (g, none) h usage x y w hgt = (g, einval, none)
lock_found bo_map (g, some bo) h usage x y w hgt = lock_bo bo_map g h bo usage x y w hgt

-- The third part is what `*addr` is set to, if anything.
unfoldable pub gbm_lock : BoMapper → Gralloc → ℕ → ℕ → ℤ → ℤ → ℤ → ℤ → Gralloc × ℤ × Option ℕ
unfolding bo_from_handle lock_found is_allowed
gbm_lock bo_map g h = lock_found bo_map (bo_from_handle g h) h

-- What `gbm_lock` does on an object that the handle's entry names, where the buffer's usage does not
-- allow the one asked for and where it does.
pub lock_allowed_cases {ℓ} :
    (P : Gralloc × ℤ × Option ℕ → Type ℓ) (bo_map : BoMapper) (g : Gralloc) (h bo u : ℕ)
    (x y w hgt : ℤ)
    → find h g.handle_map ≡ some (some bo)
    → (is_allowed (g.memory h).usage u ≡ false → P (g, einval, none))
    → (is_allowed (g.memory h).usage u ≡ true
        → (mapped : Option (ℕ × ℕ))
        → let d = data_or_fresh (g.user_data bo) in
          let r = lock_data mapped d (sign_extend d.locked_for) u in
          P (set_data g bo r.0, r.1, r.2))
    → P (gbm_lock bo_map g h u x y w hgt)
unfolding gbm_lock
lock_allowed_cases P bo_map g h bo u x y w hgt known refused tried =
    rw (bo_from_handle_known g h (some bo) known)
      (elim (Bool-cases (is_allowed (g.memory h).usage u)) [
        | inl e ↦ rw e (tried e _)
        | inr e ↦ rw e (refused e)
      ])

-- The same without the usages.
pub lock_cases {ℓ} :
    (P : Gralloc × ℤ × Option ℕ → Type ℓ) (bo_map : BoMapper) (g : Gralloc) (h bo u : ℕ)
    (x y w hgt : ℤ)
    → find h g.handle_map ≡ some (some bo)
    → P (g, einval, none)
    → ((mapped : Option (ℕ × ℕ))
        → let d = data_or_fresh (g.user_data bo) in
          let r = lock_data mapped d (sign_extend d.locked_for) u in
          P (set_data g bo r.0, r.1, r.2))
    → P (gbm_lock bo_map g h u x y w hgt)
lock_cases P bo_map g h bo u x y w hgt known refused tried =
    lock_allowed_cases P bo_map g h bo u x y w hgt known (λ e. refused) (λ e. tried)

-- `gbm_unlock` once it has the object's data.
unfoldable pub unlock_data : BoData → BoData
unlock_data d = if d.lock_count == 0 then d else record d {
  map_data = if bit_and d.locked_for cpu_access == 0 then d.map_data else none;
  lock_count = d.lock_count - 1;
  locked_for = if d.lock_count - 1 == 0 then 0 else d.locked_for;
}

-- The data is read before anything tests that it is there.
unfoldable pub unlock_bo : Gralloc → ℕ → Outcome (Gralloc × ℤ)
unfolding unlock_data set_data
unlock_bo g bo = elim (g.user_data bo) [
  | none ↦ faults
  | some d ↦ returns (set_data g bo (unlock_data d), pos 0)
]

unlock_found : Gralloc × Option ℕ → Outcome (Gralloc × ℤ)
unfolding unlock_bo
unlock_found (g, none) = returns (g, einval)
unlock_found (g, some bo) = unlock_bo g bo

unfoldable pub gbm_unlock : Gralloc → ℕ → Outcome (Gralloc × ℤ)
unfolding bo_from_handle unlock_found
gbm_unlock g h = unlock_found (bo_from_handle g h)
