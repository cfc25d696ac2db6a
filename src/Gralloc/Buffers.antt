-- ===== src/Gralloc/Buffers.antt =====
-- The map from handles to buffer objects of graphics/common/gbm_gralloc.cpp, and the operations that
-- create, import and free them. libgbm is not part of the repository: a call of it that makes a
-- buffer object is an argument, a function from the request to the object that the call returns, or
-- none for NULL.
pub mod Map
pub mod Ownership
use hardware_arpi.Base.{
  ℕ, ◌+◌, ◌-◌, ◌/◌, ◌%◌, ◌^◌, Bool, true, false, Option, none, some, List, [], ◌∷◌, ◌==◌,
  if◌then◌else◌, ◌≡◌, arith,
}
use hardware_arpi.Base.Int.{ℤ, pos, negsuc, half, is_negative, sub_ℕ}
use hardware_arpi.Platform.{PixelFormat, yv12, einval, to_int, to_u32}
use hardware_arpi.Gralloc.Format.{GbmFormat, get_gbm_format, get_bpp, get_pipe_bind}
use Map.{BoMap, find, emplace, erase}

-- `struct private_handle_t`, without the header fields that only `validate` reads.
pub record PrivateHandle : Type 0 where
  pub fd : ℤ
  pub width : ℕ
  pub height : ℕ
  pub format : PixelFormat
  pub stride : ℕ
  pub usage : ℕ

-- `struct bo_data_t`; `locked_for` is the bit pattern of an int.
pub record BoData : Type 0 where
  pub map_data : Option ℕ
  pub lock_count : ℕ
  pub locked_for : ℕ

-- The library's state: what the handles point to, `gbm_bo_handle_map`, and libgbm's objects with the
-- user data attached to each. An address is a number, and a null handle is 0.
pub record Gralloc : Type 0 where
  pub memory : ℕ → PrivateHandle
  pub handle_map : BoMap
  pub live : List ℕ
  pub user_data : ℕ → Option BoData

-- An object that libgbm returns.
pub record NewBo : Type 0 where
  pub address : ℕ
  pub bo_fd : ℤ
  pub bo_stride : ℕ

pub record ImportData : Type 0 where
  pub import_width : ℕ
  pub import_height : ℕ
  pub import_format : GbmFormat
  pub import_fd : ℤ
  pub import_stride : ℕ

-- An update of one place of a memory.
abbrev pub update {ℓ} : {A : Type ℓ} → (ℕ → A) → ℕ → A → ℕ → A
update f p v q = if p == q then v else f q

is_yv12 : PixelFormat → Bool
is_yv12 yv12 = true
is_yv12 _ = false

import_data : PrivateHandle → ImportData
unfolding is_yv12
import_data hnd = record {
  import_width = if is_yv12 hnd.format then hnd.width / 2 else hnd.width;
  import_height = if is_yv12 hnd.format then (hnd.height + hnd.height / 2) % 2 ^ 32 else hnd.height;
  import_format = get_gbm_format hnd.format;
  import_fd = hnd.fd;
  import_stride = hnd.stride;
}

gbm_import : (ImportData → Option NewBo) → PrivateHandle → Option NewBo
unfolding import_data
gbm_import bo_import hnd = if is_negative hnd.fd then none else bo_import (import_data hnd)

-- What `gbm_bo_create` is asked for.
pub record CreateRequest : Type 0 where
  pub bo_width : ℕ
  pub bo_height : ℕ
  pub bo_format : GbmFormat
  pub bo_usage : ℕ

-- The width is halved as an int, and the height grows as an unsigned number.
create_request : PrivateHandle → CreateRequest
unfolding is_yv12
create_request hnd = record {
  bo_width = if is_yv12 hnd.format then to_u32 (half (to_int hnd.width)) else hnd.width;
  bo_height = if is_yv12 hnd.format then (hnd.height + hnd.height / 2) % 2 ^ 32 else hnd.height;
  bo_format = get_gbm_format hnd.format;
  bo_usage = get_pipe_bind hnd.usage;
}

-- `gbm_bo_handle_map[handle]`: a key that is missing is inserted, with a null object.
unfoldable pub bo_from_handle : Gralloc → ℕ → Gralloc × Option ℕ
bo_from_handle g h = elim (find h g.handle_map) [
  | some bo ↦ (g, bo)
  | none ↦ (record g { handle_map = (h, none) ∷ g.handle_map }, none)
]

pub bo_from_handle_known :
    (g : Gralloc) (h : ℕ) (bo : Option ℕ)
    → find h g.handle_map ≡ some bo
    → bo_from_handle g h ≡ (g, bo)
unfolding bo_from_handle
bo_from_handle_known g h bo e = ground arith

-- libgbm gives out an object with no user data.
unfoldable pub add_bo : Gralloc → ℕ → NewBo → Gralloc
add_bo g h bo = record g {
  handle_map = emplace h bo.address g.handle_map;
  live = bo.address ∷ g.live;
  user_data = update g.user_data bo.address none;
}

unfoldable pub drop_bo : ℕ → List ℕ → List ℕ
drop_bo bo [] = []
drop_bo bo (b ∷ bs) = if b == bo then bs else b ∷ drop_bo bo bs

-- `gbm_bo_destroy` also hands the user data to `gralloc_gbm_destroy_user_data`, which deletes it.
destroy_bo : Gralloc → ℕ → Gralloc
unfolding drop_bo
destroy_bo g bo = record g { live = drop_bo bo g.live; user_data = update g.user_data bo none }

-- `gbm_free` once the handle is looked up.
free_found : Gralloc × Option ℕ → ℕ → Gralloc
unfolding destroy_bo
free_found (g, none) h = g
free_found (g, some bo) h = destroy_bo (record g { handle_map = erase h g.handle_map }) bo

unfoldable pub gbm_free : Gralloc → ℕ → Gralloc
unfolding free_found bo_from_handle
gbm_free g h = free_found (bo_from_handle g h) h

-- `gbm_register` with the object that `gbm_import` returns.
register_bo : Gralloc → ℕ → Option NewBo → Gralloc × ℤ
unfolding add_bo
register_bo g h none = (g, einval)
register_bo g h (some bo) = (add_bo g h bo, pos 0)

unfoldable pub gbm_register : (ImportData → Option NewBo) → Gralloc → ℕ → Gralloc × ℤ
unfolding gbm_import register_bo
gbm_register bo_import g h = if h == 0 then (g, einval) else elim (find h g.handle_map) [
  | some _ ↦ (g, einval)
  | none ↦ register_bo g h (gbm_import bo_import (g.memory h))
]

unfoldable pub gbm_unregister : Gralloc → ℕ → Gralloc × ℤ
gbm_unregister g h = (gbm_free g h, pos 0)

-- `new private_handle_t(width, height, format, usage)`; the constructor leaves the stride unset, so
-- it keeps what the memory at the new address held.
new_handle : PrivateHandle → ℕ → ℕ → PixelFormat → ℕ → PrivateHandle
new_handle old w h f u = record {
  fd = negsuc 0;
  width = w;
  height = h;
  format = f;
  stride = old.stride;
  usage = u;
}

-- `gralloc_gbm_bo_create` with the object that `gbm_bo_create` returns: the handle and the stride in
-- pixels. The model divides only where `gbm_alloc` has seen a bpp that is not 0.
create_bo : Gralloc → ℕ → PrivateHandle → Option NewBo → Gralloc × Option (ℕ × ℕ)
unfolding add_bo
create_bo g addr hnd none = (record g { memory = update g.memory addr hnd }, none)
create_bo g addr hnd (some bo) =
    let hnd' = record hnd { fd = bo.bo_fd; stride = bo.bo_stride } in
    (
      add_bo (record g { memory = update g.memory addr hnd' }) addr bo,
      some (addr, bo.bo_stride / get_bpp hnd.format),
    )

bo_create :
    (CreateRequest → Option NewBo)
    → Gralloc
    → ℕ
    → ℕ
    → ℕ
    → PixelFormat
    → ℕ
    → Gralloc × Option (ℕ × ℕ)
unfolding create_request new_handle create_bo
bo_create bo_new g addr w h f u =
    let hnd = new_handle (g.memory addr) w h f u in
    create_bo g addr hnd (bo_new (create_request hnd))

-- A null handle gives the error number that was left.
alloc_status : ℕ → Gralloc × Option (ℕ × ℕ) → Gralloc × ℤ × Option (ℕ × ℕ)
alloc_status errno (g, none) = (g, sub_ℕ 0 errno, none)
alloc_status errno (g, some r) = (g, pos 0, some r)

-- `addr` is the address that `new` returns, and `errno` the error number that a failing
-- `gbm_bo_create` leaves. The third part is the handle and the stride.
unfoldable pub gbm_alloc :
    (CreateRequest → Option NewBo)
    → ℕ
    → Gralloc
    → ℕ
    → ℕ
    → ℕ
    → PixelFormat
    → ℕ
    → Gralloc × ℤ × Option (ℕ × ℕ)
unfolding bo_create alloc_status
gbm_alloc bo_new errno g addr w h f u =
    if get_bpp f == 0
    then (g, einval, none)
    else alloc_status errno (bo_create bo_new g addr w h f u)
