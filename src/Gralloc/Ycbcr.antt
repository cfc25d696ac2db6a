-- ===== src/Gralloc/Ycbcr.antt =====
-- gbm_lock_ycbcr of graphics/common/gbm_gralloc.cpp. An address is a number that does not wrap; a
-- product of 32-bit numbers wraps as it does in C.
pub mod Refused
use hardware_arpi.Base.{
  ℕ, ◌+◌, ◌-◌, ◌*◌, ◌/◌, ◌%◌, ◌^◌, ◌≡◌, Option, none, some, arith, if◌then◌else◌,
}
use hardware_arpi.Base.Int.{ℤ, pos, half, is_zero}
use hardware_arpi.Platform.{
  PixelFormat, yv12, ycbcr_420_888, implementation_defined, ycrcb_420_sp, einval, to_int, to_u32,
}
use hardware_arpi.Gralloc.Buffers.{Gralloc}
use hardware_arpi.Gralloc.Lock.{BoMapper, gbm_lock}

-- `struct android_ycbcr`, less its reserved words.
pub record Ycbcr : Type 0 where
  pub y : ℕ
  pub cb : ℕ
  pub cr : ℕ
  pub ystride : ℕ
  pub cstride : ℕ
  pub chroma_step : ℕ

abbrev pub mul32 : ℕ → ℕ → ℕ
mul32 a b = a * b % 2 ^ 32

-- `GRALLOC_ALIGN(value, 16)` of an unsigned value: `& ~15` clears the four low bits.
unfoldable pub align16 : ℕ → ℕ
align16 v = let x = (v + 15) % 2 ^ 32 in x - x % 16

-- The two interleaved layouts, and the planar one, whose strides are computed as ints.
semi_planar : ℕ → ℕ → ℕ → ℕ → ℕ → Ycbcr
unfolding align16
semi_planar addr width height cb_at cr_at = record {
  y = addr;
  cb = addr + mul32 (align16 width) height + cb_at;
  cr = addr + mul32 (align16 width) height + cr_at;
  ystride = align16 width;
  cstride = align16 width;
  chroma_step = 2;
}

planar : ℕ → ℕ → ℕ → Ycbcr
unfolding align16
planar addr width height =
    let cstride = align16 (to_u32 (half (to_int width))) in
    record {
      y = addr;
      cr = addr + mul32 width height;
      cb = addr + mul32 width height + mul32 cstride height / 2;
      ystride = width;
      cstride = cstride;
      chroma_step = 1;
    }

-- The switch on the format; none for its default.
unfoldable pub ycbcr_layout : PixelFormat → ℕ → ℕ → ℕ → Option Ycbcr
unfolding semi_planar planar
ycbcr_layout ycbcr_420_888 addr w h = some (semi_planar addr w h 0 1)
ycbcr_layout implementation_defined addr w h = some (semi_planar addr w h 0 1)
ycbcr_layout ycrcb_420_sp addr w h = some (semi_planar addr w h 1 0)
ycbcr_layout yv12 addr w h = some (planar addr w h)
ycbcr_layout _ addr w h = none

abbrev pub address_or_null : Option ℕ → ℕ
address_or_null none = 0
address_or_null (some a) = a

-- After a lock that succeeded; the buffer stays locked where the format is refused.
finish_ycbcr : Gralloc → Option Ycbcr → Gralloc × ℤ × Option Ycbcr
finish_ycbcr g none = (g, einval, none)
finish_ycbcr g (some l) = (g, pos 0, some l)

unfoldable pub gbm_lock_ycbcr :
    BoMapper → Gralloc → ℕ → ℕ → ℤ → ℤ → ℤ → ℤ → Gralloc × ℤ × Option Ycbcr
unfolding finish_ycbcr ycbcr_layout
gbm_lock_ycbcr bo_map g h usage x y w hgt =
    let (g', err, addr) = gbm_lock bo_map g h usage x y w hgt in
    let hnd = g.memory h in
    if is_zero err
    then finish_ycbcr g' (ycbcr_layout hnd.format (address_or_null addr) hnd.width hnd.height)
    else (g', err, none)
