-- ===== src/Gralloc/Module.antt =====
-- The gralloc module of the older interface: gralloc/gralloc_rpi.cpp and gralloc/gbm_module.cpp. The
-- mutex around each call is not modelled: the calls here do not overlap.
pub mod Temporary
use hardware_arpi.Base.{
  ℕ, Bool, true, false, not, Option, none, some, ◌==◌, if◌then◌else◌, bit_and, bit_or,
}
use hardware_arpi.Base.Int.{ℤ, pos, is_zero}
use hardware_arpi.Platform.{einval, sign_extend, cpu_read_often, cpu_write_often}
use hardware_arpi.Gralloc.Buffers.{Gralloc, NewBo, ImportData, gbm_register, gbm_unregister}
use hardware_arpi.Gralloc.Lock.{Outcome, returns, faults, BoMapper, gbm_unlock}
use hardware_arpi.Gralloc.Ycbcr.{Ycbcr, gbm_lock_ycbcr}

-- `gbm_module_t` with the buffer that `lock_ycbcr` registered itself, 0 for none.
pub record Module : Type 0 where
  pub gralloc : Gralloc
  pub opened : Bool
  pub rhandle : ℕ

-- The bits of PRODUCER_MASK and CONSUMER_MASK, by the values of gralloc1.h.
abbrev pub producer_mask : ℕ
producer_mask = 0xc24222

abbrev pub consumer_mask : ℕ
consumer_mask = 0x1159902

-- GRALLOC_USAGE_SW_READ_OFTEN and GRALLOC_USAGE_SW_WRITE_OFTEN.
abbrev pub sw_read_often : ℕ
sw_read_often = 0x3

abbrev pub sw_write_often : ℕ
sw_write_often = 0x30

-- `usage` is the bit pattern of an int32_t; the producer's usage and the consumer's.
unfoldable pub convert_usage : ℕ → ℕ × ℕ
convert_usage usage =
    let wide = sign_extend usage in
    let reads = bit_and usage sw_read_often == sw_read_often in
    let writes = bit_and usage sw_write_often == sw_write_often in
    let producer = bit_and wide producer_mask in
    let consumer = bit_and wide consumer_mask in
    let producer' = if reads then bit_or producer cpu_read_often else producer in
    (
      if writes then bit_or producer' cpu_write_often else producer',
      if reads then bit_or consumer cpu_read_often else consumer,
    )

-- `ready` is whether gbm_init succeeds.
unfoldable pub gbm_mod_init : Bool → Module → Module × ℤ
gbm_mod_init ready m =
    if m.opened
    then (m, pos 0)
    else if ready
    then (record m { opened = true }, pos 0)
    else (m, einval)

-- `gbm_mod_register` once the module is open or not.
unfoldable pub register_opened : (ImportData → Option NewBo) → ℕ → Module × ℤ → Module × ℤ
register_opened bo_import h (m, ret) =
    let (g, ret') = gbm_register bo_import m.gralloc h in
    if is_zero ret then (record m { gralloc = g }, ret') else (m, ret)

unfoldable pub gbm_mod_register : Bool → (ImportData → Option NewBo) → Module → ℕ → Module × ℤ
unfolding gbm_mod_init register_opened
gbm_mod_register ready bo_import m h = register_opened bo_import h (gbm_mod_init ready m)

-- A buffer that is registered here is remembered.
unfoldable pub remember : ℕ → Module × ℤ → Module
remember h (m, ret) = if is_zero ret then record m { rhandle = h } else m

unfoldable pub lock_remembered :
    BoMapper → Module → ℕ → ℕ → ℤ → ℤ → ℤ → ℤ → Module × ℤ × Option Ycbcr
unfolding convert_usage
lock_remembered bo_map m h usage x y w hgt =
    let (producer, consumer) = convert_usage usage in
    let (g, err, layout) = gbm_lock_ycbcr bo_map m.gralloc h (bit_or producer consumer) x y w hgt in
    (record m { gralloc = g }, err, layout)

unfoldable pub lock_ycbcr :
    Bool
    → (ImportData → Option NewBo)
    → BoMapper
    → Module
    → ℕ
    → ℕ
    → ℤ
    → ℤ
    → ℤ
    → ℤ
    → Module × ℤ × Option Ycbcr
unfolding remember lock_remembered
lock_ycbcr ready bo_import bo_map m h usage x y w hgt =
    lock_remembered bo_map (remember h (gbm_mod_register ready bo_import m h)) h usage x y w hgt

-- The module's `unlock` with the result of gbm_unlock.
unfoldable pub after_unlock : Module → ℕ → Outcome (Gralloc × ℤ) → Outcome (Module × ℤ)
after_unlock m h faults = faults
after_unlock m h (returns (g, ret)) =
    if not (is_zero ret)
    then returns (record m { gralloc = g }, ret)
    else if m.rhandle == h
    then returns (record m { gralloc = (gbm_unregister g h).0; rhandle = 0 }, pos 0)
    else returns (record m { gralloc = g }, pos 0)

unfoldable pub module_unlock : Module → ℕ → Outcome (Module × ℤ)
unfolding after_unlock
module_unlock m h =
    if not m.opened then returns (m, einval) else after_unlock m h (gbm_unlock m.gralloc h)
