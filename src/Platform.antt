-- ===== src/Platform.antt =====
-- What the sources take from the platform's headers: the error numbers, the pixel formats and the
-- usage bits of gralloc1, and the conversions between C's integer types.
use hardware_arpi.Base.{ℕ, ◌+◌, ◌-◌, ◌%◌, ◌^◌, bit_or, ltb, if◌then◌else◌}
use hardware_arpi.Base.Int.{ℤ, pos, negsuc}

-- `-EINVAL`, `-ENOMEM` and the error number EBUSY of Linux.
abbrev pub einval : ℤ
einval = negsuc 21

abbrev pub enomem : ℤ
enomem = negsuc 11

abbrev pub ebusy : ℕ
ebusy = 16

-- The named HAL_PIXEL_FORMAT constants of the sources; a switch takes any other value to its default.
pub data PixelFormat : Type 0 where
  rgba_8888 rgbx_8888 rgb_565 bgra_8888 yv12 ycbcr_420_888 implementation_defined : PixelFormat
  blob ycbcr_422_sp ycbcr_422_i ycrcb_420_sp : PixelFormat
  other : ℕ → PixelFormat

-- The usage bits of gralloc1.h: producer and consumer CPU access share their bits.
abbrev pub cpu_read : ℕ
cpu_read = 0x2

abbrev pub cpu_read_often : ℕ
cpu_read_often = 0x6

abbrev pub cpu_write : ℕ
cpu_write = 0x20

abbrev pub cpu_write_often : ℕ
cpu_write_often = 0x60

-- Every bit of CPU access: the mask for which gbm_lock maps a buffer.
abbrev pub cpu_access : ℕ
cpu_access = bit_or cpu_write (bit_or cpu_write_often (bit_or cpu_read cpu_read_often))

abbrev pub gpu_texture : ℕ
gpu_texture = 0x100

abbrev pub gpu_render_target : ℕ
gpu_render_target = 0x200

abbrev pub hwcomposer : ℕ
hwcomposer = 0x800

abbrev pub client_target : ℕ
client_target = 0x1000

-- A `uint32_t` read as an `int`, and back.
abbrev pub to_int : ℕ → ℤ
to_int n = if ltb n (2 ^ 31) then pos n else negsuc (2 ^ 32 - n - 1)

abbrev pub to_u32 : ℤ → ℕ
to_u32 (pos n) = n % 2 ^ 32
to_u32 (negsuc n) = 2 ^ 32 - 1 - n % 2 ^ 32

-- A 32-bit pattern of an `int`, widened to `uint64_t` with its sign.
abbrev pub sign_extend : ℕ → ℕ
sign_extend w = if ltb w (2 ^ 31) then w else w + (2 ^ 64 - 2 ^ 32)
