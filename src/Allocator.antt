-- ===== src/Allocator.antt =====
-- The allocator service, graphics/allocator/aidl/Allocator.cpp. gralloc4's decoding and the making of
-- the handles for the reply are not part of the state.
pub mod Owned
pub mod Ownership
use hardware_arpi.Base.{
  ℕ, ◌-◌, ◌^◌, Bool, true, false, not, List, [], ◌∷◌, ◌++◌, Option, none, some, ◌==◌, if◌then◌else◌,
  bit_and, bit_or,
}
use hardware_arpi.Base.Int.{ℤ, pos, negsuc, is_zero}
use hardware_arpi.Platform.{PixelFormat, cpu_read, cpu_read_often, cpu_write, cpu_write_often}
use hardware_arpi.Gralloc.Buffers.{Gralloc, NewBo, CreateRequest, gbm_alloc, gbm_free}

-- Masks and values of BufferUsage.
abbrev pub read_mask : ℕ
read_mask = 0xf

abbrev pub write_mask : ℕ
write_mask = 0xf0

abbrev pub gpu_data_buffer : ℕ
gpu_data_buffer = 0x1000000

abbrev pub sensor_direct_data : ℕ
sensor_direct_data = 0x800000

-- `usage & ~mask` on 64 bits.
abbrev pub without : ℕ → ℕ → ℕ
without usage mask = bit_and usage (2 ^ 64 - 1 - mask)

-- What the value of the CPU bits adds: the rare access, the frequent one, or nothing.
abbrev add_access : ℕ → ℕ → ℕ → ℕ → ℕ → ℕ → ℕ
add_access value rarely often rare_bits often_bits usage =
    if value == rarely
    then bit_or usage rare_bits
    else if value == often
    then bit_or usage often_bits
    else usage

unfoldable pub to_producer_usage : ℕ → ℕ
to_producer_usage usage = add_access (bit_and usage read_mask) 2 3 cpu_read cpu_read_often (
    add_access (bit_and usage write_mask) 0x20 0x30 cpu_write cpu_write_often
      (without usage (bit_or read_mask (bit_or write_mask gpu_data_buffer))))

unfoldable pub to_consumer_usage : ℕ → ℕ
to_consumer_usage usage =
    let kept =
      without usage
        (bit_or read_mask (bit_or write_mask (bit_or sensor_direct_data gpu_data_buffer))) in
    let read = add_access (bit_and usage read_mask) 2 3 cpu_read cpu_read_often kept in
    if bit_and usage gpu_data_buffer == 0 then read else bit_or read gpu_data_buffer

pub record BufferDescriptor : Type 0 where
  pub width : ℕ
  pub height : ℕ
  pub format : PixelFormat
  pub usage : ℕ

-- What the system answers during one allocation: the address of the new handle, libgbm's object, and
-- the error number that is there where it makes none.
pub record Answer : Type 0 where
  pub address : ℕ
  pub errno : ℕ
  pub bo_new : CreateRequest → Option NewBo

-- The status, the handle and the stride.
unfoldable pub allocate_one_buffer :
    Gralloc → BufferDescriptor → Answer → Gralloc × ℤ × Option (ℕ × ℕ)
unfolding to_producer_usage to_consumer_usage
allocate_one_buffer g d a =
    gbm_alloc a.bo_new a.errno g a.address d.width d.height d.format
      (bit_or (to_producer_usage d.usage) (to_consumer_usage d.usage))

unfoldable pub free_buffers : Gralloc → List ℕ → Gralloc
free_buffers g [] = g
free_buffers g (h ∷ hs) = free_buffers (gbm_free g h) hs

-- `STATUS_UNKNOWN_ERROR`, INT32_MIN.
abbrev pub unknown_error : ℤ
unknown_error = negsuc (2 ^ 31 - 1)

-- The rest of the loop, from the state, the stride and the buffers so far. The status, with the
-- stride and the buffers of the reply.
abbrev pub Rest : Type 0
Rest = Gralloc → ℕ → List ℕ → Gralloc × ℤ × Option (ℕ × List ℕ)

-- What `allocateOneBuffer` writes with a status of 0: where `gbm_alloc` made no handle and left 0, the
-- handle is null and the stride 0.
abbrev pub buffer_of : Option (ℕ × ℕ) → ℕ × ℕ
buffer_of none = (0, 0)
buffer_of (some made) = made

-- An iteration with the answer of `allocateOneBuffer`.
unfoldable pub allocated_one :
    Gralloc × ℤ × Option (ℕ × ℕ) → ℕ → List ℕ → Rest → Gralloc × ℤ × Option (ℕ × List ℕ)
allocated_one (g, err, made) stride buffers rest =
    let (h, s) = buffer_of made in
    if not (is_zero err)
    then (free_buffers g buffers, err, none)
    else if stride == 0
    then rest g s (buffers ++ h ∷ [])
    else if stride == s
    then rest g stride (buffers ++ h ∷ [])
    else (free_buffers g (buffers ++ h ∷ []), unknown_error, none)

-- One iteration for each answer.
unfoldable pub allocate_loop : BufferDescriptor → List Answer → Rest
unfolding allocated_one
allocate_loop d [] g stride buffers = (free_buffers g buffers, pos 0, some (stride, buffers))
allocate_loop d (a ∷ answers) g stride buffers =
    allocated_one (allocate_one_buffer g d a) stride buffers (allocate_loop d answers)

-- With the status of the decoding and the descriptor; none where it fails.
unfoldable pub allocate :
    Gralloc → ℤ × BufferDescriptor → List Answer → Gralloc × ℤ × Option (ℕ × List ℕ)
allocate g (ret, d) answers = if is_zero ret then allocate_loop d answers g 0 [] else (g, ret, none)
