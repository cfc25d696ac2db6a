-- ===== src/Mapper/Calls.antt =====
-- The calls of graphics/mapper/4.0/Mapper.cpp on buffers: createDescriptor, importBuffer, freeBuffer,
-- lock, unlock, flushLockedBuffer. What libcutils, gralloc4 and the kernel do is an argument.
pub mod Sessions
use hardware_arpi.Base.{
  ℕ, ◌+◌, ◌-◌, ◌%◌, ◌^◌, Bool, true, false, ◌&&◌, ◌||◌, not, Option, none, some, ◌==◌,
  if◌then◌else◌, bit_and, bit_or, ltb,
}
use hardware_arpi.Base.Int.{ℤ, negsuc, is_zero, is_negative}
use hardware_arpi.Platform.{sign_extend}
use hardware_arpi.Gralloc.Buffers.{
  Gralloc, PrivateHandle, NewBo, ImportData, update, gbm_register, gbm_unregister,
}
use hardware_arpi.Gralloc.Lock.{Outcome, returns, faults, BoMapper, gbm_lock, gbm_unlock}

-- The errors of IMapper 4.0 that the service answers with.
pub data MapperError : Type 0 where
  no_fault bad_value bad_buffer no_resources unsupported : MapperError

abbrev pub is_no_fault : MapperError → Bool
is_no_fault no_fault = true
is_no_fault _ = false

pub record DescriptorInfo : Type 0 where
  pub width : ℕ
  pub height : ℕ
  pub layer_count : ℕ
  pub format : ℕ
  pub usage : ℕ

descriptor_fault : DescriptorInfo → MapperError
descriptor_fault i =
    if i.width == 0 || i.height == 0 || i.layer_count == 0
    then bad_value
    else if not (i.layer_count == 1)
    then unsupported
    else if i.format == 0
    then bad_value
    else no_fault

-- `encode` is encodeBufferDescriptorInfo: its status and what it leaves in the empty descriptor. Usage
-- bits that are not valid are logged only.
unfoldable pub create_descriptor {ℓ} :
    {D : Type ℓ} → D → (DescriptorInfo → ℤ × D) → DescriptorInfo → MapperError × D
unfolding descriptor_fault
create_descriptor empty encode i =
    let (ret, descriptor) = encode i in
    if is_no_fault (descriptor_fault i)
    then if is_zero ret then (no_fault, descriptor) else (bad_value, descriptor)
    else (descriptor_fault i, empty)

-- `importBuffer` once the handle is cloned: the address of the copy, 0 for null.
unfoldable pub import_clone :
    (ImportData → Option NewBo) → Gralloc → Option (ℕ × PrivateHandle) → Gralloc × MapperError × ℕ
import_clone bo_import g none =
    let (g', result) = gbm_register bo_import g 0 in (g', no_resources, 0)
import_clone bo_import g (some (copy, contents)) =
    let g0 : Gralloc = record g { memory = update g.memory copy contents } in
    let (g', result) = gbm_register bo_import g0 copy in
    if is_zero result then (g', no_fault, copy) else (g', no_resources, 0)

-- `clone` is native_handle_clone. A copy that cannot be registered is closed and deleted, which the
-- map of gbm_gralloc does not see.
unfoldable pub import_buffer :
    (PrivateHandle → Option (ℕ × PrivateHandle))
    → (ImportData → Option NewBo)
    → Gralloc
    → ℕ
    → Gralloc × MapperError × ℕ
unfolding import_clone
import_buffer clone bo_import g raw =
    if raw == 0 then (g, bad_buffer, 0) else import_clone bo_import g (clone (g.memory raw))

unfoldable pub free_buffer : Gralloc → ℕ → Gralloc × MapperError
free_buffer g buffer =
    let (g', result) = gbm_unregister g buffer in
    if buffer == 0
    then (g, bad_buffer)
    else if is_zero result
    then (g', no_fault)
    else (g', unsupported)

-- A fence handle: how many descriptors it has, and the first.
pub record FenceHandle : Type 0 where
  pub num_fds : ℕ
  pub first_fd : ℤ

-- The descriptor that a handle holds, or -1.
held_fd : Option FenceHandle → ℤ
held_fd none = negsuc 0
held_fd (some h) = if h.num_fds == 1 then h.first_fd else negsuc 0

too_many : Option FenceHandle → Bool
too_many none = false
too_many (some h) = ltb 1 h.num_fds

-- The descriptor, where it is written.
unfoldable pub get_fence_fd : (ℤ → ℤ) → Option FenceHandle → MapperError × Option ℤ
unfolding held_fd too_many
get_fence_fd dup h =
    let fd = held_fd h in
    if too_many h
    then (bad_value, none)
    else if is_negative fd
    then (no_fault, some fd)
    else if is_negative (dup fd)
    then (no_resources, none)
    else (no_fault, some (dup fd))

-- BufferUsage::CPU_WRITE_MASK.
abbrev pub cpu_write_mask : ℕ
cpu_write_mask = 0xf0

-- The 64 bits of the client as the producer's and the consumer's, narrowed to an int32_t and widened
-- again where gbm_lock takes them.
unfoldable pub lock_usage : ℕ → ℕ
lock_usage cpu_usage =
    sign_extend (bit_or cpu_usage (bit_and cpu_usage (2 ^ 64 - 1 - cpu_write_mask)) % 2 ^ 32)

-- The fence is waited for once it has been copied; the address is what gbm_lock sets.
unfoldable pub lock :
    (ℤ → ℤ)
    → BoMapper
    → Gralloc
    → ℕ
    → ℕ
    → ℤ
    → ℤ
    → ℤ
    → ℤ
    → Option FenceHandle
    → Gralloc × MapperError × Option ℕ
lock dup bo_map g buffer cpu_usage left top width height fence =
    let (error, fd) = get_fence_fd dup fence in
    let (g', result, address) =
      gbm_lock bo_map g buffer (lock_usage cpu_usage) left top width height in
    if buffer == 0
    then (g, bad_buffer, none)
    else if not (is_no_fault error)
    then (g, error, none)
    else if is_zero result
    then (g', no_fault, address)
    else (g', unsupported, none)

-- The answer to a result of gbm_unlock. The fence that comes with it is always the null handle.
unfoldable pub unlock_answer : Outcome (Gralloc × ℤ) → Outcome (Gralloc × MapperError)
unlock_answer faults = faults
unlock_answer (returns (g, result)) =
    returns (g, (if is_zero result then no_fault else unsupported))

unfoldable pub unlock : Gralloc → ℕ → Outcome (Gralloc × MapperError)
unfolding unlock_answer
unlock g buffer =
    if buffer == 0 then returns (g, bad_buffer) else unlock_answer (gbm_unlock g buffer)

unfoldable pub flush_locked_buffer : Gralloc → ℕ → Outcome (Gralloc × MapperError)
unfolding unlock_answer
flush_locked_buffer g buffer =
    if buffer == 0 then returns (g, bad_buffer) else unlock_answer (gbm_unlock g buffer)

unfoldable pub reread_locked_buffer : ℕ → MapperError
reread_locked_buffer buffer = if buffer == 0 then bad_buffer else no_fault
