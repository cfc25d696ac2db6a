-- ===== src/Examples/Allocations.antt =====
-- The allocator service: two buffers, the second of which fails; and libgbm's device, opened twice.
use hardware_arpi.Base.{ℕ, ◌+◌, ◌-◌, ◌≡◌, refl, none, some, [], ◌∷◌, List, Option, arith, false}
use hardware_arpi.Base.Ids.{contains, count}
use hardware_arpi.Base.Int.{pos}
use hardware_arpi.Platform.{rgba_8888}
use hardware_arpi.Gralloc.Buffers.{NewBo, CreateRequest}
use hardware_arpi.Gralloc.Buffers.Map.{find}
use hardware_arpi.Gralloc.Devices.{
  Devices, new_allocator, new_mapper, delete_allocator, delete_mapper, services_close,
}
use hardware_arpi.Allocator.{
  BufferDescriptor, Answer, allocate, to_producer_usage, to_consumer_usage,
}
use hardware_arpi.Allocator.Ownership.{allocate_leaks_nothing}
use hardware_arpi.Examples.Buffers.{with_buffer}

abbrev pub descriptor : BufferDescriptor
descriptor = record { width = 64; height = 32; format = rgba_8888; usage = 0x133 }

abbrev makes : CreateRequest → Option NewBo
makes r = some (record { address = 8; bo_fd = pos 6; bo_stride = 256 })

abbrev pub answers : List Answer
answers =
    record { address = 200; errno = 0; bo_new = makes }
    ∷ record { address = 201; errno = 12; bo_new = λ r. none }
    ∷ []

allocate_leaks_nothing_example :
    ((h : ℕ)
      → find h (allocate (with_buffer rgba_8888) (pos 0, descriptor) answers).0.handle_map
        ≡ find h (with_buffer rgba_8888).handle_map)
    × ((b : ℕ)
        → count b (allocate (with_buffer rgba_8888) (pos 0, descriptor) answers).0.live
          ≡ count b (with_buffer rgba_8888).live)
unfolding find contains
allocate_leaks_nothing_example =
    allocate_leaks_nothing (with_buffer rgba_8888) (pos 0) descriptor answers
      (refl, refl, (refl, refl, tt)) (λ r e. absurd (ground (arith, e)), (λ r e. ground arith, tt))

-- Frequent access of the CPU to the buffer, as the older interfaces spell it.
frequent_access : (to_producer_usage 0x133 ≡ 0x166) × (to_consumer_usage 0x133 ≡ 0x106)
unfolding to_producer_usage to_consumer_usage
frequent_access = (refl, refl)

-- A device on a descriptor has the descriptor's number and 100.
abbrev device_on : ℕ → Option ℕ
device_on fd = some (fd + 100)

abbrev fd_of : ℕ → ℕ
fd_of gbm = gbm - 100

abbrev process : Devices
process = record { fds = 0 ∷ 1 ∷ 2 ∷ []; devices = [] }

fd_of-device_on : (fd gbm : ℕ) → device_on fd ≡ some gbm → fd_of gbm ≡ fd
fd_of-device_on fd gbm e = ground (arith, e)

not_open_yet : (fd : ℕ) → pos 4 ≡ pos fd → contains fd (3 ∷ 0 ∷ 1 ∷ 2 ∷ []) ≡ false
unfolding contains
not_open_yet fd e = ground (arith, e)

services_close_example :
    let (s1, allocator) = new_allocator (pos 3) device_on process in
    let (s2, mapper) = new_mapper (pos 4) device_on s1 in
    delete_mapper fd_of mapper (delete_allocator fd_of allocator s2) ≡ process
unfolding new_allocator
services_close_example =
    services_close fd_of device_on device_on (pos 3) (pos 4) process fd_of-device_on fd_of-device_on
      not_open_yet
