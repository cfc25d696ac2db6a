-- ===== src/Mapper/Metadata.antt =====
-- The calls of graphics/mapper/4.0/Mapper.cpp that tell about buffers. gralloc4's encoders are
-- arguments.
use hardware_arpi.Base.{ℕ, Bool, true, List, [], Option, none, some, ◌==◌, if◌then◌else◌}
use hardware_arpi.Base.Int.{ℤ, pos, is_zero}
use hardware_arpi.Platform.{einval}
use hardware_arpi.Gralloc.Buffers.{Gralloc, PrivateHandle}
use hardware_arpi.Mapper.Calls.{MapperError, no_fault, bad_buffer, unsupported, DescriptorInfo}
use hardware_arpi.Mapper.PlaneLayouts.{PlaneLayout, get_plane_layouts}

-- What a metadata type stands for: one of gralloc4's, or another one.
pub data MetadataType : Type 0 where
  dataspace plane_layouts : MetadataType
  other_standard : ℕ → MetadataType
  not_standard : MetadataType

-- encodeDataspace of Dataspace::UNKNOWN and encodePlaneLayouts: a status and the bytes.
pub record Encoders : Type 0 where
  pub encode_unknown_dataspace : ℤ × List ℕ
  pub encode_plane_layouts : List PlaneLayout → ℤ × List ℕ

-- `android::BAD_VALUE` is -EINVAL. Bytes are there where an encoder was called.
unfoldable pub encode_layouts : Encoders → Option (List PlaneLayout) → ℤ × List ℕ
encode_layouts enc none = (einval, [])
encode_layouts enc (some layouts) = enc.encode_plane_layouts layouts

-- A type that is not standard leaves the status as it was.
unfoldable pub encode_metadata : Encoders → PrivateHandle → MetadataType → ℤ × List ℕ
unfolding encode_layouts get_plane_layouts
encode_metadata enc hnd dataspace = enc.encode_unknown_dataspace
encode_metadata enc hnd plane_layouts = encode_layouts enc (get_plane_layouts hnd)
encode_metadata enc hnd (other_standard n) = (einval, [])
encode_metadata enc hnd not_standard = (pos 0, [])

-- `Mapper::get`.
unfoldable pub get_metadata : Encoders → Gralloc → ℕ → MetadataType → MapperError × List ℕ
unfolding encode_metadata
get_metadata enc g buffer type =
    let (err, bytes) = encode_metadata enc (g.memory buffer) type in
    if buffer == 0
    then (bad_buffer, [])
    else ((if is_zero err then no_fault else unsupported), bytes)

-- `Mapper::set`, which sets nothing.
unfoldable pub set_metadata : ℕ → MapperError
set_metadata buffer = if buffer == 0 then bad_buffer else unsupported

unfoldable pub get_reserved_region : ℕ → MapperError
get_reserved_region buffer = if buffer == 0 then bad_buffer else unsupported

-- The numbers of descriptors and of integers of a native handle.
unfoldable pub get_transport_size : (ℕ → ℕ × ℕ) → ℕ → MapperError × ℕ × ℕ
get_transport_size native buffer =
    let (num_fds, num_ints) = native buffer in
    if buffer == 0 then (bad_buffer, 0, 0) else (no_fault, num_fds, num_ints)

-- Neither reads its arguments.
unfoldable pub validate_buffer_size : ℕ → DescriptorInfo → ℕ → MapperError
validate_buffer_size buffer descriptor stride = no_fault

unfoldable pub is_supported : DescriptorInfo → MapperError × Bool
is_supported descriptor = (no_fault, true)

unfoldable pub get_from_buffer_descriptor_info :
    DescriptorInfo → MetadataType → MapperError × List ℕ
get_from_buffer_descriptor_info descriptor type = (unsupported, [])

-- The list of supported types is empty, also of those that `get` supports.
unfoldable pub list_supported_metadata_types : MapperError × List MetadataType
list_supported_metadata_types = (no_fault, [])
