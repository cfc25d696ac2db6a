-- ===== src/Mapper/PlaneLayouts.antt =====
-- get_plane_layouts of graphics/mapper/4.0/Mapper.cpp. The products are of 32-bit unsigned numbers.
pub mod Agree
pub mod Disjoint
use hardware_arpi.Base.{ℕ, ◌+◌, ◌*◌, ◌/◌, ◌%◌, ◌^◌, Option, none, some, List, [], ◌∷◌}
use hardware_arpi.Platform.{PixelFormat, yv12, ycbcr_420_888, implementation_defined, ycrcb_420_sp}
use hardware_arpi.Gralloc.Buffers.{PrivateHandle}
use hardware_arpi.Gralloc.Ycbcr.{align16, mul32}

pub data Component : Type 0 where
  component_y component_cr component_cb : Component

pub record PlaneLayout : Type 0 where
  pub component : Component
  pub offset_in_bytes : ℕ
  pub sample_increment_in_bits : ℕ
  pub stride_in_bytes : ℕ
  pub width_in_samples : ℕ
  pub height_in_samples : ℕ
  pub total_size_in_bytes : ℕ
  pub horizontal_subsampling : ℕ
  pub vertical_subsampling : ℕ

y_plane : PrivateHandle → ℕ → PlaneLayout
y_plane hnd stride = record {
  component = component_y;
  offset_in_bytes = 0;
  sample_increment_in_bits = 8;
  stride_in_bytes = stride;
  width_in_samples = hnd.width;
  height_in_samples = hnd.height;
  total_size_in_bytes = mul32 stride hnd.height;
  horizontal_subsampling = 1;
  vertical_subsampling = 1;
}

-- The planes of both colours have a quarter of the samples; their size is that of the planar layout in
-- every format.
chroma_plane : Component → PrivateHandle → ℕ → ℕ → ℕ → PlaneLayout
chroma_plane c hnd offset increment stride = record {
  component = c;
  offset_in_bytes = offset % 2 ^ 32;
  sample_increment_in_bits = increment;
  stride_in_bytes = stride;
  width_in_samples = hnd.width / 2;
  height_in_samples = hnd.height / 2;
  total_size_in_bytes = mul32 (align16 (hnd.width / 2)) hnd.height / 2;
  horizontal_subsampling = 2;
  vertical_subsampling = 2;
}

semi_planar : PrivateHandle → ℕ → ℕ → List PlaneLayout
unfolding y_plane chroma_plane
semi_planar hnd cb_at cr_at =
    let stride = align16 hnd.width in
    let chroma = mul32 stride hnd.height in
    y_plane hnd stride
    ∷ chroma_plane component_cr hnd (chroma + cr_at) 16 stride
    ∷ chroma_plane component_cb hnd (chroma + cb_at) 16 stride
    ∷ []

planar : PrivateHandle → List PlaneLayout
unfolding y_plane chroma_plane
planar hnd =
    let stride = align16 (hnd.width / 2) in
    let chroma = mul32 hnd.width hnd.height in
    y_plane hnd hnd.width
    ∷ chroma_plane component_cr hnd chroma 8 stride
    ∷ chroma_plane component_cb hnd (chroma + mul32 stride hnd.height / 2) 8 stride
    ∷ []

-- The three switches on the format, which take the same branch; none for BAD_VALUE.
layouts_of : PixelFormat → PrivateHandle → Option (List PlaneLayout)
unfolding semi_planar planar
layouts_of ycbcr_420_888 hnd = some (semi_planar hnd 0 1)
layouts_of implementation_defined hnd = some (semi_planar hnd 0 1)
layouts_of ycrcb_420_sp hnd = some (semi_planar hnd 1 0)
layouts_of yv12 hnd = some (planar hnd)
layouts_of _ hnd = none

unfoldable pub get_plane_layouts : PrivateHandle → Option (List PlaneLayout)
unfolding layouts_of
get_plane_layouts hnd = layouts_of hnd.format hnd
