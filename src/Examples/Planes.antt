-- ===== src/Examples/Planes.antt =====
-- The planes of a buffer of 64 by 32 pixels.
use hardware_arpi.Base.{◌≡◌, refl, some, arith}
use hardware_arpi.Platform.{ycbcr_420_888}
use hardware_arpi.Gralloc.Ycbcr.{ycbcr_layout}
use hardware_arpi.Mapper.PlaneLayouts.{get_plane_layouts}
use hardware_arpi.Mapper.PlaneLayouts.Disjoint.{AllApart, planes_apart}
use hardware_arpi.Examples.Buffers.{handle_of}

planes_apart_example : AllApart (get_plane_layouts (handle_of ycbcr_420_888))
planes_apart_example = planes_apart (handle_of ycbcr_420_888) (omega arith) (omega arith)

-- The interleaved layout, in bytes.
semi_planar_64_32 :
    ycbcr_layout ycbcr_420_888 0x1000 64 32
    ≡ some (record { y = 4096; cb = 6144; cr = 6145; ystride = 64; cstride = 64; chroma_step = 2 })
unfolding ycbcr_layout
semi_planar_64_32 = refl
