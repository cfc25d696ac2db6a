-- ===== src/Mapper/PlaneLayouts/Agree.antt =====
-- The two descriptions of a YCbCr buffer, the mapper's and the allocator library's.
use hardware_arpi.Base.{ℕ, ◌+◌, ◌*◌, ◌≤◌, Option, none, some, List, [], ◌∷◌, arith}
use hardware_arpi.Gralloc.Ycbcr.{Ycbcr, mul32}
use hardware_arpi.Mapper.PlaneLayouts.{PlaneLayout}

-- Where the samples of a plane start in memory, how far its rows are apart, and its samples in a row,
-- in bits.
pub record Placement : Type 0 where
  pub start : ℕ
  pub stride : ℕ
  pub increment : ℕ

-- The planes of the mapper, for a buffer at `addr`: luminance, then Cr, then Cb.
abbrev pub placements : ℕ → List PlaneLayout → List Placement
placements addr [] = []
placements addr (p ∷ ps) =
    record {
      start = addr + p.offset_in_bytes;
      stride = p.stride_in_bytes;
      increment = p.sample_increment_in_bits;
    }
    ∷ placements addr ps

abbrev pub of_planes : ℕ → Option (List PlaneLayout) → Option (List Placement)
of_planes addr none = none
of_planes addr (some ps) = some (placements addr ps)

-- The planes of the allocator library, whose samples are bytes: those of luminance follow each other,
-- and both chroma planes have the one chroma stride and step.
abbrev pub of_ycbcr : Option Ycbcr → Option (List Placement)
of_ycbcr none = none
of_ycbcr (some l) = some (
    record { start = l.y; stride = l.ystride; increment = 8 }
    ∷ record { start = l.cr; stride = l.cstride; increment = 8 * l.chroma_step }
    ∷ record { start = l.cb; stride = l.cstride; increment = 8 * l.chroma_step }
    ∷ [])

pub product_bound : (a b : ℕ) → a ≤ 16399 → b ≤ 16384 → a * b ≤ 268681216
product_bound a b p q = grind arith

pub product_small : (a b : ℕ) → a ≤ 16399 → b ≤ 16384 → mul32 a b ≤ 268681216
product_small a b p q = omega (arith, product_bound a b p q)
