-- ===== src/Mapper/PlaneLayouts/Disjoint.antt =====
-- Where the samples of the planes of one buffer stand.
use hardware_arpi.Base.{
  ℕ, ◌+◌, ◌*◌, ◌/◌, ◌%◌, ◌^◌, ◌≤◌, ◌<◌, ◌≡◌, ◌≢◌, ap, Option, none, some, List, [], ◌∷◌, arith,
}
use hardware_arpi.Platform.{PixelFormat, yv12, ycbcr_420_888, implementation_defined, ycrcb_420_sp}
use hardware_arpi.Gralloc.Buffers.{PrivateHandle}
use hardware_arpi.Gralloc.Ycbcr.{align16, mul32}
use hardware_arpi.Mapper.PlaneLayouts.{
  PlaneLayout, semi_planar, planar, layouts_of, get_plane_layouts,
}
use hardware_arpi.Mapper.PlaneLayouts.Agree.{product_bound}

-- The byte of a sample, from the start of the buffer.
abbrev pub sample_at : PlaneLayout → ℕ → ℕ → ℕ
sample_at l row column =
    l.offset_in_bytes + row * l.stride_in_bytes + column * (l.sample_increment_in_bits / 8)

abbrev pub Apart : PlaneLayout → PlaneLayout → Type 0
Apart k l =
    (i j m n : ℕ)
    → i < k.height_in_samples
    → j < k.width_in_samples
    → m < l.height_in_samples
    → n < l.width_in_samples
    → sample_at k i j ≢ sample_at l m n

abbrev pub AllApart : Option (List PlaneLayout) → Type 0
AllApart (some (a ∷ b ∷ c ∷ [])) = Apart a b × Apart a c × Apart b c
AllApart (some _) = ⊥
AllApart none = Unit

-- A sample of a plane lies before every byte from the plane's end on.
before_end :
    (start stride height width i j at : ℕ)
    → i < height
    → j < width
    → width ≤ stride
    → start + stride * height ≤ at
    → start + i * stride + j < at
before_end start stride height width i j at p q r s = grind arith

plane_apart :
    (start stride height width i j at m s n k : ℕ)
    → i < height
    → j < width
    → width ≤ stride
    → start + stride * height ≤ at
    → start + i * stride + j * 1 ≢ at + m * s + n * k
plane_apart start stride height width i j at m s n k p q r t e =
    omega (arith, before_end start stride height width i j at p q r t)

-- Two samples at bytes of different parity, with an even stride.
parity_apart :
    (at at' s k i j m n : ℕ)
    → s ≡ k * 16
    → at % 2 ≢ at' % 2
    → at + i * s + j * 2 ≢ at' + m * s + n * 2
parity_apart at at' s k i j m n h p e =
    omega (arith, ap (λ (t : ℕ). i * t) h, ap (λ (t : ℕ). m * t) h)

-- What the proofs need of an aligned width.
record IsAligned (width stride : ℕ) : Type 0 where
  at_least : width ≤ stride
  at_most : stride ≤ 16399
  multiple : stride ≡ stride / 16 * 16

align16-IsAligned : (w : ℕ) → w ≤ 16384 → IsAligned w (align16 w)
unfolding align16
align16-IsAligned w p = omega arith

half_rows : (stride height : ℕ) → height / 2 * stride ≤ stride * height / 2
half_rows stride height = omega (arith, rows (2 * (height / 2)) height (omega arith))
  where
    rows : (a b : ℕ) → a ≤ b → a * stride ≤ stride * b
    rows a b h = grind arith

module _ (hnd : PrivateHandle) (p : hnd.width ≤ 16384) (q : hnd.height ≤ 16384) where
  -- The two planes of the colours start at bytes of different parity.
  semi_planar_apart :
      (cb_at cr_at : ℕ) → cb_at + cr_at ≡ 1 → AllApart (some (semi_planar hnd cb_at cr_at))
  unfolding semi_planar
  semi_planar_apart cb_at cr_at one =
      let v = align16-IsAligned hnd.width p in
      let s = align16 hnd.width in
      let exact = product_bound s hnd.height v.at_most q in
      let start : ℕ → ℕ = λ c. (mul32 s hnd.height + c) % 2 ^ 32 in
      (
        λ i j m n a b c d.
            plane_apart 0 s hnd.height hnd.width i j (start cr_at) m s n 2 a b v.at_least
              (omega arith),
        λ i j m n a b c d.
            plane_apart 0 s hnd.height hnd.width i j (start cb_at) m s n 2 a b v.at_least
              (omega arith),
        λ i j m n a b c d.
            parity_apart (start cr_at) (start cb_at) s (s / 16) i j m n v.multiple (omega arith),
      )

  planar_apart : AllApart (some (planar hnd))
  unfolding planar
  planar_apart =
      let v = align16-IsAligned (hnd.width / 2) (omega arith) in
      let s = align16 (hnd.width / 2) in
      let y_exact = product_bound hnd.width hnd.height (omega arith) q in
      let c_exact = product_bound s hnd.height v.at_most q in
      let cr_at = mul32 hnd.width hnd.height % 2 ^ 32 in
      let cb_at = (mul32 hnd.width hnd.height + mul32 s hnd.height / 2) % 2 ^ 32 in
      (
        λ i j m n a b c d.
            plane_apart 0 hnd.width hnd.height hnd.width i j cr_at m s n 1 a b (omega arith)
              (omega arith),
        λ i j m n a b c d.
            plane_apart 0 hnd.width hnd.height hnd.width i j cb_at m s n 1 a b (omega arith)
              (omega arith),
        λ i j m n a b c d.
            plane_apart cr_at s (hnd.height / 2) (hnd.width / 2) i j cb_at m s n 1 a b v.at_least
              (omega (arith, half_rows s hnd.height)),
      )

apart_of :
    (f : PixelFormat) (hnd : PrivateHandle)
    → hnd.width ≤ 16384
    → hnd.height ≤ 16384
    → AllApart (layouts_of f hnd)
unfolding layouts_of
apart_of yv12 hnd p q = planar_apart hnd p q
apart_of ycbcr_420_888 hnd p q = semi_planar_apart hnd p q 0 1 (omega arith)
apart_of implementation_defined hnd p q = semi_planar_apart hnd p q 0 1 (omega arith)
apart_of ycrcb_420_sp hnd p q = semi_planar_apart hnd p q 1 0 (omega arith)
apart_of _ hnd p q = tt

-- For a buffer of at most 2 ^ 14 pixels each way, get_plane_layouts describes three planes or none,
-- and no sample of one plane lies at the byte of a sample of another.
pub planes_apart :
    (hnd : PrivateHandle)
    → hnd.width ≤ 16384
    → hnd.height ≤ 16384
    → AllApart (get_plane_layouts hnd)
unfolding get_plane_layouts
planes_apart hnd = apart_of hnd.format hnd
