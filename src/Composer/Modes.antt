-- ===== src/Composer/Modes.antt =====
-- find_mode of graphics/composer/aidl/hwc_context.cpp: the display mode that is chosen for a connector.
-- `sscanf` is an argument, and generate_mode, which is in Modes/Timing. The squares stay below 2^31,
-- where the program's int does not overflow.
pub mod Choice
pub mod Timing
use hardware_arpi.Base.{
  ℕ, ◌+◌, ◌-◌, ◌*◌, Bool, true, false, not, ◌&&◌, ◌||◌, List, [], ◌∷◌, Option, none, some, ◌==◌,
  ltb, leb, if◌then◌else◌, bit_and,
}
use hardware_arpi.Base.Int.{ℤ, pos, negsuc, is_zero}

-- `drmModeModeInfo`: what find_mode reads, and a name for the rest of the timing.
pub record ModeInfo : Type 0 where
  pub clock : ℕ
  pub hdisplay : ℕ
  pub vdisplay : ℕ
  pub vrefresh : ℕ
  pub mode_type : ℕ
  pub timing : ℕ

-- `sscanf` of "%dx%d@%d" and of "%dx%d", where it assigns all of them.
pub record Scanner : Type 0 where
  pub scan_mode : List ℕ → Option (ℤ × ℤ × ℤ)
  pub scan_size : List ℕ → Option (ℤ × ℤ)

-- What the properties ask for, 0 where they do not, and whether it is to be made up.
pub record Wish : Type 0 where
  pub xres : ℤ
  pub yres : ℤ
  pub rate : ℤ
  pub forcemode : Bool

abbrev pub no_wish : Wish
no_wish = record { xres = pos 0; yres = pos 0; rate = pos 0; forcemode = false }

-- DRM_MODE_TYPE_PREFERRED and INT_MAX.
abbrev pub type_preferred : ℕ
type_preferred = 8

abbrev pub int_max : ℕ
int_max = 2147483647

-- "parse <xres>x<yres>[@<refreshrate>]"
unfoldable pub parse : Scanner → List ℕ → Wish
parse sc value = elim (sc.scan_mode value) [
  | some (x, y, r) ↦ record { xres = x; yres = y; rate = r; forcemode = false }
  | none ↦ elim (sc.scan_size value) [
    | some (x, y) ↦ record { xres = x; yres = y; rate = pos 60; forcemode = false }
    | none ↦ record { xres = pos 0; yres = pos 0; rate = pos 60; forcemode = false }
  ]
]

abbrev pub has_size : Wish → Bool
has_size w = not (is_zero w.xres) && not (is_zero w.yres)

abbrev pub has_rate : Wish → Bool
has_rate w = has_size w && not (is_zero w.rate)

-- The properties debug.drm.mode and debug.drm.mode.force, where they are set.
unfoldable pub read_wish : Scanner → Option (List ℕ) → Option (List ℕ) → Wish
unfolding parse
read_wish sc (some value) forced = parse sc value
read_wish sc none (some value) = let w = parse sc value in record w { forcemode = has_rate w }
read_wish sc none none = no_wish

abbrev pub is_number : ℕ → ℤ → Bool
is_number n (pos m) = n == m
is_number n (negsuc m) = false

unfoldable pub matches : Wish → ModeInfo → Bool
matches w m =
    is_number m.hdisplay w.xres && is_number m.vdisplay w.yres && is_number m.vrefresh w.rate

-- The first mode that matches.
unfoldable pub find_match : Wish → List ModeInfo → Option ModeInfo
unfolding matches
find_match w [] = none
find_match w (m ∷ ms) = let later = find_match w ms in if matches w m then some m else later

-- |n - z|, whose square is that of the difference.
abbrev pub difference : ℕ → ℤ → ℕ
difference n (pos m) = (n - m) + (m - n)
difference n (negsuc m) = n + m + 1

unfoldable pub squared_distance : Wish → ModeInfo → ℕ
squared_distance w m =
    difference m.hdisplay w.xres * difference m.hdisplay w.xres
    + difference m.vdisplay w.yres * difference m.vdisplay w.yres

abbrev pub is_preferred : ModeInfo → Bool
is_preferred m = not (bit_and m.mode_type type_preferred == 0)

-- `tmp` in the loop.
unfoldable pub cost : Wish → ℕ → ModeInfo → ℕ
unfolding squared_distance
cost w dist m = if has_size w then squared_distance w m else if is_preferred m then 0 else dist

-- The loop over the modes: `dist` and `mode` so far; it is left where the distance is 0.
unfoldable pub closest : Wish → ℕ → Option ModeInfo → List ModeInfo → Option ModeInfo
unfolding cost
closest w dist mode [] = mode
closest w dist mode (m ∷ ms) =
    let tmp = cost w dist m in
    let taken = closest w tmp (some m) ms in
    let passed = closest w dist mode ms in
    if ltb tmp dist then if tmp == 0 then some m else taken else passed

-- "fallback to the first mode"; without modes this is past the array.
unfoldable pub or_first : Option ModeInfo → List ModeInfo → Option ModeInfo
or_first (some m) ms = some m
or_first none [] = none
or_first none (m ∷ ms) = some m

-- "Avoid interference with Wifi"
unfoldable pub trim : ModeInfo → ModeInfo
trim m = if leb 74200 m.clock && ltb m.clock 74500 then record m { clock = 75000 } else m

-- The match that was found, or what is made up, or the nearest mode.
unfoldable pub or_closest :
    (ℤ → ℤ → ℤ → ModeInfo) → Wish → List ModeInfo → Option ModeInfo → Option ModeInfo
unfolding closest or_first
or_closest generate_mode w ms (some m) = some m
or_closest generate_mode w ms none =
    if w.forcemode
    then some (generate_mode w.xres w.yres w.rate)
    else or_first (closest w int_max none ms) ms

-- What is chosen before the clock is trimmed.
unfoldable pub choose : (ℤ → ℤ → ℤ → ModeInfo) → Wish → List ModeInfo → Option ModeInfo
unfolding find_match or_closest
choose generate_mode w ms =
    or_closest generate_mode w ms (if has_rate w then find_match w ms else none)

abbrev pub trimmed : Option ModeInfo → Option ModeInfo
trimmed none = none
trimmed (some m) = some (trim m)

unfoldable pub find_mode : (ℤ → ℤ → ℤ → ModeInfo) → Wish → List ModeInfo → Option ModeInfo
unfolding choose trim
find_mode generate_mode w ms = trimmed (choose generate_mode w ms)
