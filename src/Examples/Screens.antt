-- ===== src/Examples/Screens.antt =====
-- Modes and the start on a device with two connectors.
use hardware_arpi.Base.{
  ℕ, ◌≡◌, ◌≢◌, refl, true, false, List, [], ◌∷◌, none, some, inl, inr, arith, ltb, leb, ◌&&◌, ◌+◌,
  ◌-◌, ◌==◌, get_elem?, if◌then◌else◌, replicate, length,
}
use hardware_arpi.Base.Int.{ℤ, pos}
use hardware_arpi.Composer.Modes.{
  ModeInfo, Wish, Scanner, read_wish, trim, find_mode, squared_distance,
}
use hardware_arpi.Composer.Modes.Choice.{InReach}
use hardware_arpi.Composer.Modes.Choice.Best.{IsBest, find_mode-IsBest}
use hardware_arpi.Composer.Kms.{
  Kms, Connector, Output, Property, other_property, type, fb_id, crtc_id, out_fence_ptr,
  connector_hdmia, init_with_connector,
}
use hardware_arpi.Composer.Kms.Start.{Screen, init_kms, is_display2_active}
use hardware_arpi.Composer.Kms.Pipes.{init_with_connector-pipes_differ}

abbrev pub mode_of : ℕ → ℕ → ℕ → ModeInfo
mode_of width height clock = record {
  clock = clock;
  hdisplay = width;
  vdisplay = height;
  vrefresh = 60;
  mode_type = 64;
  timing = clock;
}

abbrev pub small : ModeInfo
small = mode_of 1024 768 65000

abbrev pub middle : ModeInfo
middle = mode_of 1280 720 74250

abbrev pub wished : Wish
wished = record { xres = pos 1280; yres = pos 800; rate = pos 75; forcemode = false }

abbrev pub never_made : ℤ → ℤ → ℤ → ModeInfo
never_made x y r = small

-- A device with two CRTCs, one plane each, and two connectors.
abbrev pub two_crtcs : List ℕ
two_crtcs = 31 ∷ 32 ∷ []

-- The nearest mode, its clock trimmed.
mode_found :
    find_mode never_made wished (small ∷ middle ∷ []) ≡ some (record middle { clock = 75000 })
unfolding find_mode
mode_found = refl

reach : InReach wished (small ∷ middle ∷ [])
unfolding squared_distance
reach m (inl e) = rw e (omega arith)
reach m (inr (inl e)) = rw e (omega arith)
reach m (inr (inr i)) = elim i [ ]

find_mode-IsBest_example :
    (r : ModeInfo) × (find_mode never_made wished (small ∷ middle ∷ []) ≡ some (trim r))
    × IsBest wished (small ∷ middle ∷ []) r
    × ((leb 74200 (trim r).clock && ltb (trim r).clock 74500) ≡ false)
find_mode-IsBest_example = find_mode-IsBest never_made wished small (middle ∷ []) refl reach

-- The values of "1280x800@75" and of nothing.
abbrev scanner : Scanner
scanner = record {
  scan_mode = λ s. if length s == 11 then some (pos 1280, pos 800, pos 75) else none;
  scan_size = λ s. none;
}

wish_read :
    (read_wish scanner none (some (replicate 11 49)) ≡ record wished { forcemode = true })
    × ((read_wish scanner (some []) (some (replicate 11 49))).rate ≡ pos 60)
unfolding read_wish
wish_read = (refl, refl)

abbrev plane_properties : List Property
plane_properties =
    record { prop_id = 7; name = other_property 0; prop_value = 3 }
    ∷ record { prop_id = 8; name = type; prop_value = 1 }
    ∷ record { prop_id = 17; name = fb_id; prop_value = 0 }
    ∷ record { prop_id = 20; name = crtc_id; prop_value = 0 }
    ∷ []

abbrev pub connector_of : ℕ → Connector
connector_of n = record {
  connector_id = n;
  connector_type = connector_hdmia;
  connected = true;
  encoder = n + 10;
  modes = small ∷ middle ∷ [];
  mm_width = 0;
  mm_height = 0;
}

-- An encoder can be used with both CRTCs, a plane with one.
abbrev pub board : List ℕ → Kms
board crtcs = record {
  set_client_cap = λ cap. pos 0;
  get_resources = some (record { crtcs = crtcs; connectors = 50 ∷ 51 ∷ [] });
  get_plane_resources = some (61 ∷ 62 ∷ []);
  get_encoder = λ e. some 3;
  get_plane = λ p. some (p - 60);
  get_plane_properties = λ p. plane_properties;
  get_crtc_properties = λ c. record { prop_id = 25; name = out_fence_ptr; prop_value = 0 } ∷ [];
  get_connector = λ c. some (connector_of c);
  past_modes = λ c. small;
  generate_mode = never_made;
  dpi = λ size mm. size;
}

abbrev pub blank : Output
blank = record {
  plane_id = 0;
  crtc_id = 0;
  connector_id = 0;
  pipe = 0;
  mode = small;
  xdpi = 0;
  ydpi = 0;
  drm_format = 0;
  active = false;
  prop_fb_id = 0;
  prop_crtc_id = 0;
  prop_out_fence = 0;
}

init_with_connector-pipes_differ_example :
    let r =
      init_with_connector
        (board two_crtcs)
        wished
        two_crtcs
        (61 ∷ 62 ∷ [])
        0
        blank
        (connector_of 50) in
    let r' =
      init_with_connector
        (board two_crtcs)
        wished
        two_crtcs
        (61 ∷ 62 ∷ [])
        r.used_crtcs
        blank
        (connector_of 51) in
    (r.output.pipe ≢ r'.output.pipe)
    × (get_elem? two_crtcs r.output.pipe ≡ some r.output.crtc_id)
    × (get_elem? two_crtcs r'.output.pipe ≡ some r'.output.crtc_id)
unfolding init_with_connector
init_with_connector-pipes_differ_example =
    init_with_connector-pipes_differ (board two_crtcs) wished two_crtcs (61 ∷ 62 ∷ []) 0 blank blank
      (connector_of 50) (connector_of 51) refl refl

abbrev pub dark : Screen
dark = record {
  primary_output = blank;
  secondary_output = blank;
  used_crtcs = 0;
  first_post = false;
  first_post2 = false;
}

-- Both displays are started, each with a CRTC and the plane of it.
both_started :
    let s = (init_kms (board two_crtcs) wished dark).0 in
    (s.primary_output.crtc_id ≡ 31)
    × (s.primary_output.plane_id ≡ 61)
    × (s.secondary_output.crtc_id ≡ 32)
    × (s.secondary_output.plane_id ≡ 62)
    × (s.secondary_output.prop_fb_id ≡ 17)
    × (is_display2_active s ≡ true)
unfolding init_kms is_display2_active
both_started = (refl, refl, refl, refl, refl, refl)

-- With one CRTC, the second display is active and has none.
second_without_crtc :
    let s = (init_kms (board (31 ∷ [])) wished dark).0 in
    (s.secondary_output.crtc_id ≡ 0) × (is_display2_active s ≡ true)
unfolding init_kms is_display2_active
second_without_crtc = (refl, refl)
