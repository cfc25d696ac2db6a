-- ===== src/Composer/Kms/Start.antt =====
-- fetch_connector, fetch_connector2, init_kms, the constructor and is_display2_active of
-- graphics/composer/aidl/hwc_context.cpp.
use hardware_arpi.Base.{
  ℕ, zero, suc, ◌+◌, Bool, true, false, not, ◌&&◌, List, [], ◌∷◌, Option, none, some, ◌==◌,
  if◌then◌else◌,
}
use hardware_arpi.Base.Int.{ℤ, pos, negsuc, is_zero}
use hardware_arpi.Platform.{einval}
use hardware_arpi.Composer.Post.{Context, KmsOutput}
use hardware_arpi.Composer.Modes.{ModeInfo, Wish}
use hardware_arpi.Composer.Kms.{
  Kms, Connector, DrmResources, Output, Started, init_with_connector, connector_hdmia,
  cap_universal_planes, cap_atomic,
}

-- What the start leaves: the outputs, the CRTCs that are used, the flags for the first frames.
pub record Screen : Type 0 where
  pub primary_output : Output
  pub secondary_output : Output
  pub used_crtcs : ℕ
  pub first_post : Bool
  pub first_post2 : Bool

-- Whether it is the one with the number to pass over, if any.
abbrev is_skipped : Option ℕ → ℕ → Bool
is_skipped none i = false
is_skipped (some j) i = i == j

abbrev fits : ℕ → Option Connector → Option Connector
fits type none = none
fits type (some c) = if c.connector_type == type && c.connected then some c else none

abbrev or_later : ℕ → Option Connector → Option (ℕ × Connector) → Option (ℕ × Connector)
or_later i none later = later
or_later i (some c) later = some (i, c)

-- The first connected connector of the type, from the index `i` on, with its index. The first search
-- passes over none, the second over the one that the first has found.
unfoldable pub fetch_connector : Kms → ℕ → Option ℕ → ℕ → List ℕ → Option (ℕ × Connector)
fetch_connector kms type skip i [] = none
fetch_connector kms type skip i (id ∷ ids) =
    let later = fetch_connector kms type skip (i + 1) ids in
    if is_skipped skip i then later else or_later i (fits type (kms.get_connector id)) later

abbrev started_as : Screen → Started → (Output → Output) → Screen
started_as s r change = record s { primary_output = change r.output; used_crtcs = r.used_crtcs }

abbrev set_active : Output → Output
set_active o = record o { active = true }

-- The second display, whose status is dropped as the first one's.
unfoldable pub init_secondary :
    Kms → Wish → List ℕ → List ℕ → Screen → Option (ℕ × Connector) → Screen
unfolding init_with_connector
init_secondary kms w crtcs planes s none = s
init_secondary kms w crtcs planes s (some (i, c)) =
    let r = init_with_connector kms w crtcs planes s.used_crtcs s.secondary_output c in
    record s { secondary_output = set_active r.output; used_crtcs = r.used_crtcs }

unfoldable pub init_hdmi :
    Kms → Wish → DrmResources → List ℕ → Screen → Option (ℕ × Connector) → Screen
unfolding init_with_connector init_secondary fetch_connector
init_hdmi kms w res planes s none = s
init_hdmi kms w res planes s (some (i, c)) =
    let r = init_with_connector kms w res.crtcs planes s.used_crtcs s.primary_output c in
    init_secondary kms w res.crtcs planes (started_as s r set_active)
      (fetch_connector kms connector_hdmia (some i) 0 res.connectors)

-- A try with a connector: where there is one and it is connected, that it is started.
unfoldable pub try_connector :
    Kms → Wish → List ℕ → List ℕ → Screen → Option Connector → Screen × Bool
unfolding init_with_connector
try_connector kms w crtcs planes s none = (s, false)
try_connector kms w crtcs planes s (some c) =
    let r = init_with_connector kms w crtcs planes s.used_crtcs s.primary_output c in
    if c.connected then (started_as s r (λ o. o), is_zero r.status) else (s, false)

abbrev last_valid : Option Connector → Option Connector → Option Connector
last_valid last none = last
last_valid last (some c) = some c

-- "find first connected connector and try it": whether one was started, and the last valid one.
unfoldable pub try_connectors :
    Kms
    → Wish
    → List ℕ
    → List ℕ
    → Screen
    → Option Connector
    → List ℕ
    → Screen × Bool × Option Connector
unfolding try_connector
try_connectors kms w crtcs planes s last [] = (s, false, last)
try_connectors kms w crtcs planes s last (id ∷ ids) =
    let c = kms.get_connector id in
    let (s', found) = try_connector kms w crtcs planes s c in
    let later = try_connectors kms w crtcs planes s' (last_valid last c) ids in
    if found then (s', true, last_valid last c) else later

-- "try to enforce the use of the last valid one"; its status is dropped.
unfoldable pub enforce_connector :
    Kms → Wish → List ℕ → List ℕ → Screen × Bool × Option Connector → Screen × ℤ
unfolding init_with_connector
enforce_connector kms w crtcs planes (s, true, last) = (s, pos 0)
enforce_connector kms w crtcs planes (s, false, none) = (s, einval)
enforce_connector kms w crtcs planes (s, false, some c) =
    let r = init_with_connector kms w crtcs planes s.used_crtcs s.primary_output c in
    (started_as s r (λ o. o), pos 0)

abbrev post_first : Screen × ℤ → Screen × ℤ
post_first (s, status) =
    ((if is_zero status then record s { first_post = true; first_post2 = true } else s), status)

-- Once the resources are there.
unfoldable pub init_outputs : Kms → Wish → DrmResources → List ℕ → Screen → Screen × ℤ
unfolding init_hdmi try_connectors enforce_connector fetch_connector
init_outputs kms w res planes s =
    let s' =
      init_hdmi kms w res planes s (fetch_connector kms connector_hdmia none 0 res.connectors) in
    let tried = try_connectors kms w res.crtcs planes s' none res.connectors in
    post_first (
      if s'.primary_output.active
      then (s', pos 0)
      else enforce_connector kms w res.crtcs planes tried)

unfoldable pub init_with_resources :
    Kms → Wish → Option DrmResources → Option (List ℕ) → Screen → Screen × ℤ
unfolding init_outputs
init_with_resources kms w none planes s = (s, einval)
init_with_resources kms w (some res) none s = (s, einval)
init_with_resources kms w (some res) (some planes) s = init_outputs kms w res planes s

unfoldable pub init_kms : Kms → Wish → Screen → Screen × ℤ
unfolding init_with_resources
init_kms kms w s =
    if not (is_zero (kms.set_client_cap cap_universal_planes))
    then (s, kms.set_client_cap cap_universal_planes)
    else if not (is_zero (kms.set_client_cap cap_atomic))
    then (s, kms.set_client_cap cap_atomic)
    else init_with_resources kms w kms.get_resources kms.get_plane_resources s

-- The description of the screen that the constructor writes where everything succeeds.
pub record Description : Type 0 where
  pub width : ℕ
  pub height : ℕ
  pub format : ℕ
  pub fps : ℕ
  pub xdpi : ℕ
  pub ydpi : ℕ

-- HAL_PIXEL_FORMAT_RGBA_8888.
abbrev pub hal_format_rgba_8888 : ℕ
hal_format_rgba_8888 = 1

unfoldable pub describe : Output → Description
describe o = record {
  width = o.mode.hdisplay;
  height = o.mode.vdisplay;
  format = hal_format_rgba_8888;
  fps = o.mode.vrefresh;
  xdpi = o.xdpi;
  ydpi = o.ydpi;
}

-- The constructor, with the descriptor that `open` returned; `d` is what the fields had before.
unfoldable pub new_hwc_context : Kms → Wish → ℤ → Screen → Description → Screen × Description
unfolding init_kms describe
new_hwc_context kms w kms_fd s d =
    let (s', error) = init_kms kms w s in
    let before = record d { fps = 60 } in
    elim kms_fd [
      | pos zero ↦ (s, before)
      | pos (suc n) ↦ if is_zero error then (s', describe s'.primary_output) else (s', before)
      | negsuc n ↦ (s, before)
    ]

unfoldable pub is_display2_active : Screen → Bool
is_display2_active s = s.secondary_output.active

-- What posting reads; `timing` names what else a mode has.
unfoldable pub context_of : (ModeInfo → ℕ) → Screen → Context
context_of timing s =
    let shown : Output → KmsOutput = λ o. record {
      plane_id = o.plane_id;
      crtc_id = o.crtc_id;
      connector_id = o.connector_id;
      hdisplay = o.mode.hdisplay;
      vdisplay = o.mode.vdisplay;
      timing = timing o.mode;
      drm_format = o.drm_format;
      prop_fb_id = o.prop_fb_id;
      prop_crtc_id = o.prop_crtc_id;
      prop_out_fence = o.prop_out_fence;
    } in
    record {
      first_post = s.first_post;
      first_post2 = s.first_post2;
      primary_output = shown s.primary_output;
      secondary_output = shown s.secondary_output;
    }
