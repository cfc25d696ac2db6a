-- ===== src/Composer/Kms.antt =====
-- The start of hwc_context of graphics/composer/aidl/hwc_context.{h,cpp}: connectors, CRTCs and planes.
-- What libdrm answers, and the floating-point arithmetic, are arguments; the answers stay the same
-- during the start. The fields of an output that the constructor does not set are arguments too.
pub mod Start
pub mod Pipes
pub mod FirstFrame
use hardware_arpi.Base.{
  ℕ, suc, ◌+◌, ◌-◌, ◌^◌, Bool, true, false, not, ◌&&◌, List, [], ◌∷◌, Option, none, some, ◌==◌, ltb,
  if◌then◌else◌, bit_or, length, get_elem?,
}
use hardware_arpi.Base.Int.{ℤ, pos, negsuc, is_zero}
use hardware_arpi.Base.Bits.{bit_at}
use hardware_arpi.Platform.{einval}
use hardware_arpi.Composer.Modes.{ModeInfo, Wish, trim, find_mode}

-- The properties that are looked for by name.
pub data PropertyName : Type 0 where
  type fb_id crtc_id out_fence_ptr : PropertyName
  other_property : ℕ → PropertyName

abbrev pub same_name : PropertyName → PropertyName → Bool
same_name type type = true
same_name fb_id fb_id = true
same_name crtc_id crtc_id = true
same_name out_fence_ptr out_fence_ptr = true
same_name (other_property n) (other_property m) = n == m
same_name _ _ = false

pub record Property : Type 0 where
  pub prop_id : ℕ
  pub name : PropertyName
  pub prop_value : ℕ

-- The conversion from uint64_t to int64_t.
abbrev pub to_int64 : ℕ → ℤ
to_int64 n = if ltb n (2 ^ 63) then pos n else negsuc (2 ^ 64 - 1 - n)

unfoldable pub get_property_value : List Property → PropertyName → ℤ
get_property_value [] name = negsuc 0
get_property_value (p ∷ ps) name =
    let later = get_property_value ps name in
    if same_name p.name name then to_int64 p.prop_value else later

unfoldable pub get_property_id : List Property → PropertyName → ℕ
get_property_id [] name = 0
get_property_id (p ∷ ps) name =
    let later = get_property_id ps name in if same_name p.name name then p.prop_id else later

pub record Connector : Type 0 where
  pub connector_id : ℕ
  pub connector_type : ℕ
  pub connected : Bool
  pub encoder : ℕ
  pub modes : List ModeInfo
  pub mm_width : ℕ
  pub mm_height : ℕ

-- The ids of the CRTCs and the connectors.
pub record DrmResources : Type 0 where
  pub crtcs : List ℕ
  pub connectors : List ℕ

-- libdrm's answers, none for null; an encoder and a plane have the CRTCs that they can be used with.
-- `past_modes` is what a connector without modes has where the first one would be.
pub record Kms : Type 0 where
  pub set_client_cap : ℕ → ℤ
  pub get_resources : Option DrmResources
  pub get_plane_resources : Option (List ℕ)
  pub get_encoder : ℕ → Option ℕ
  pub get_plane : ℕ → Option ℕ
  pub get_plane_properties : ℕ → List Property
  pub get_crtc_properties : ℕ → List Property
  pub get_connector : ℕ → Option Connector
  pub past_modes : Connector → ModeInfo
  pub generate_mode : ℤ → ℤ → ℤ → ModeInfo
  pub dpi : ℕ → ℕ → ℕ

-- `struct kms_output`.
pub record Output : Type 0 where
  pub plane_id : ℕ
  pub crtc_id : ℕ
  pub connector_id : ℕ
  pub pipe : ℕ
  pub mode : ModeInfo
  pub xdpi : ℕ
  pub ydpi : ℕ
  pub drm_format : ℕ
  pub active : Bool
  pub prop_fb_id : ℕ
  pub prop_crtc_id : ℕ
  pub prop_out_fence : ℕ

-- DRM_PLANE_TYPE_PRIMARY, DRM_FORMAT_ABGR8888, DRM_MODE_CONNECTOR_HDMIA, and the capabilities.
abbrev pub plane_type_primary : ℤ
plane_type_primary = pos 1

abbrev pub format_abgr8888 : ℕ
format_abgr8888 = 0x34324241

abbrev pub connector_hdmia : ℕ
connector_hdmia = 11

abbrev pub cap_universal_planes : ℕ
cap_universal_planes = 2

abbrev pub cap_atomic : ℕ
cap_atomic = 3

abbrev pub has_bit : ℕ → ℕ → Bool
has_bit n i = bit_at n i == 1

-- "find first possible crtc which is not used yet": its index, from `i` on, or the number of CRTCs.
unfoldable pub free_crtc : ℕ → ℕ → ℕ → List ℕ → ℕ
free_crtc possible used i [] = i
free_crtc possible used i (c ∷ cs) =
    let later = free_crtc possible used (i + 1) cs in
    if has_bit possible i && not (has_bit used i) then i else later

abbrev is_one : ℤ → Bool
is_one (pos n) = n == 1
is_one (negsuc n) = false

unfoldable pub is_primary_plane : Kms → ℕ → ℕ → Option ℕ → Bool
unfolding get_property_value
is_primary_plane kms pipe plane none = false
is_primary_plane kms pipe plane (some possible) =
    has_bit possible pipe && is_one (get_property_value (kms.get_plane_properties plane) type)

-- "find primary plane id"; without one the identifier is 0 and the properties stay.
unfoldable pub find_primary_plane : Kms → ℕ → Output → List ℕ → Output
unfolding is_primary_plane get_property_id
find_primary_plane kms pipe o [] = record o { plane_id = 0 }
find_primary_plane kms pipe o (plane ∷ planes) =
    let later = find_primary_plane kms pipe o planes in
    let properties = kms.get_plane_properties plane in
    if is_primary_plane kms pipe plane (kms.get_plane plane)
    then record o {
      plane_id = plane;
      prop_fb_id = get_property_id properties fb_id;
      prop_crtc_id = get_property_id properties crtc_id;
    }
    else later

-- The mode with what follows from it.
unfoldable pub set_mode_of : Kms → Connector → Output → Option ModeInfo → Output
unfolding trim
set_mode_of kms c o none = record o { mode = trim (kms.past_modes c); drm_format = format_abgr8888 }
set_mode_of kms c o (some m) = record o { mode = m; drm_format = format_abgr8888 }

unfoldable pub set_dpi : Kms → Connector → Output → Output
set_dpi kms c o =
    if not (c.mm_width == 0) && not (c.mm_height == 0)
    then record o {
      xdpi = kms.dpi o.mode.hdisplay c.mm_width;
      ydpi = kms.dpi o.mode.vdisplay c.mm_height;
    }
    else record o { xdpi = 75; ydpi = 75 }

-- Once there is a CRTC: the identifiers, then the mode.
unfoldable pub set_ids : Kms → List ℕ → ℕ → ℕ → Output → Connector → Output
unfolding find_primary_plane get_property_id
set_ids kms planes pipe crtc o c = record (find_primary_plane kms pipe o planes) {
  crtc_id = crtc;
  prop_out_fence = get_property_id (kms.get_crtc_properties crtc) out_fence_ptr;
  connector_id = c.connector_id;
  pipe = pipe;
}

unfoldable pub init_output : Kms → Wish → List ℕ → ℕ → ℕ → Output → Connector → Output
unfolding set_ids set_mode_of set_dpi find_mode
init_output kms w planes pipe crtc o c =
    set_dpi kms c
      (set_mode_of kms c (set_ids kms planes pipe crtc o c) (find_mode kms.generate_mode w c.modes))

-- The output, the used CRTCs, which outlive the object, and the status.
pub record Started : Type 0 where
  pub output : Output
  pub used_crtcs : ℕ
  pub status : ℤ

unfoldable pub init_with_crtc :
    Kms → Wish → List ℕ → ℕ → ℕ → Output → Connector → Option ℕ → Started
unfolding init_output
init_with_crtc kms w planes used pipe o c none = record {
  output = o;
  used_crtcs = bit_or used (2 ^ pipe);
  status = einval;
}
init_with_crtc kms w planes used pipe o c (some crtc) = record {
  output = init_output kms w planes pipe crtc o c;
  used_crtcs = bit_or used (2 ^ pipe);
  status = pos 0;
}

-- The encoder has been asked for; no CRTC is found where the index is past the last of them.
unfoldable pub init_with_encoder :
    Kms → Wish → List ℕ → List ℕ → ℕ → Output → Connector → Option ℕ → Started
unfolding init_with_crtc free_crtc
init_with_encoder kms w crtcs planes used o c none = record {
  output = o;
  used_crtcs = used;
  status = einval;
}
init_with_encoder kms w crtcs planes used o c (some possible) =
    let pipe = free_crtc possible used 0 crtcs in
    init_with_crtc kms w planes used pipe o c (get_elem? crtcs pipe)

unfoldable pub init_with_connector : Kms → Wish → List ℕ → List ℕ → ℕ → Output → Connector → Started
unfolding init_with_encoder
init_with_connector kms w crtcs planes used o c =
    init_with_encoder kms w crtcs planes used o c (kms.get_encoder c.encoder)
