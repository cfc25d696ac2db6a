-- ===== src/Composer/Client/Answers.antt =====
-- The calls of ComposerClient that ask the HAL, or answer by themselves.
use hardware_arpi.Base.{ℕ, not, List, [], ◌∷◌, ◌==◌, Option, none, some, if◌then◌else◌}
use hardware_arpi.Composer.Error.{
  Error, no_error, bad_display, bad_parameter, unsupported, no_resources, is_display,
}
use hardware_arpi.Composer.Device.{Attribute, get_display_attribute}
use hardware_arpi.Composer.Hal.{ComposerHal, hal_get_display_name, get_display_vsync_period}

-- HAL_COLOR_MODE_NATIVE and ColorMode::NATIVE; the interface's SRGB_LINEAR; Transform::NONE.
abbrev pub color_mode_native : ℕ
color_mode_native = 0

abbrev pub dataspace_srgb_linear : ℕ
dataspace_srgb_linear = 138477568

abbrev pub transform_none : ℕ
transform_none = 0

-- `config = nullptr` sets the pointer: no configuration is written.
unfoldable pub get_active_config : ℕ → Error × Option ℕ
get_active_config display = if is_display display then (no_error, none) else (bad_display, none)

-- The vectors have one element, 0, also where there is an error.
unfoldable pub get_color_modes : ℕ → Error × List ℕ
get_color_modes display =
    if is_display display then (no_error, color_mode_native ∷ []) else (bad_display, 0 ∷ [])

unfoldable pub get_display_configs : ℕ → Error × List ℕ
get_display_configs display =
    if is_display display then (no_error, 0 ∷ []) else (bad_display, 0 ∷ [])

-- The numbers are floats, all of them 0 or 1; the matrix is none where it is not written.
unfoldable pub get_dataspace_saturation_matrix : ℕ → Error × Option (List ℕ)
get_dataspace_saturation_matrix dataspace =
    if not (dataspace == dataspace_srgb_linear)
    then (bad_parameter, none)
    else (no_error, some (1 ∷ 0 ∷ 0 ∷ 0 ∷ 0 ∷ 1 ∷ 0 ∷ 0 ∷ 0 ∷ 0 ∷ 1 ∷ 0 ∷ 0 ∷ 0 ∷ 0 ∷ 1 ∷ []))

unfoldable pub client_display_attribute : ComposerHal → ℕ → ℕ → Attribute → Error × Option ℕ
client_display_attribute hal display config attribute =
    get_display_attribute hal.device display config attribute

unfoldable pub client_display_name : ComposerHal → ℕ → Error × Option (List ℕ)
client_display_name hal display = hal_get_display_name hal display

unfoldable pub client_vsync_period : ComposerHal → ℕ → Error × Option ℕ
client_vsync_period hal display = get_display_vsync_period hal display

unfoldable pub set_color_mode : ℕ → Error
set_color_mode mode = if not (mode == color_mode_native) then bad_parameter else no_error

-- No virtual display is made, and destroying one always succeeds.
unfoldable pub create_virtual_display : Error
create_virtual_display = no_resources

unfoldable pub destroy_virtual_display : Error
destroy_virtual_display = no_error

unfoldable pub get_max_virtual_display_count : Error × ℕ
get_max_virtual_display_count = (no_error, 0)

unfoldable pub get_display_physical_orientation : Error × ℕ
get_display_physical_orientation = (no_error, transform_none)

-- The support is never there, so the optional is reset.
unfoldable pub get_display_decoration_support : Error × Option (ℕ × ℕ)
get_display_decoration_support = (no_error, none)

-- The calls on configurations and conversions, whose arguments are not read.
pub data ConfigCall : Type 0 where
  set_active_config set_active_config_with_constraints set_boot_display_config : ConfigCall
  clear_boot_display_config get_preferred_boot_display_config : ConfigCall
  get_hdr_conversion_capabilities set_hdr_conversion_strategy : ConfigCall
  set_auto_low_latency_mode : ConfigCall

unfoldable pub config_answer : ConfigCall → Error
config_answer get_hdr_conversion_capabilities = unsupported
config_answer set_hdr_conversion_strategy = unsupported
config_answer _ = no_error

-- The calls that nothing supports.
pub data QueryCall : Type 0 where
  get_per_frame_metadata_keys get_readback_buffer_attributes get_readback_buffer_fence : QueryCall
  get_render_intents get_supported_content_types : QueryCall

unfoldable pub query_answer : QueryCall → Error
query_answer _ = unsupported

-- Each of these reads none of its arguments.
unfoldable pub get_display_capabilities : Error
get_display_capabilities = unsupported

pub data IdentityCall : Type 0 where
  get_display_connection_type get_display_identification_data : IdentityCall

unfoldable pub identity_answer : IdentityCall → Error
identity_answer _ = unsupported

pub data ContentCall : Type 0 where
  get_displayed_content_sample get_displayed_content_sampling_attributes : ContentCall

unfoldable pub content_answer : ContentCall → Error
content_answer _ = unsupported

pub data SupportCall : Type 0 where
  get_hdr_capabilities get_overlay_support : SupportCall

unfoldable pub support_answer : SupportCall → Error
support_answer _ = unsupported

-- Nothing is switched: neither the content type nor the sampling nor the power.
pub data SwitchCall : Type 0 where
  set_content_type set_displayed_content_sampling_enabled set_power_mode : SwitchCall

unfoldable pub switch_answer : SwitchCall → Error
switch_answer _ = no_error

pub data TimerCall : Type 0 where
  set_idle_timer_enabled set_refresh_rate_changed_callback_debug_enabled : TimerCall

unfoldable pub timer_answer : TimerCall → Error
timer_answer set_idle_timer_enabled = no_error
timer_answer set_refresh_rate_changed_callback_debug_enabled = unsupported
