-- ===== src/Gralloc/Format.antt =====
-- The conversions of pixel formats and usages in graphics/common/gbm_gralloc.cpp.
use hardware_arpi.Base.{ℕ, bit_and, bit_or, ◌==◌, if◌then◌else◌}
use hardware_arpi.Platform.{
  PixelFormat, rgba_8888, rgbx_8888, rgb_565, bgra_8888, yv12, ycbcr_420_888,
  implementation_defined, blob, ycbcr_422_sp, ycbcr_422_i, ycrcb_420_sp, other, cpu_read_often,
  cpu_write_often, gpu_render_target, gpu_texture, client_target, hwcomposer,
}

-- The fourcc codes of gbm.h that the sources name, and the 0 that stands for no format.
pub data GbmFormat : Type 0 where
  abgr8888 xbgr8888 rgb565 argb8888 gr88 r8 no_format : GbmFormat

unfoldable pub get_gbm_format : PixelFormat → GbmFormat
get_gbm_format rgba_8888 = abgr8888
get_gbm_format rgbx_8888 = xbgr8888
get_gbm_format rgb_565 = rgb565
get_gbm_format bgra_8888 = argb8888
get_gbm_format yv12 = gr88
get_gbm_format ycbcr_420_888 = gr88
get_gbm_format implementation_defined = gr88
get_gbm_format blob = r8
get_gbm_format ycbcr_422_sp = no_format
get_gbm_format ycrcb_420_sp = no_format
get_gbm_format ycbcr_422_i = no_format
get_gbm_format (other n) = no_format

unfoldable pub get_bpp : PixelFormat → ℕ
get_bpp rgba_8888 = 4
get_bpp rgbx_8888 = 4
get_bpp bgra_8888 = 4
get_bpp rgb_565 = 2
get_bpp ycbcr_422_i = 2
get_bpp ycbcr_420_888 = 2
get_bpp implementation_defined = 2
get_bpp yv12 = 1
get_bpp ycbcr_422_sp = 1
get_bpp ycrcb_420_sp = 1
get_bpp blob = 1
get_bpp (other n) = 0

-- GBM_BO_USE_SCANOUT, GBM_BO_USE_RENDERING and GBM_BO_USE_LINEAR of gbm.h.
abbrev pub use_scanout : ℕ
use_scanout = 0x1

abbrev pub use_rendering : ℕ
use_rendering = 0x4

abbrev pub use_linear : ℕ
use_linear = 0x10

-- `if (usage & mask) bind |= flags;`
abbrev or_if : ℕ → ℕ → ℕ → ℕ → ℕ
or_if usage mask flags bind = if bit_and usage mask == 0 then bind else bit_or bind flags

unfoldable pub get_pipe_bind : ℕ → ℕ
get_pipe_bind usage = or_if usage hwcomposer (bit_or use_scanout use_rendering) (
    or_if usage client_target use_scanout (
      or_if usage (bit_or gpu_render_target gpu_texture) use_rendering
        (or_if usage (bit_or cpu_read_often cpu_write_often) use_linear 0)))
