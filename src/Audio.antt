-- ===== src/Audio.antt =====
-- audio/audio_hw.c: the primary audio HAL, which plays on a card of ALSA and records silence. tinyalsa
-- and the audio library's sizes of formats are arguments. Sizes are 64-bit; clocks are nanoseconds or
-- microseconds from 0 that stay below 2 ^ 63.
pub mod Output
pub mod Input
pub mod Device
use hardware_arpi.Base.{ℕ, ◌+◌, ◌*◌, ◌/◌, ◌%◌, ◌^◌, Bool, ◌==◌, ◌&&◌, if◌then◌else◌}
use hardware_arpi.Base.Int.{ℤ, pos, negsuc}
use hardware_arpi.Platform.{einval}

-- `struct audio_config`.
pub record Config : Type 0 where
  pub sample_rate : ℕ
  pub channel_mask : ℕ
  pub format : ℕ

-- STUB_DEFAULT_SAMPLE_RATE, AUDIO_FORMAT_PCM_16_BIT, AUDIO_CHANNEL_OUT_STEREO and AUDIO_CHANNEL_IN_STEREO.
abbrev pub default_sample_rate : ℕ
default_sample_rate = 48000

abbrev pub default_audio_format : ℕ
default_audio_format = 1

abbrev pub output_channel_mask : ℕ
output_channel_mask = 0x3

abbrev pub input_channel_mask : ℕ
input_channel_mask = 0xc

-- STUB_OUTPUT_BUFFER_MILLISECONDS and STUB_INPUT_BUFFER_MILLISECONDS.
abbrev pub output_buffer_milliseconds : ℕ
output_buffer_milliseconds = 10

abbrev pub input_buffer_milliseconds : ℕ
input_buffer_milliseconds = 20

-- `-EPIPE` and `-ENOSYS`.
abbrev pub epipe : ℤ
epipe = negsuc 31

abbrev pub enosys : ℤ
enosys = negsuc 37

-- The audio library: bytes of a frame, channels of a mask, and bytes of a sample of a format.
pub record Sizes : Type 0 where
  pub frame_size : ℕ → ℕ → ℕ
  pub channel_count_from_in_mask : ℕ → ℕ
  pub has_proportional_frames : ℕ → Bool
  pub bytes_per_sample : ℕ → ℕ

unfoldable pub check_output_config : Config → ℤ
check_output_config c =
    if c.sample_rate == default_sample_rate
      && c.format == default_audio_format
      && c.channel_mask == output_channel_mask
    then pos 0
    else einval

unfoldable pub samples_per_milliseconds : ℕ → ℕ → ℕ → ℕ
samples_per_milliseconds milliseconds sample_rate channel_count =
    milliseconds * sample_rate * channel_count % 2 ^ 64 / 1000

-- A value, or the default where it is 0: AUDIO_CHANNEL_NONE, AUDIO_FORMAT_DEFAULT, and no rate.
abbrev pub or_default : ℕ → ℕ → ℕ
or_default n d = if n == 0 then d else n
