-- ===== src/Audio/Input.antt =====
-- The input stream of audio/audio_hw.c, which records silence at the pace of a real one.
pub mod Pacing
pub mod Queries
use hardware_arpi.Base.{
  ℕ, ◌+◌, ◌-◌, ◌*◌, ◌/◌, ◌%◌, ◌^◌, Bool, true, false, not, List, [], ◌∷◌, Option, none, some, ◌==◌,
  ltb, if◌then◌else◌,
}
use hardware_arpi.Base.Int.{ℤ, pos}
use hardware_arpi.Platform.{enomem}
use hardware_arpi.Audio.{
  Config, Sizes, default_sample_rate, default_audio_format, input_channel_mask,
  input_buffer_milliseconds, samples_per_milliseconds, or_default,
}

-- `struct stub_stream_in`.
pub record StreamIn : Type 0 where
  pub last_read_time_us : ℕ
  pub sample_rate : ℕ
  pub channel_mask : ℕ
  pub format : ℕ
  pub frame_count : ℕ

unfoldable pub in_set_sample_rate : StreamIn → ℕ → StreamIn
in_set_sample_rate s rate = record s { sample_rate = rate }

unfoldable pub in_set_format : StreamIn → ℕ → StreamIn
in_set_format s format = record s { format = format }

unfoldable pub in_get_buffer_size : Sizes → StreamIn → ℕ
in_get_buffer_size sizes s = s.frame_count * sizes.frame_size s.format s.channel_mask % 2 ^ 64

unfoldable pub in_standby : StreamIn → StreamIn
in_standby s = record s { last_read_time_us = 0 }

-- How long the sound of the bytes takes, in microseconds.
unfoldable pub read_duration : Sizes → StreamIn → ℕ → ℕ
read_duration sizes s bytes =
    bytes * 1000000 % 2 ^ 64 / sizes.frame_size s.format s.channel_mask / s.sample_rate

-- "we do a full sleep when exiting standby"; otherwise the time since the last read is taken off, and
-- a time that would be negative is 0.
unfoldable pub sleep_time : Sizes → StreamIn → ℕ → ℕ → ℕ
unfolding read_duration
sleep_time sizes s now bytes =
    if s.last_read_time_us == 0
    then read_duration sizes s bytes
    else read_duration sizes s bytes + s.last_read_time_us - now

-- What a read leaves and returns, and for how many microseconds it calls `usleep`, where it does.
pub record InRead : Type 0 where
  pub stream : StreamIn
  pub result : ℕ
  pub slept : Option ℕ

-- The bytes that are read are 0, and all of them are; `now` is what the clock showed.
unfoldable pub in_read : Sizes → StreamIn → ℕ → ℕ → InRead
unfolding sleep_time
in_read sizes s now bytes =
    let t = sleep_time sizes s now bytes in
    record {
      stream = record s { last_read_time_us = now + t };
      result = bytes;
      slept = if ltb 0 t then some t else none;
    }

unfoldable pub adev_open_input_stream : Bool → Config → ℤ × Option StreamIn
unfolding samples_per_milliseconds
adev_open_input_stream allocated c =
    let rate = or_default c.sample_rate default_sample_rate in
    if not allocated then (enomem, none) else (
      pos 0,
      some (record {
        last_read_time_us = 0;
        sample_rate = rate;
        channel_mask = or_default c.channel_mask input_channel_mask;
        format = or_default c.format default_audio_format;
        frame_count = samples_per_milliseconds input_buffer_milliseconds rate 1;
      }),
    )

-- A format without proportional frames gets "an arbitrary size".
unfoldable pub adev_get_input_buffer_size : Sizes → Config → ℕ
unfolding samples_per_milliseconds
adev_get_input_buffer_size sizes c =
    let samples =
      samples_per_milliseconds input_buffer_milliseconds c.sample_rate
        (sizes.channel_count_from_in_mask c.channel_mask) in
    samples
    * (if not (sizes.has_proportional_frames c.format) then 4 else sizes.bytes_per_sample c.format)
    % 2 ^ 64
