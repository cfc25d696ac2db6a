-- ===== src/Examples/Sounds.antt =====
-- The audio HAL with a card that opens once and then is busy; and the memtrack HAL.
use hardware_arpi.Base.{◌≤◌, ◌≡◌, refl, true, false, List, [], ◌∷◌, none, some, length}
use hardware_arpi.Base.Int.{pos, negsuc}
use hardware_arpi.Audio.{Config, Sizes, epipe}
use hardware_arpi.Audio.Output.{
  StreamOut, start_output_stream, write_pcm, out_write, new_stream_out, adev_open_output_stream,
  adev_close_output_stream,
}
use hardware_arpi.Audio.Output.Pcms.{Call, writes, stands_by, call_all, calls_leak_nothing}
use hardware_arpi.Memtrack.{rpi_memtrack_init}
use hardware_arpi.Audio.Output.Reports.{IsReported, open_output_stream-IsReported}
use hardware_arpi.Audio.Input.{StreamIn, in_read, adev_get_input_buffer_size}
use hardware_arpi.Audio.Input.Pacing.{Read}
use hardware_arpi.Audio.Device.{headphone_playback_volume, other_control, adev_open}

-- 16 bits in two channels.
abbrev stereo : Sizes
stereo = record {
  frame_size = λ format mask. 4;
  channel_count_from_in_mask = λ mask. 2;
  has_proportional_frames = λ format. true;
  bytes_per_sample = λ format. 2;
}

abbrev music : Config
music = record { sample_rate = 48000; channel_mask = 3; format = 1 }

abbrev opened_stream : StreamOut
opened_stream = new_stream_out music

-- A write opens the card, a second one uses it; after standby the card is busy.
abbrev played : List Call
played =
    writes 1920 (some (7, true)) (pos 0)
    ∷ writes 1920 none (pos 0)
    ∷ stands_by
    ∷ writes 1920 (some (8, false)) (pos 0)
    ∷ []

frames_counted :
    ((call_all stereo opened_stream played).written ≡ 960)
    × ((out_write stereo opened_stream 1920 none (pos 0)).slept ≡ some 10000)
    × ((out_write stereo opened_stream 1920 (some (7, true)) epipe).result ≡ epipe)
unfolding call_all out_write new_stream_out start_output_stream write_pcm
frames_counted = (refl, refl, refl)

-- A rate of 0 is refused before it would be replaced by the default.
no_rate : adev_open_output_stream true (record music { sample_rate = 0 }) ≡ (negsuc 21, none)
unfolding adev_open_output_stream
no_rate = refl

calls_leak_nothing_example :
    (length (call_all stereo opened_stream played).open_pcms ≤ 1)
    × (adev_close_output_stream (call_all stereo opened_stream played) ≡ [])
unfolding adev_open_output_stream
calls_leak_nothing_example = calls_leak_nothing stereo true music opened_stream played refl

abbrev microphone : StreamIn
microphone = record {
  last_read_time_us = 0;
  sample_rate = 48000;
  channel_mask = 12;
  format = 1;
  frame_count = 960;
}

-- The first read, one that comes back at once, and one much too late, which does not sleep.
abbrev first_read : Read
first_read = record { now = 10000; bytes = 3840; ended = 30005 }

abbrev reads : List Read
reads =
    record { now = 30005; bytes = 3840; ended = 50000 }
    ∷ record { now = 90000; bytes = 3840; ended = 90001 }
    ∷ []

paced :
    ((in_read stereo microphone 10000 3840).slept ≡ some 20000)
    × ((in_read stereo (in_read stereo microphone 10000 3840).stream 30005 3840).slept ≡ some 19995)
unfolding in_read
paced = (refl, refl)

input_size : adev_get_input_buffer_size stereo music ≡ 3840
unfolding adev_get_input_buffer_size
input_size = refl

mixer_set :
    adev_open true true (
      record { name = other_control 1; num_values = 2 }
      ∷ record { name = headphone_playback_volume; num_values = 2 }
      ∷ [])
    ≡ (
      pos 0,
      record { control = 1; index = 0; value = 1200 }
          ∷ record { control = 1; index = 1; value = 1200 }
          ∷ [],
    )
unfolding adev_open
mixer_set = refl

music_told : IsReported music opened_stream
unfolding adev_open_output_stream
music_told = open_output_stream-IsReported true music opened_stream refl

memtrack_started : (rpi_memtrack_init true ≡ pos 0) × (rpi_memtrack_init false ≡ negsuc 0)
unfolding rpi_memtrack_init
memtrack_started = (refl, refl)
