-- ===== src/Audio/Output.antt =====
-- The output stream of audio/audio_hw.c. Each call holds the locks it takes from its first change to
-- its last.
pub mod Pcms
pub mod Queries
pub mod Reports
use hardware_arpi.Base.{
  ℕ, ◌+◌, ◌*◌, ◌/◌, ◌%◌, ◌^◌, Bool, true, false, not, List, [], ◌∷◌, Option, none, some, ◌==◌,
  if◌then◌else◌,
}
use hardware_arpi.Base.Int.{ℤ, pos, negsuc, is_zero}
use hardware_arpi.Base.Ids.{erase}
use hardware_arpi.Platform.{einval, enomem}
use hardware_arpi.Audio.{
  Config, Sizes, default_sample_rate, default_audio_format, output_channel_mask,
  output_buffer_milliseconds, epipe, check_output_config, samples_per_milliseconds, or_default,
}

-- `struct stub_stream_out`, with the PCMs that are open in tinyalsa.
pub record StreamOut : Type 0 where
  pub sample_rate : ℕ
  pub channel_mask : ℕ
  pub format : ℕ
  pub frame_count : ℕ
  pub pcm : Option ℕ
  pub standby : Bool
  pub written : ℕ
  pub open_pcms : List ℕ

-- The answer of `pcm_open`, none for null, with that of `pcm_is_ready`. One that is not ready is
-- closed at once.
unfoldable pub start_output_stream : StreamOut → Option (ℕ × Bool) → StreamOut × ℤ
start_output_stream out none = (record out { pcm = none }, enomem)
start_output_stream out (some (pcm, false)) = (record out { pcm = none }, enomem)
start_output_stream out (some (pcm, true)) =
    (record out { pcm = some pcm; open_pcms = pcm ∷ out.open_pcms }, pos 0)

unfoldable pub out_set_sample_rate : StreamOut → ℕ → StreamOut
out_set_sample_rate out rate = record out { sample_rate = rate }

unfoldable pub out_set_format : StreamOut → ℕ → StreamOut
out_set_format out format = record out { format = format }

unfoldable pub out_get_buffer_size : Sizes → StreamOut → ℕ
out_get_buffer_size sizes out =
    out.frame_count * sizes.frame_size out.format out.channel_mask % 2 ^ 64

-- `pcm_close`.
abbrev close_pcm : StreamOut → Option ℕ → StreamOut
close_pcm out none = out
close_pcm out (some pcm) = record out { open_pcms = erase pcm out.open_pcms }

unfoldable pub out_standby : StreamOut → StreamOut
out_standby out =
    if not out.standby then record (close_pcm out out.pcm) { pcm = none; standby = true } else out

-- What the call returns, and for how many microseconds it sleeps first, where it does.
pub record Write : Type 0 where
  pub stream : StreamOut
  pub result : ℤ
  pub slept : Option ℕ

abbrev is_epipe : ℤ → Bool
is_epipe (pos n) = false
is_epipe (negsuc n) = n == 31

-- "usleep(bytes * 1000000 / frame size / sample rate)"
unfoldable pub write_pause : Sizes → StreamOut → ℕ → ℕ
write_pause sizes out bytes =
    bytes * 1000000 % 2 ^ 64 / sizes.frame_size out.format out.channel_mask / out.sample_rate

-- The end of a write: the status is dropped, and a failed one takes as long as the sound would.
unfoldable pub exit_write : Sizes → StreamOut → ℕ → ℤ → Write
unfolding write_pause
exit_write sizes out bytes ret = record {
  stream = out;
  result = pos bytes;
  slept = if is_zero ret then none else some (write_pause sizes out bytes);
}

-- The stream is running, and `ret` is the answer of `pcm_write`.
unfoldable pub write_pcm : Sizes → StreamOut → ℕ → ℤ → Write
unfolding exit_write
write_pcm sizes out bytes ret =
    let frames = bytes / sizes.frame_size out.format out.channel_mask in
    if is_epipe ret
    then record { stream = out; result = ret; slept = none }
    else if is_zero ret
    then exit_write sizes (record out { written = (out.written + frames) % 2 ^ 64 }) bytes ret
    else exit_write sizes out bytes ret

unfoldable pub out_write : Sizes → StreamOut → ℕ → Option (ℕ × Bool) → ℤ → Write
out_write sizes out bytes opened ret =
    let (started, err) = start_output_stream out opened in
    if out.standby
    then if is_zero err
      then write_pcm sizes (record started { standby = false }) bytes ret
      else exit_write sizes started bytes err
    else write_pcm sizes out bytes ret

-- No position is known: 0 is written and the call fails.
unfoldable pub out_get_render_position : ℤ × ℕ
out_get_render_position = (einval, 0)

-- The fields that the opening sets; the others are 0.
unfoldable pub new_stream_out : Config → StreamOut
unfolding samples_per_milliseconds
new_stream_out c =
    let rate = or_default c.sample_rate default_sample_rate in
    record {
      sample_rate = rate;
      channel_mask = or_default c.channel_mask output_channel_mask;
      format = or_default c.format default_audio_format;
      frame_count = samples_per_milliseconds output_buffer_milliseconds rate 1;
      pcm = none;
      standby = true;
      written = 0;
      open_pcms = [];
    }

-- `calloc` may fail. The stream is none where `*stream_out` is null.
unfoldable pub adev_open_output_stream : Bool → Config → ℤ × Option StreamOut
unfolding check_output_config
adev_open_output_stream allocated c =
    if not (is_zero (check_output_config c))
    then (check_output_config c, none)
    else if not allocated
    then (enomem, none)
    else (pos 0, some (new_stream_out c))

-- The PCMs that are open once the stream is freed.
unfoldable pub adev_close_output_stream : StreamOut → List ℕ
unfolding out_standby
adev_close_output_stream out = (out_standby out).open_pcms
