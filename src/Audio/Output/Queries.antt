-- ===== src/Audio/Output/Queries.antt =====
-- What the output stream of audio/audio_hw.c tells about itself, and the calls it only acknowledges.
use hardware_arpi.Base.{ℕ, List, []}
use hardware_arpi.Base.Int.{ℤ, pos}
use hardware_arpi.Platform.{einval}
use hardware_arpi.Audio.{output_buffer_milliseconds}
use hardware_arpi.Audio.Output.{StreamOut}

unfoldable pub out_get_sample_rate : StreamOut → ℕ
out_get_sample_rate out = out.sample_rate

unfoldable pub out_get_channels : StreamOut → ℕ
out_get_channels out = out.channel_mask

unfoldable pub out_get_format : StreamOut → ℕ
out_get_format out = out.format

-- In milliseconds.
unfoldable pub out_get_latency : ℕ
out_get_latency = output_buffer_milliseconds

-- The calls whose arguments are not read. The text that out_get_parameters returns is empty.
pub data OutCall : Type 0 where
  out_dump out_set_parameters : OutCall

unfoldable pub out_answer : OutCall → ℤ
out_answer _ = pos 0

unfoldable pub out_get_parameters : List ℕ
out_get_parameters = []

unfoldable pub out_set_volume : ℤ
out_set_volume = pos 0

pub data OutEffectCall : Type 0 where
  out_add_audio_effect out_remove_audio_effect : OutEffectCall

unfoldable pub out_effect_answer : OutEffectCall → ℤ
out_effect_answer _ = pos 0

-- The result, and the timestamp that is written.
unfoldable pub out_get_next_write_timestamp : ℤ × ℕ
out_get_next_write_timestamp = (einval, 0)
