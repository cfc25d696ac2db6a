-- ===== src/Audio/Input/Queries.antt =====
-- What the input stream of audio/audio_hw.c tells about itself, and the calls it only acknowledges.
use hardware_arpi.Base.{ℕ, List, []}
use hardware_arpi.Base.Int.{ℤ, pos}
use hardware_arpi.Audio.Input.{StreamIn}

unfoldable pub in_get_sample_rate : StreamIn → ℕ
in_get_sample_rate s = s.sample_rate

unfoldable pub in_get_channels : StreamIn → ℕ
in_get_channels s = s.channel_mask

unfoldable pub in_get_format : StreamIn → ℕ
in_get_format s = s.format

-- The calls whose arguments are not read. The text that in_get_parameters returns is empty.
pub data InCall : Type 0 where
  in_dump in_set_parameters : InCall

unfoldable pub in_answer : InCall → ℤ
in_answer _ = pos 0

unfoldable pub in_get_parameters : List ℕ
in_get_parameters = []

unfoldable pub in_set_gain : ℤ
in_set_gain = pos 0

pub data InEffectCall : Type 0 where
  in_add_audio_effect in_remove_audio_effect : InEffectCall

unfoldable pub in_effect_answer : InEffectCall → ℤ
in_effect_answer _ = pos 0

unfoldable pub in_get_input_frames_lost : ℕ
in_get_input_frames_lost = 0
