-- ===== src/Audio/Output/Reports.antt =====
-- What an output stream reports once it is opened.
use hardware_arpi.Base.{
  ◌*◌, ◌≡◌, refl, Bool, true, Option, none, some, ◌==◌, ◌&&◌, ap, arith, inl, inr, Bool-cases,
}
use hardware_arpi.Base.Int.{pos, is_zero}
use hardware_arpi.Audio.{
  Config, default_sample_rate, default_audio_format, output_channel_mask, check_output_config,
  samples_per_milliseconds,
}
use hardware_arpi.Audio.Output.{StreamOut, new_stream_out, adev_open_output_stream}
use hardware_arpi.Audio.Output.Queries.{
  out_get_sample_rate, out_get_channels, out_get_format, out_get_latency,
}

-- The stream tells the rate, the channels and the format it was opened with, and its latency is the
-- time that the frames of its buffer take.
abbrev pub IsReported : Config → StreamOut → Type 0
IsReported c out =
    (out_get_sample_rate out ≡ c.sample_rate)
    × (out_get_channels out ≡ c.channel_mask)
    × (out_get_format out ≡ c.format)
    × (out_get_latency * out_get_sample_rate out ≡ out.frame_count * 1000)

abbrev is_accepted : Config → Bool
is_accepted c =
    c.sample_rate == default_sample_rate
    && c.format == default_audio_format
    && c.channel_mask == output_channel_mask

accepted-IsReported : (c : Config) → is_accepted c ≡ true → IsReported c (new_stream_out c)
unfolding new_stream_out out_get_sample_rate out_get_channels out_get_format out_get_latency
    samples_per_milliseconds
accepted-IsReported c e =
    let rate : c.sample_rate ≡ 48000 = ground (arith, e) in
    let format : c.format ≡ 1 = ground (arith, e) in
    let mask : c.channel_mask ≡ 3 = ground (arith, e) in
    rw (rate, format, mask) (refl, refl, refl, refl)

stream_or : StreamOut → Option StreamOut → StreamOut
stream_or d none = d
stream_or d (some out) = out

-- An opening that succeeds accepted the configuration and made a new stream of it.
pub opened_new :
    (allocated : Bool) (c : Config) (out : StreamOut)
    → adev_open_output_stream allocated c ≡ (pos 0, some out)
    → (is_zero (check_output_config c) ≡ true) × (new_stream_out c ≡ out)
unfolding adev_open_output_stream stream_or
opened_new allocated c out e = elim (Bool-cases (is_zero (check_output_config c))) [
  | inr z ↦ absurd (ground (arith, rw z at e))
  | inl z ↦ elim (Bool-cases allocated) [
    | inr a ↦ absurd (ground (arith, rw (z, a) at e))
    | inl a ↦ let e' = (rw (z, a) at e) in (z, ap (λ r. stream_or (new_stream_out c) r.1) e')
  ]
]

zero-is_accepted : (c : Config) → is_zero (check_output_config c) ≡ true → is_accepted c ≡ true
unfolding check_output_config
zero-is_accepted c z = elim (Bool-cases (is_accepted c)) [
  | inl e ↦ e
  | inr e ↦ absurd (ground (arith, rw e at z))
]

-- An output stream whose opening succeeds reports the rate, the channels and the format that were
-- asked for, and as its latency the time that the frames of its buffer take.
pub open_output_stream-IsReported :
    (allocated : Bool) (c : Config) (out : StreamOut)
    → adev_open_output_stream allocated c ≡ (pos 0, some out)
    → IsReported c out
open_output_stream-IsReported allocated c out e =
    let (z, same) = opened_new allocated c out e in
    rw⁻¹ same (accepted-IsReported c (zero-is_accepted c z))
