-- ===== src/Audio/Device.antt =====
-- The device of audio/audio_hw.c: what it answers, and how its mixer is set.
use hardware_arpi.Base.{ℕ, zero, suc, ◌+◌, Bool, not, List, [], ◌∷◌, ◌++◌, if◌then◌else◌}
use hardware_arpi.Base.Int.{ℤ, pos}
use hardware_arpi.Platform.{einval, enomem}
use hardware_arpi.Audio.{enosys}

-- The calls on parameters, volumes and mutes, whose arguments are not read.
pub data DeviceCall : Type 0 where
  adev_set_parameters adev_init_check adev_set_voice_volume adev_set_master_volume : DeviceCall
  adev_get_master_volume adev_set_master_mute adev_get_master_mute adev_set_mode : DeviceCall
  adev_set_mic_mute adev_get_mic_mute : DeviceCall

unfoldable pub device_answer : DeviceCall → ℤ
device_answer adev_init_check = pos 0
device_answer adev_set_mode = pos 0
device_answer _ = enosys

-- The controls that are set by name.
pub data ControlName : Type 0 where
  headphone_playback_volume headphone_playback_switch : ControlName
  other_control : ℕ → ControlName

pub record Control : Type 0 where
  pub name : ControlName
  pub num_values : ℕ

-- A call of `mixer_ctl_set_value`: the control, the index of the value, and the value.
pub record Setting : Type 0 where
  pub control : ℕ
  pub index : ℕ
  pub value : ℕ

-- The values from the index `z` on, `left` of them.
unfoldable pub set_values : ℕ → ℕ → ℕ → ℕ → List Setting
set_values control value z zero = []
set_values control value z (suc left) =
    record { control = control; index = z; value = value } ∷ set_values control value (z + 1) left

unfoldable pub set_control : ℕ → Control → List Setting
unfolding set_values
set_control i c = elim c.name [
  | headphone_playback_volume ↦ set_values i 1200 0 c.num_values
  | headphone_playback_switch ↦ set_values i 1 0 c.num_values
  | other_control n ↦ []
]

-- The controls from the index `i` on.
unfoldable pub set_mixer : ℕ → List Control → List Setting
unfolding set_control
set_mixer i [] = []
set_mixer i (c ∷ cs) = set_control i c ++ set_mixer (i + 1) cs

-- Whether the name is AUDIO_HARDWARE_INTERFACE, and whether `calloc` succeeds.
unfoldable pub adev_open : Bool → Bool → List Control → ℤ × List Setting
unfolding set_mixer
adev_open is_audio_interface allocated controls =
    if not is_audio_interface
    then (einval, [])
    else if not allocated
    then (enomem, [])
    else (pos 0, set_mixer 0 controls)
