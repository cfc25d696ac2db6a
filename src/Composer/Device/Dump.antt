-- ===== src/Composer/Device/Dump.antt =====
-- Hwc2Device::dump of graphics/composer/aidl/Hwc2Device.cpp, which is called without a buffer and then
-- with one.
use hardware_arpi.Base.{ℕ, Bool, List, [], ◌∷◌, ◌%◌, ◌^◌, length, take, if◌then◌else◌}

-- "-- hwc-v3d --\n".
abbrev pub device_banner : List ℕ
device_banner = 45 ∷ 45 ∷ 32 ∷ 104 ∷ 119 ∷ 99 ∷ 45 ∷ 118 ∷ 51 ∷ 100 ∷ 32 ∷ 45 ∷ 45 ∷ 10 ∷ []

-- `mDumpString` afterwards, the size, and what is copied to the buffer.
pub record Dump : Type 0 where
  pub dump_string : List ℕ
  pub size : ℕ
  pub copied : List ℕ

unfoldable pub dump : List ℕ → ℕ → Bool → Dump
dump dump_string size has_buffer =
    let bytes = take size dump_string in
    if has_buffer
    then record { dump_string = dump_string; size = length bytes % 2 ^ 32; copied = bytes }
    else record { dump_string = device_banner; size = length device_banner % 2 ^ 32; copied = [] }
