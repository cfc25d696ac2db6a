-- ===== src/Composer/Error.antt =====
-- The error codes of hwcomposer2.h, which the composer interfaces share; `no_error` is
-- HWC2_ERROR_NONE, whose value is 0.
use hardware_arpi.Base.{ℕ, Bool, true, false, ◌==◌, ◌||◌}

pub data Error : Type 0 where
  no_error bad_config bad_display bad_layer bad_parameter has_changes : Error
  no_resources not_validated unsupported : Error
  other_error : ℕ → Error

-- `if (err)` negated.
abbrev pub is_ok : Error → Bool
is_ok no_error = true
is_ok _ = false

-- The negation of `0 != displayId && 1 != displayId`.
abbrev pub is_display : ℕ → Bool
is_display d = d == 0 || d == 1
