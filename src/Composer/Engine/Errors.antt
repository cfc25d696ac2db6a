-- ===== src/Composer/Engine/Errors.antt =====
-- Which command an error of ComposerCommandEngine is reported for.
pub mod Handlers
pub mod Commands
use hardware_arpi.Base.{
  ℕ, suc, ◌+◌, ◌<◌, ◌≤◌, ◌≡◌, refl, Bool, true, false, List, [], ◌∷◌, Option, none, some, inl, inr,
  Bool-cases, if◌then◌else◌, length, arith,
}
use hardware_arpi.Composer.Error.{Error, no_error, is_ok}
use hardware_arpi.Composer.Post.{Drm}
use hardware_arpi.Composer.Device.{Composition}
use hardware_arpi.Composer.Hal.{
  ComposerHal, hal_validate_display, hal_set_client_target, hal_set_layer_composition_type,
  hal_accept_display_changes, hal_present_display,
}
use hardware_arpi.Composer.Engine.{
  validate_result, target_found, report_found, ClientTarget, Buffer, use_cache, raw_handle,
  when_some, when, Resources, Engine, Reply, error_at, changed_composition_types, display_requests,
  client_target_property, present_or_validate_result, present_fence, release_fences, report,
  LayerCommand, DisplayCommand, execute_validate_display, execute_set_client_target,
  execute_set_output_buffer, execute_set_layer_buffer, execute_set_layer_sideband_stream,
  execute_set_layer_composition, execute_accept_display_changes, execute_present_display,
  execute_present_or_validate_display, dispatch_layer_command, dispatch_layers, dispatch_targets,
  dispatch_display_command, dispatch_all, execute,
}

-- Every error is for one of the first `n` commands.
abbrev pub ErrorsBelow : ℕ → List Reply → Type 0
ErrorsBelow n [] = Unit
ErrorsBelow n (error_at i err ∷ rs) = (i < n) × ErrorsBelow n rs
ErrorsBelow n (_ ∷ rs) = ErrorsBelow n rs

pub ErrorsBelow-weaken : (n m : ℕ) (rs : List Reply) → n ≤ m → ErrorsBelow n rs → ErrorsBelow m rs
ErrorsBelow-weaken n m [] l b = tt
ErrorsBelow-weaken n m (error_at i err ∷ rs) l (k, b) =
    (omega (arith, k, l), ErrorsBelow-weaken n m rs l b)
ErrorsBelow-weaken n m (changed_composition_types d c ∷ rs) l b = ErrorsBelow-weaken n m rs l b
ErrorsBelow-weaken n m (display_requests d ∷ rs) l b = ErrorsBelow-weaken n m rs l b
ErrorsBelow-weaken n m (client_target_property d ∷ rs) l b = ErrorsBelow-weaken n m rs l b
ErrorsBelow-weaken n m (present_or_validate_result d ∷ rs) l b = ErrorsBelow-weaken n m rs l b
ErrorsBelow-weaken n m (present_fence d f ∷ rs) l b = ErrorsBelow-weaken n m rs l b
ErrorsBelow-weaken n m (release_fences d ∷ rs) l b = ErrorsBelow-weaken n m rs l b

module _ {ℓ} {R : Type ℓ} where
  -- The engine is at command `i`, and the errors so far are of no later command.
  pub record At (i : ℕ) (e : Engine R) : Type ℓ where
    pub index : e.command_index ≡ i
    pub below : ErrorsBelow (suc i) e.replies

  pub report-At : (i : ℕ) (e : Engine R) (err : Error) → At i e → At i (report e err)
  unfolding report
  report-At i e err a = elim (Bool-cases (is_ok err)) [
    | inl f ↦ rw f a
    | inr f ↦ rw f (record { index = a.index; below = (ground (arith, a.index), a.below) })
  ]

  pub moved-At :
      (i : ℕ) (e : Engine R) (hal : ComposerHal) (r : R)
      → At i e
      → At i (record e { hal = hal; resources = r })
  moved-At i e hal r a = record { index = a.index; below = a.below }
