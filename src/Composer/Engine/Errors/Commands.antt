-- ===== src/Composer/Engine/Errors/Commands.antt =====
-- The errors in the replies to a list of commands.
use hardware_arpi.Base.{ℕ, suc, ◌+◌, ◌≤◌, ◌≡◌, refl, List, [], ◌∷◌, length, arith}
use hardware_arpi.Composer.Post.{Drm}
use hardware_arpi.Composer.Engine.{
  Resources, Engine, DisplayCommand, dispatch_display_command, dispatch_all, execute,
}
use hardware_arpi.Composer.Engine.Errors.{ErrorsBelow, ErrorsBelow-weaken}
use hardware_arpi.Composer.Engine.Errors.Handlers.{command-At}

all-below {ℓ} :
    {R : Type ℓ} (res : Resources R) (drm : Drm) (e : Engine R) (cs : List DisplayCommand) (n : ℕ)
    → e.command_index + length cs ≡ n
    → ErrorsBelow e.command_index e.replies
    → ErrorsBelow n (dispatch_all res drm e cs).replies
unfolding dispatch_all
all-below res drm e [] n k b = ErrorsBelow-weaken e.command_index n e.replies (omega (arith, k)) b
all-below res drm e (c ∷ cs) n k b =
    let i = e.command_index in
    let e' = dispatch_display_command res drm e c in
    let at =
      command-At res drm i e c
        (record { index = refl; below = ErrorsBelow-weaken i (suc i) e.replies (omega arith) b }) in
    all-below res drm (record e' { command_index = e'.command_index + 1 }) cs n
      (next_index i e'.command_index (length cs) n at.index k)
      (ErrorsBelow-weaken (suc i) (e'.command_index + 1) e'.replies
        (next_bound i e'.command_index at.index) at.below)
  where
    next_index : (i j l m : ℕ) → j ≡ i → i + suc l ≡ m → j + 1 + l ≡ m
    next_index i j l m p q = omega (arith, p, q)

    next_bound : (i j : ℕ) → j ≡ i → suc i ≤ j + 1
    next_bound i j p = omega (arith, p)

-- However the resource manager and the kernel answer, every error in the replies to a list of commands
-- is for a command of the list, and the next list starts without replies.
pub execute-ErrorsBelow {ℓ} :
    {R : Type ℓ} (res : Resources R) (drm : Drm) (e : Engine R) (cs : List DisplayCommand)
    → e.replies ≡ []
    → ErrorsBelow (length cs) (execute res drm e cs).1 × ((execute res drm e cs).0.replies ≡ [])
unfolding execute
execute-ErrorsBelow res drm e cs k = (
  all-below res drm (record e { command_index = 0 }) cs (length cs) (omega arith) (rw k tt),
  refl,
)
