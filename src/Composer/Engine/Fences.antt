-- ===== src/Composer/Engine/Fences.antt =====
-- The acquire fences of the commands of ComposerCommandEngine: who closes them. A fence is a file
-- descriptor, none for -1. A command owns its fences; a handler may take one out of the command, and
-- what is left in a command is closed with it.
pub mod Closed
use hardware_arpi.Base.{ℕ, ◌+◌, List, [], ◌∷◌, ◌++◌, Option, none, some, if◌then◌else◌}
use hardware_arpi.Composer.Error.{Error, is_ok}
use hardware_arpi.Composer.Post.{Drm}
use hardware_arpi.Composer.Engine.{
  Resources, Engine, Buffer, ClientTarget, LayerCommand, DisplayCommand, use_cache, raw_handle,
  when_some, execute_set_client_target, dispatch_layer_command, dispatch_layers,
  dispatch_display_command,
}

-- The descriptor that is taken, and what is left in its place.
unfoldable pub take_fence : Option ℕ → Option ℕ × Option ℕ
take_fence fence = (fence, none)

-- `if (fence >= 0) { sync_wait(fence, -1); close(fence); }`
unfoldable pub close_fence : Option ℕ → List ℕ
close_fence none = []
close_fence (some fd) = fd ∷ []

-- What a handler closes, and the fence that it leaves in the command.
pub record Handled : Type 0 where
  pub closed : List ℕ
  pub left : Option ℕ

unfoldable pub taken : Option ℕ → Handled
unfolding take_fence close_fence
taken f = let (fence, left) = take_fence f in record { closed = close_fence fence; left = left }

abbrev pub untouched : Option ℕ → Handled
untouched f = record { closed = []; left = f }

-- A layer command, with the fence of its buffer where it has one.
pub record FencedLayer : Type 0 where
  pub command : LayerCommand
  pub fence : Option ℕ

-- A display command, whose own list of layers is that of `fenced_layers`.
pub record FencedCommand : Type 0 where
  pub command : DisplayCommand
  pub fenced_layers : List FencedLayer
  pub target_fence : Option ℕ
  pub output_fence : Option ℕ

-- The commands that the engine runs.
unfoldable pub layer_commands : List FencedLayer → List LayerCommand
layer_commands [] = []
layer_commands (l ∷ ls) = l.command ∷ layer_commands ls

abbrev pub plain : FencedCommand → DisplayCommand
plain c = record c.command { layers = layer_commands c.fenced_layers }

-- What the handlers close, and the fences that are left in the commands.
pub record Fences : Type 0 where
  pub all_closed : List ℕ
  pub all_left : List (Option ℕ)

abbrev pub no_fences : Fences
no_fences = record { all_closed = []; all_left = [] }

abbrev pub one_more : Handled → Fences → Fences
one_more h fs = record { all_closed = h.closed ++ fs.all_closed; all_left = h.left ∷ fs.all_left }

abbrev pub both : Fences → Fences → Fences
both fs gs = record {
  all_closed = fs.all_closed ++ gs.all_closed;
  all_left = fs.all_left ++ gs.all_left;
}

module _ {ℓ} {R : Type ℓ} (res : Resources R) (drm : Drm) where
  -- The fence of a layer's buffer is taken where the buffer is found.
  unfoldable pub layer_buffer_fence : Engine R → ℕ → ℕ → Option ℕ → Buffer → Handled
  unfolding taken
  layer_buffer_fence e display layer f b =
      let (r, err, found) =
        res.get_layer_buffer e.resources display layer b.slot (use_cache b) (raw_handle b) in
      if is_ok err then taken f else untouched f

  unfoldable pub output_buffer_fence : Engine R → ℕ → Option ℕ → Buffer → Handled
  unfolding taken
  output_buffer_fence e display f b =
      let (r, err, found) =
        res.get_display_output_buffer e.resources display b.slot (use_cache b) (raw_handle b) in
      if is_ok err then taken f else untouched f

  -- ComposerHal takes the fence, and Hwc2Device closes it before it looks at the display.
  unfoldable pub client_target_fence : Engine R → ℕ → Option ℕ → ClientTarget → Handled
  unfolding taken
  client_target_fence e display f t =
      let b = t.buffer in
      let (r, err, found) =
        res.get_display_client_target e.resources display b.slot (use_cache b) (raw_handle b) in
      if is_ok err then taken f else untouched f

  -- Where the command has the field.
  abbrev pub fence_of {ℓ'} : {A : Type ℓ'} → Option A → (A → Handled) → Fences → Fences
  fence_of none f rest = rest
  fence_of (some a) f rest = one_more (f a) rest

  unfoldable pub layer_fences : ℕ → Engine R → List FencedLayer → Fences
  layer_fences display e [] = no_fences
  layer_fences display e (l ∷ ls) =
      let c = l.command in
      fence_of c.buffer (layer_buffer_fence e display c.layer l.fence)
        (layer_fences display (dispatch_layer_command res drm display e c) ls)

  unfoldable pub command_fences : Engine R → FencedCommand → Fences
  unfolding layer_fences
  command_fences e w =
      let c = w.command in
      let display = c.display in
      let e1 = dispatch_layers res drm display e (layer_commands w.fenced_layers) in
      let e2 =
        when_some res drm c.client_target (λ d t. execute_set_client_target res drm d display t)
          e1 in
      both (layer_fences display e w.fenced_layers) (
        fence_of c.client_target (client_target_fence e1 display w.target_fence) (
          fence_of c.virtual_display_output_buffer (output_buffer_fence e2 display w.output_fence)
            no_fences))

  unfoldable pub execute_fences : Engine R → List FencedCommand → Fences
  execute_fences e [] = no_fences
  execute_fences e (w ∷ ws) =
      let e' = dispatch_display_command res drm e (plain w) in
      both (command_fences e w)
        (execute_fences (record e' { command_index = e'.command_index + 1 }) ws)

-- The commands go, and with them the fences that are left in them.
unfoldable pub close_all : List (Option ℕ) → List ℕ
unfolding close_fence
close_all [] = []
close_all (f ∷ fs) = close_fence f ++ close_all fs
