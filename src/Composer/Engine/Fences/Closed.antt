-- ===== src/Composer/Engine/Fences/Closed.antt =====
-- How often the fences of a list of commands are closed.
use hardware_arpi.Base.{
  ℕ, ◌+◌, ◌≡◌, Bool, true, false, List, [], ◌∷◌, ◌++◌, Option, none, some, arith, if◌then◌else◌,
}
use hardware_arpi.Base.Ids.{count, count-append}
use hardware_arpi.Composer.Post.{Drm}
use hardware_arpi.Composer.Engine.{
  Resources, Engine, Buffer, ClientTarget, when_some, execute_set_client_target,
  dispatch_layer_command, dispatch_layers, dispatch_display_command,
}
use hardware_arpi.Composer.Engine.Fences.{
  Handled, Fences, FencedLayer, FencedCommand, taken, untouched, close_fence, close_all, fence_of,
  both, no_fences, plain, layer_commands, layer_buffer_fence, output_buffer_fence,
  client_target_fence, layer_fences, command_fences, execute_fences,
}

-- The fences that a command has where it has the field.
abbrev pub fences_with {ℓ} : {A : Type ℓ} → Option A → Option ℕ → List ℕ
fences_with none f = []
fences_with (some a) f = close_fence f

abbrev pub fences_of_layers : List FencedLayer → List ℕ
fences_of_layers [] = []
fences_of_layers (l ∷ ls) = fences_with l.command.buffer l.fence ++ fences_of_layers ls

abbrev pub fences_of_command : FencedCommand → List ℕ
fences_of_command w =
    fences_of_layers w.fenced_layers
    ++ (fences_with w.command.client_target w.target_fence
        ++ fences_with w.command.virtual_display_output_buffer w.output_fence)

abbrev pub fences_of : List FencedCommand → List ℕ
fences_of [] = []
fences_of (w ∷ ws) = fences_of_command w ++ fences_of ws

-- How often a descriptor is closed, by a handler or with its command.
abbrev pub closings : ℕ → Fences → ℕ
closings fd fs = count fd fs.all_closed + count fd (close_all fs.all_left)

close_all-append :
    (fd : ℕ) (fs gs : List (Option ℕ))
    → count fd (close_all (fs ++ gs)) ≡ count fd (close_all fs) + count fd (close_all gs)
unfolding close_all count
close_all-append fd [] gs = omega arith
close_all-append fd (f ∷ fs) gs = ground (
  arith,
  close_all-append fd fs gs,
  count-append fd (close_fence f) (close_all (fs ++ gs)),
  count-append fd (close_fence f) (close_all fs),
)

closings-both :
    (fd : ℕ) (fs gs : Fences) → closings fd (both fs gs) ≡ closings fd fs + closings fd gs
closings-both fd fs gs = omega (
  arith,
  count-append fd fs.all_closed gs.all_closed,
  close_all-append fd fs.all_left gs.all_left,
)

nothing_closed : (fd : ℕ) → closings fd no_fences ≡ count fd []
unfolding close_all count
nothing_closed fd = omega arith

-- A handler closes the fence or leaves it.
abbrev Once : Handled → Option ℕ → Type 0
Once h f = (fd : ℕ) → count fd h.closed + count fd (close_fence h.left) ≡ count fd (close_fence f)

-- On both branches of a handler.
either-Once : (ok : Bool) (f : Option ℕ) → Once (if ok then taken f else untouched f) f
unfolding taken close_fence count
either-Once true f fd = omega arith
either-Once false f fd = omega arith

module _ {ℓ} {R : Type ℓ} (res : Resources R) (drm : Drm) where
  layer-Once :
      (e : Engine R) (display layer : ℕ) (f : Option ℕ) (b : Buffer)
      → Once (layer_buffer_fence res drm e display layer f b) f
  unfolding layer_buffer_fence
  layer-Once e display layer f b = either-Once _ f

  output-Once :
      (e : Engine R) (display : ℕ) (f : Option ℕ) (b : Buffer)
      → Once (output_buffer_fence res drm e display f b) f
  unfolding output_buffer_fence
  output-Once e display f b = either-Once _ f

  target-Once :
      (e : Engine R) (display : ℕ) (f : Option ℕ) (t : ClientTarget)
      → Once (client_target_fence res drm e display f t) f
  unfolding client_target_fence
  target-Once e display f t = either-Once _ f

  fence_of-closings :
      {A : Type 0} (o : Option A) (h : A → Handled) (f : Option ℕ) (rest : Fences) (fd : ℕ)
      → ((a : A) → Once (h a) f)
      → closings fd (fence_of res drm o h rest) ≡ count fd (fences_with o f) + closings fd rest
  unfolding close_all count
  fence_of-closings none h f rest fd once = omega arith
  fence_of-closings (some a) h f rest fd once = omega (
    arith,
    once a fd,
    count-append fd (h a).closed rest.all_closed,
    count-append fd (close_fence (h a).left) (close_all rest.all_left),
  )

  layer_fences-closings :
      (display : ℕ) (e : Engine R) (ls : List FencedLayer) (fd : ℕ)
      → closings fd (layer_fences res drm display e ls) ≡ count fd (fences_of_layers ls)
  unfolding layer_fences close_all count
  layer_fences-closings display e [] fd = omega arith
  layer_fences-closings display e (l ∷ ls) fd =
      let c = l.command in
      let e' = dispatch_layer_command res drm display e c in
      omega (
        arith,
        fence_of-closings c.buffer _ l.fence (layer_fences res drm display e' ls) fd
            (layer-Once e display c.layer l.fence),
        layer_fences-closings display e' ls fd,
        count-append fd (fences_with c.buffer l.fence) (fences_of_layers ls),
      )

  command_fences-closings :
      (e : Engine R) (w : FencedCommand) (fd : ℕ)
      → closings fd (command_fences res drm e w) ≡ count fd (fences_of_command w)
  unfolding command_fences count
  command_fences-closings e w fd =
      let c = w.command in
      let display = c.display in
      let e1 = dispatch_layers res drm display e (layer_commands w.fenced_layers) in
      let e2 =
        when_some res drm c.client_target (λ d t. execute_set_client_target res drm d display t)
          e1 in
      let output =
        fence_of res drm c.virtual_display_output_buffer
          (output_buffer_fence res drm e2 display w.output_fence) no_fences in
      let target =
        fence_of res drm c.client_target (client_target_fence res drm e1 display w.target_fence)
          output in
      omega (
        arith,
        closings-both fd (layer_fences res drm display e w.fenced_layers) target,
        layer_fences-closings display e w.fenced_layers fd,
        fence_of-closings c.client_target _ w.target_fence output fd
            (target-Once e1 display w.target_fence),
        fence_of-closings c.virtual_display_output_buffer _ w.output_fence no_fences fd
            (output-Once e2 display w.output_fence),
        nothing_closed fd,
        count-append fd (fences_of_layers w.fenced_layers) (
            fences_with c.client_target w.target_fence
            ++ fences_with c.virtual_display_output_buffer w.output_fence),
        count-append fd (fences_with c.client_target w.target_fence)
            (fences_with c.virtual_display_output_buffer w.output_fence),
      )

  -- However the resource manager and the kernel answer, every acquire fence of a list of commands is
  -- closed exactly as often as it stands in the list: none is left open and none is closed again,
  -- whether a handler takes it or an error leaves it in its command.
  pub execute_fences-closings :
      (e : Engine R) (ws : List FencedCommand) (fd : ℕ)
      → closings fd (execute_fences res drm e ws) ≡ count fd (fences_of ws)
  unfolding execute_fences
  execute_fences-closings e [] fd = nothing_closed fd
  execute_fences-closings e (w ∷ ws) fd =
      let e' = dispatch_display_command res drm e (plain w) in
      let e'' = record e' { command_index = e'.command_index + 1 } in
      omega (
        arith,
        closings-both fd (command_fences res drm e w) (execute_fences res drm e'' ws),
        command_fences-closings e w fd,
        execute_fences-closings e'' ws fd,
        count-append fd (fences_of_command w) (fences_of ws),
      )
