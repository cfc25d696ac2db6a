-- ===== src/Composer/Device/Protocol/Traces.antt =====
-- What came before a present that succeeds, over the sequences of calls on Hwc2Device.
use hardware_arpi.Base.{
  ℕ, ◌≡◌, ◌≢◌, refl, Bool, true, false, List, [], ◌∷◌, arith, inl, inr, Bool-cases, ltb, ◌==◌,
  length, ◌⊎◌,
}
use hardware_arpi.Base.Ids.{contains}
use hardware_arpi.Composer.Error.{Error, is_display, no_error}
use hardware_arpi.Composer.Post.{Drm, Context, Memory}
use hardware_arpi.Composer.Device.{
  Device, State, Info, Composition, is_state, modified, validated, validated_with_changes,
  create_layer, destroy_layer, set_client_target, validate_display, present_display,
  accept_display_changes, set_layer_composition_type, new_device, remove_layer, mark_layer_dirty,
}
use hardware_arpi.Composer.Device.Calls.{
  Call, creates, destroys, sets_target, validates, presents, accepts, sets_type, step, run,
  changes_layers,
}

-- The calls that make the display presentable where they return no error.
abbrev pub settles : Call → Bool
settles (validates display) = true
settles (accepts display) = true
settles _ = false

-- No call of the sequence changes the layers and succeeds.
abbrev pub NoChange : Device → List Call → Type 0
NoChange d [] = Unit
NoChange d (c ∷ cs) = (changes_layers c ≡ true → (step d c).1 ≢ no_error) × NoChange (step d c).0 cs

-- Some call of the sequence validates or accepts without an error, and no later one changes layers
-- and succeeds.
abbrev pub Settled : Device → List Call → Type 0
Settled d [] = ⊥
Settled d (c ∷ cs) =
    ((settles c ≡ true) × ((step d c).1 ≡ no_error) × NoChange (step d c).0 cs)
    ⊎ Settled (step d c).0 cs

-- What a call does to the state, by its answer.
abbrev Moves : Device → Call → Device × Error → Type 0
Moves d c (d', error) =
    (d'.state ≡ validated)
    → ((d.state ≡ validated) × (changes_layers c ≡ true → error ≢ no_error))
      ⊎ ((settles c ≡ true) × (error ≡ no_error))

create-Moves : (d : Device) (q : ℕ) → Moves d (creates q) (step d (creates q))
unfolding step create_layer
create-Moves d q = elim (Bool-cases (is_display q)) [
  | inl e ↦ rw e (λ s. ground (arith, s))
  | inr e ↦ rw e (λ s. inl (s, λ k. ground arith))
]

destroy-Moves : (d : Device) (q layer : ℕ) → Moves d (destroys q layer) (step d (destroys q layer))
unfolding step destroy_layer remove_layer
destroy-Moves d q layer = elim (Bool-cases (is_display q)) [
  | inr e ↦ rw e (λ s. inl (s, λ k. ground arith))
  | inl e ↦ elim (Bool-cases (contains layer d.layers)) [
    | inl f ↦ rw (e, f) (λ s. ground (arith, s))
    | inr f ↦ rw (e, f) (λ s. inl (s, λ k. ground arith))
  ]
]

set_type-Moves :
    (d : Device) (q layer : ℕ) (type : Composition)
    → Moves d (sets_type q layer type) (step d (sets_type q layer type))
unfolding step set_layer_composition_type mark_layer_dirty
set_type-Moves d q layer type = elim (Bool-cases (is_display q)) [
  | inr e ↦ rw e (λ s. inl (s, λ k. ground arith))
  | inl e ↦ elim (Bool-cases (contains layer d.layers)) [
    | inl f ↦ rw (e, f) (λ s. ground (arith, s))
    | inr f ↦ rw (e, f) (λ s. inl (s, λ k. ground arith))
  ]
]

set_target-Moves :
    (d : Device) (q t n : ℕ) → Moves d (sets_target q t n) (step d (sets_target q t n))
unfolding step set_client_target
set_target-Moves d q t n = elim (Bool-cases (is_display q)) [
  | inr e ↦ rw e (λ s. inl (s, λ k. ground (arith, k)))
  | inl e ↦ elim (Bool-cases (n == 0)) [
    | inl f ↦ rw (e, f) (λ s. inl (s, λ k. ground (arith, k)))
    | inr f ↦ rw (e, f) (λ s. inl (s, λ k. ground (arith, k)))
  ]
]

validate-Moves : (d : Device) (q : ℕ) → Moves d (validates q) (step d (validates q))
unfolding step validate_display
validate-Moves d q = elim (Bool-cases (is_display q)) [
  | inr e ↦ rw e (λ s. inl (s, λ k. ground (arith, k)))
  | inl e ↦ elim (Bool-cases (ltb 0 (length d.dirty_layers))) [
    | inl f ↦ rw (e, f) (λ s. ground (arith, s))
    | inr f ↦ rw (e, f) (λ s. inr (refl, refl))
  ]
]

present-Moves :
    (drm : Drm) (d : Device) (q : ℕ) → Moves d (presents drm q) (step d (presents drm q))
unfolding step present_display
present-Moves drm d q = elim (Bool-cases (is_display q)) [
  | inr e ↦ rw e (λ s. inl (s, λ k. ground (arith, k)))
  | inl e ↦ elim (Bool-cases (is_state d.state validated)) [
    | inl f ↦ rw (e, f) (λ s. inl (s, λ k. ground (arith, k)))
    | inr f ↦ rw (e, f) (λ s. inl (s, λ k. ground (arith, k)))
  ]
]

accept-Moves : (d : Device) (q : ℕ) → Moves d (accepts q) (step d (accepts q))
unfolding step accept_display_changes
accept-Moves d q = elim (Bool-cases (is_display q)) [
  | inr e ↦ rw e (λ s. inl (s, λ k. ground (arith, k)))
  | inl e ↦ elim (Bool-cases (is_state d.state modified)) [
    | inl f ↦ rw (e, f) (λ s. inl (s, λ k. ground (arith, k)))
    | inr f ↦ rw (e, f) (λ s. inr (refl, refl))
  ]
]

step-Moves : (d : Device) (c : Call) → Moves d c (step d c)
step-Moves d (creates q) = create-Moves d q
step-Moves d (destroys q layer) = destroy-Moves d q layer
step-Moves d (sets_type q layer type) = set_type-Moves d q layer type
step-Moves d (sets_target q t n) = set_target-Moves d q t n
step-Moves d (validates q) = validate-Moves d q
step-Moves d (presents drm q) = present-Moves drm d q
step-Moves d (accepts q) = accept-Moves d q

run_validated :
    (d : Device) (cs : List Call)
    → (run d cs).state ≡ validated
    → ((d.state ≡ validated) × NoChange d cs) ⊎ Settled d cs
unfolding run
run_validated d [] s = inl (s, tt)
run_validated d (c ∷ cs) s = elim (run_validated (step d c).0 cs s) [
  | inr later ↦ inr (inr later)
  | inl (now, quiet) ↦ elim (step-Moves d c now) [
    | inl (before, kept) ↦ inl (before, (kept, quiet))
    | inr (k, ok) ↦ inr (inl (k, ok, quiet))
  ]
]

is_state_validated : (s : State) → is_state s validated ≡ true → s ≡ validated
is_state_validated validated f = refl
is_state_validated modified f = ground (arith, f)
is_state_validated validated_with_changes f = ground (arith, f)

presented_state :
    (drm : Drm) (d : Device) (display : ℕ)
    → (step d (presents drm display)).1 ≡ no_error
    → d.state ≡ validated
unfolding step present_display
presented_state drm d display ok = elim (Bool-cases (is_display display)) [
  | inr e ↦ ground (arith, rw e at ok)
  | inl e ↦ elim (Bool-cases (is_state d.state validated)) [
    | inl f ↦ is_state_validated d.state f
    | inr f ↦ ground (arith, rw (e, f) at ok)
  ]
]

-- Whenever, after some calls on a new device, presenting returns no error, one of those calls was a
-- validation or an acceptance that returned no error, and no call after it changed the layers.
pub present_needs_validation :
    (info : Info) (k : Context) (m : Memory) (cs : List Call) (drm : Drm) (display : ℕ)
    → (step (run (new_device info k m) cs) (presents drm display)).1 ≡ no_error
    → Settled (new_device info k m) cs
present_needs_validation info k m cs drm display ok =
    elim (run_validated _ cs (presented_state drm _ display ok)) [
      | inl (now, quiet) ↦ ground (arith, now)
      | inr settled ↦ settled
    ]
