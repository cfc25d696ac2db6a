-- ===== src/Composer/Device/Layers/Steps.antt =====
-- The calls on Hwc2Device, and sequences of calls, by its layer sets.
use hardware_arpi.Base.{
  ℕ, ◌≡◌, refl, Bool, true, false, List, [], ◌∷◌, arith, inl, inr, Bool-cases, ltb, ◌==◌, not,
  length, if◌then◌else◌,
}
use hardware_arpi.Base.Ids.{contains, insert, erase, Distinct-insert, Distinct-erase}
use hardware_arpi.Composer.Error.{is_display}
use hardware_arpi.Composer.Post.{Request, Drm, Context, Memory}
use hardware_arpi.Composer.Device.{
  Device, State, Info, Composition, is_state, is_client, modified, validated,
  validated_with_changes, create_layer, destroy_layer, set_client_target, validate_display,
  present_display, accept_display_changes, set_layer_composition_type, new_device, add_layer,
  remove_layer, mark_layer_dirty, set_state,
}
use hardware_arpi.Composer.Device.Calls.{
  Call, creates, destroys, sets_target, validates, presents, accepts, sets_type, step, run,
}
use hardware_arpi.Composer.Device.Layers.{
  Within, Promises, IsValid, Within-insert, Within-insert_known, Within-erase, Within-erase_one,
}

-- Where the layers stay, what the state promises is enough.
keep_layers :
    (d : Device) (s : State) (buffer : ℕ) (c : Context) (m : Memory) (asked : List Request)
    → IsValid d
    → Promises s d.dirty_layers
    → IsValid (record d { state = s; buffer = buffer; context = c; memory = m; requests = asked })
keep_layers d s buffer c m asked v p = record {
  distinct = v.distinct;
  distinct_dirty = v.distinct_dirty;
  within = v.within;
  promise = p;
}

add_layer-IsValid : (d : Device) → IsValid d → IsValid (set_state (add_layer d).0 modified)
unfolding add_layer
add_layer-IsValid d v = record {
  distinct = Distinct-insert _ d.layers v.distinct;
  distinct_dirty = Distinct-insert _ d.dirty_layers v.distinct_dirty;
  within = Within-insert _ d.dirty_layers d.layers v.within;
  promise = tt;
}

create-IsValid : (d : Device) (display : ℕ) → IsValid d → IsValid (create_layer d display).0
unfolding create_layer
create-IsValid d display v = elim (Bool-cases (is_display display)) [
  | inl e ↦ rw e (add_layer-IsValid d v)
  | inr e ↦ rw e v
]

remove_layer-IsValid :
    (d : Device) (layer : ℕ) → IsValid d → IsValid (set_state (remove_layer d layer).0 modified)
unfolding remove_layer
remove_layer-IsValid d layer v = record {
  distinct = Distinct-erase layer d.layers v.distinct;
  distinct_dirty = Distinct-erase layer d.dirty_layers v.distinct_dirty;
  within = Within-erase layer d.dirty_layers d.layers v.distinct_dirty v.distinct v.within;
  promise = tt;
}

erase_missing : (x : ℕ) (xs : List ℕ) → contains x xs ≡ false → erase x xs ≡ xs
unfolding contains erase
erase_missing x [] e = refl
erase_missing x (y ∷ ys) e = ground (arith, erase_missing x ys, e)

remove_missing-IsValid :
    (d : Device) (layer : ℕ)
    → contains layer d.layers ≡ false
    → IsValid d
    → IsValid (remove_layer d layer).0
unfolding remove_layer
remove_missing-IsValid d layer missing v =
    rw
      (
        erase_missing layer d.layers missing,
        erase_missing layer d.dirty_layers (ground (arith, v.within layer, missing)),
      )
      v

destroy-IsValid :
    (d : Device) (display layer : ℕ) → IsValid d → IsValid (destroy_layer d display layer).0
unfolding destroy_layer
destroy-IsValid d display layer v = elim (Bool-cases (is_display display)) [
  | inr e ↦ rw e v
  | inl e ↦ elim (Bool-cases (contains layer d.layers)) [
    | inl known ↦ rw (e, known) (remove_layer-IsValid d layer v)
    | inr missing ↦ rw (e, missing) (remove_missing-IsValid d layer missing v)
  ]
]

mark-IsValid :
    (d : Device) (layer : ℕ) (dirty : Bool)
    → contains layer d.layers ≡ true
    → IsValid d
    → IsValid (record d {
      state = modified;
      dirty_layers = if dirty then insert layer d.dirty_layers else erase layer d.dirty_layers;
    })
mark-IsValid d layer true known v = record {
  distinct = v.distinct;
  distinct_dirty = Distinct-insert layer d.dirty_layers v.distinct_dirty;
  within = Within-insert_known layer d.dirty_layers d.layers v.within known;
  promise = tt;
}
mark-IsValid d layer false known v = record {
  distinct = v.distinct;
  distinct_dirty = Distinct-erase layer d.dirty_layers v.distinct_dirty;
  within = Within-erase_one layer d.dirty_layers d.layers v.distinct_dirty v.within;
  promise = tt;
}

set_type-IsValid :
    (d : Device) (display layer : ℕ) (type : Composition)
    → IsValid d
    → IsValid (set_layer_composition_type d display layer type).0
unfolding set_layer_composition_type mark_layer_dirty
set_type-IsValid d display layer type v = elim (Bool-cases (is_display display)) [
  | inr e ↦ rw e v
  | inl e ↦ elim (Bool-cases (contains layer d.layers)) [
    | inl known ↦ rw (e, known) (mark-IsValid d layer (not (is_client type)) known v)
    | inr missing ↦ rw (e, missing) v
  ]
]

set_target-IsValid :
    (d : Device) (display target dataspace : ℕ)
    → IsValid d
    → IsValid (set_client_target d display target dataspace).0
unfolding set_client_target
set_target-IsValid d display target dataspace v = elim (Bool-cases (is_display display)) [
  | inr e ↦ rw e v
  | inl e ↦ elim (Bool-cases (dataspace == 0)) [
    | inl known ↦ rw (e, known) (keep_layers d _ target _ _ _ v v.promise)
    | inr other ↦ rw (e, other) v
  ]
]

dirty-promise :
    (xs : List ℕ) → Promises (if ltb 0 (length xs) then validated_with_changes else validated) xs
dirty-promise [] = refl
dirty-promise (x ∷ xs) = ground arith

validate-IsValid : (d : Device) (display : ℕ) → IsValid d → IsValid (validate_display d display).0
unfolding validate_display
validate-IsValid d display v = elim (Bool-cases (is_display display)) [
  | inr e ↦ rw e v
  | inl e ↦ elim (Bool-cases (ltb 0 (length d.dirty_layers))) [
    | inl some_dirty ↦
        rw (e, some_dirty)
          (keep_layers d _ _ _ _ _ v (rw some_dirty at (dirty-promise d.dirty_layers)))
    | inr clean ↦
        rw (e, clean) (keep_layers d _ _ _ _ _ v (rw clean at (dirty-promise d.dirty_layers)))
  ]
]

present-IsValid :
    (drm : Drm) (d : Device) (display : ℕ) → IsValid d → IsValid (present_display drm d display).0
unfolding present_display
present-IsValid drm d display v = elim (Bool-cases (is_display display)) [
  | inr e ↦ rw e v
  | inl e ↦ elim (Bool-cases (is_state d.state validated)) [
    | inl f ↦ rw (e, f) (keep_layers d _ _ _ _ _ v v.promise)
    | inr f ↦ rw (e, f) v
  ]
]

pub nothing-Within : (xs : List ℕ) → Within [] xs
unfolding contains
nothing-Within xs x c = ground arith

accept-IsValid :
    (d : Device) (display : ℕ) → IsValid d → IsValid (accept_display_changes d display).0
unfolding accept_display_changes
accept-IsValid d display v = elim (Bool-cases (is_display display)) [
  | inr e ↦ rw e v
  | inl e ↦ elim (Bool-cases (is_state d.state modified)) [
    | inl f ↦ rw (e, f) v
    | inr f ↦
        rw (e, f)
          (record {
            distinct = v.distinct;
            distinct_dirty = tt;
            within = nothing-Within d.layers;
            promise = refl;
          })
  ]
]

-- Every call, whatever its answer, leaves the layers and the dirty layers without repetitions, the
-- dirty layers among the layers, and the state true to them: none are dirty in VALIDATED, some are in
-- VALIDATED_WITH_CHANGES.
pub step-IsValid : (d : Device) (c : Call) → IsValid d → IsValid (step d c).0
unfolding step
step-IsValid d (creates display) v = create-IsValid d display v
step-IsValid d (destroys display layer) v = destroy-IsValid d display layer v
step-IsValid d (sets_target display target dataspace) v =
    set_target-IsValid d display target dataspace v
step-IsValid d (validates display) v = validate-IsValid d display v
step-IsValid d (presents drm display) v = present-IsValid drm d display v
step-IsValid d (accepts display) v = accept-IsValid d display v
step-IsValid d (sets_type display layer type) v = set_type-IsValid d display layer type v

pub run-IsValid : (d : Device) (cs : List Call) → IsValid d → IsValid (run d cs)
unfolding run
run-IsValid d [] v = v
run-IsValid d (c ∷ cs) v = run-IsValid (step d c).0 cs (step-IsValid d c v)

-- After any sequence of calls on a new device, whatever the kernel answers, the layers and the dirty
-- layers have no repetitions, the dirty layers are among the layers, none are dirty in VALIDATED and
-- some are in VALIDATED_WITH_CHANGES.
pub run_new-IsValid :
    (info : Info) (c : Context) (m : Memory) (cs : List Call)
    → IsValid (run (new_device info c m) cs)
run_new-IsValid info c m cs =
    run-IsValid (new_device info c m) cs
      (record { distinct = tt; distinct_dirty = tt; within = nothing-Within []; promise = tt })
