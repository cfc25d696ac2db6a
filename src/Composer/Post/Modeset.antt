-- ===== src/Composer/Post/Modeset.antt =====
-- When hwc_post sets the mode, and when it asks for a frame buffer.
use hardware_arpi.Base.{
  ℕ, ◌≡◌, refl, Bool, true, false, [], ◌∷◌, inl, inr, Bool-cases, ◌==◌, if◌then◌else◌,
}
use hardware_arpi.Base.Int.{ℤ, is_negative}
use hardware_arpi.Platform.{ebusy}
use hardware_arpi.Composer.Error.{is_display}
use hardware_arpi.Composer.Post.{
  Memory, KmsOutput, Context, Drm, sets_crtc, commits, validate, add_fb, set_mode, atomic_commit,
  show, hwc_post, commit_request, retry_modeset,
}

-- Whether the next post on a display sets its mode, and what the display is.
abbrev pub flag : Context → ℕ → Bool
flag c display = if display == 0 then c.first_post else c.first_post2

abbrev pub output : Context → ℕ → KmsOutput
output c display = if display == 0 then c.primary_output else c.secondary_output

-- A handle that passes the validation and has a frame buffer.
abbrev pub Ready : Memory → ℕ → Type 0
Ready m h = (is_negative (validate m h) ≡ false) × (((m h).fb_id == 0) ≡ false)

pub Ready-post :
    (drm : Drm) (c : Context) (m : Memory) (display h : ℕ) (fence : ℤ)
    → Ready m h
    → hwc_post drm c m display h fence ≡ show drm c m display h fence []
unfolding hwc_post add_fb
Ready-post drm c m display h fence (v, r) = rw (v, r) refl

pub show_flagged :
    (drm : Drm) (c : Context) (m : Memory) (display h : ℕ) (fence : ℤ)
    → is_display display ≡ true
    → flag c display ≡ true
    → let o = output c display in
      (show drm c m display h fence []).requests
      ≡ sets_crtc o.crtc_id (m h).fb_id o.connector_id o.timing ∷ []
unfolding show set_mode
show_flagged drm c m display h fence d f = elim (Bool-cases (display == 0)) [
  | inl e ↦ rw (e, rw e at f) refl
  | inr e ↦ rw (e, rw e at d, rw e at f) refl
]

show_unflagged :
    (drm : Drm) (c : Context) (m : Memory) (display h : ℕ) (fence : ℤ)
    → is_display display ≡ true
    → flag c display ≡ false
    → show drm c m display h fence [] ≡ atomic_commit drm c m display (output c display) h fence []
unfolding show
show_unflagged drm c m display h fence d f = elim (Bool-cases (display == 0)) [
  | inl e ↦ rw (e, rw e at f) refl
  | inr e ↦ rw (e, rw e at d, rw e at f) refl
]

module _ (c : Context) (display : ℕ) (d : is_display display ≡ true) where
  retry_flag : flag (retry_modeset display c) display ≡ true
  unfolding retry_modeset
  retry_flag = elim (Bool-cases (display == 0)) [
    | inl e ↦ rw e refl
    | inr e ↦ rw (e, rw e at d) refl
  ]

  retry_output : output (retry_modeset display c) display ≡ output c display
  unfolding retry_modeset
  retry_output = elim (Bool-cases (display == 0)) [
    | inl e ↦ rw e refl
    | inr e ↦ rw (e, rw e at d) refl
  ]

failed_commit :
    (drm : Drm) (c : Context) (m : Memory) (display h : ℕ) (fence : ℤ) (o : KmsOutput)
    → is_negative (drm.atomic_commit (commit_request o (m h).fb_id)).0 ≡ true
    → ((drm.atomic_commit (commit_request o (m h).fb_id)).1 == ebusy) ≡ false
    → atomic_commit drm c m display o h fence [] ≡ record {
      context = retry_modeset display c;
      memory = m;
      status = (drm.atomic_commit (commit_request o (m h).fb_id)).0;
      out_fence = fence;
      requests = commits (commit_request o (m h).fb_id) ∷ [];
    }
unfolding atomic_commit
failed_commit drm c m display h fence o n b = rw (n, b) refl

-- On a display there is whose mode is set, where the handle is valid and has a frame buffer: if the
-- kernel refuses the commit for another reason than EBUSY, the post returns its status and leaves the
-- fence, and the next post of a valid handle with a frame buffer asks for the mode and for nothing
-- else.
pub failed_post-sets_mode :
    (drm drm' : Drm) (c : Context) (m : Memory) (display h h' : ℕ) (fence fence' : ℤ)
    → Ready m h
    → Ready m h'
    → is_display display ≡ true
    → flag c display ≡ false
    → is_negative (drm.atomic_commit (commit_request (output c display) (m h).fb_id)).0 ≡ true
    → ((drm.atomic_commit (commit_request (output c display) (m h).fb_id)).1 == ebusy) ≡ false
    → let p = hwc_post drm c m display h fence in
      let o = output c display in
      (p.status ≡ (drm.atomic_commit (commit_request o (m h).fb_id)).0)
      × (p.out_fence ≡ fence)
      × ((hwc_post drm' p.context p.memory display h' fence').requests
          ≡ sets_crtc o.crtc_id (m h').fb_id o.connector_id o.timing ∷ [])
failed_post-sets_mode drm drm' c m display h h' fence fence' r r' d f n b =
    rw
      (
        Ready-post drm c m display h fence r,
        show_unflagged drm c m display h fence d f,
        failed_commit drm c m display h fence (output c display) n b,
        Ready-post drm' (retry_modeset display c) m display h' fence' r',
        show_flagged drm' (retry_modeset display c) m display h' fence' d (retry_flag c display d),
        retry_output c display d,
      )
      (refl, refl, refl)
