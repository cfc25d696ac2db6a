-- ===== src/Composer/Kms/FirstFrame.antt =====
-- From the start of hwc_context, with an HDMI connector, to the first frame that hwc_post shows.
use hardware_arpi.Base.{
  ℕ, suc, ◌+◌, ◌≡◌, refl, ap, ◌∙◌, true, not, ◌&&◌, List, [], ◌∷◌, Option, none, some, ◌==◌, arith,
  inl, inr, Bool-cases, Option-cases, get_elem?,
}
use hardware_arpi.Base.Ids.{contains}
use hardware_arpi.Base.Int.{ℤ, pos, is_zero}
use hardware_arpi.Composer.Modes.{ModeInfo, Wish, find_mode}
use hardware_arpi.Composer.Post.{Drm, Memory, Context, sets_crtc, hwc_post}
use hardware_arpi.Composer.Post.Modeset.{Ready, Ready-post, show_flagged}
use hardware_arpi.Composer.Kms.{
  Kms, Connector, DrmResources, Output, Started, connector_hdmia, cap_universal_planes, cap_atomic,
  set_ids, set_mode_of, set_dpi, init_output, init_with_crtc, init_with_encoder,
  init_with_connector,
}
use hardware_arpi.Composer.Kms.Start.{
  Screen, Description, fetch_connector, init_secondary, init_hdmi, init_outputs,
  init_with_resources, init_kms, new_hwc_context, context_of, describe,
}
use hardware_arpi.Composer.Kms.Pipes.{init_with_connector-HasCrtc}

-- The output shows the mode on the connector.
record Shows (c : Connector) (m : ModeInfo) (o : Output) : Type 0 where
  connector : o.connector_id ≡ c.connector_id
  mode : o.mode ≡ m

set_dpi-Shows :
    (kms : Kms) (c c' : Connector) (m : ModeInfo) (o : Output)
    → Shows c m o
    → Shows c m (set_dpi kms c' o)
unfolding set_dpi
set_dpi-Shows kms c c' m o s =
    elim (Bool-cases (not (c'.mm_width == 0) && not (c'.mm_height == 0))) [
      | inl e ↦ rw e record { connector = s.connector; mode = s.mode }
      | inr e ↦ rw e record { connector = s.connector; mode = s.mode }
    ]

module _ (kms : Kms) (w : Wish) (c : Connector) (m : ModeInfo)
    (wanted : find_mode kms.generate_mode w c.modes ≡ some m) where
  init_output-Shows :
      (planes : List ℕ) (pipe crtc : ℕ) (o : Output)
      → Shows c m (init_output kms w planes pipe crtc o c)
  unfolding init_output set_ids set_mode_of
  init_output-Shows planes pipe crtc o = rw wanted (
      set_dpi-Shows kms c c m (set_mode_of kms c (set_ids kms planes pipe crtc o c) (some m))
        record { connector = refl; mode = refl })

  crtc-Shows :
      (planes : List ℕ) (used pipe : ℕ) (o : Output) (crtc : Option ℕ)
      → let r = init_with_crtc kms w planes used pipe o c crtc in
        r.status ≡ pos 0 → Shows c m r.output
  unfolding init_with_crtc
  crtc-Shows planes used pipe o none ok = ground (arith, ok)
  crtc-Shows planes used pipe o (some crtc) ok = init_output-Shows planes pipe crtc o

  encoder-Shows :
      (crtcs planes : List ℕ) (used : ℕ) (o : Output) (encoder : Option ℕ)
      → let r = init_with_encoder kms w crtcs planes used o c encoder in
        r.status ≡ pos 0 → Shows c m r.output
  unfolding init_with_encoder
  encoder-Shows crtcs planes used o none ok = ground (arith, ok)
  encoder-Shows crtcs planes used o (some possible) ok = crtc-Shows planes used _ o _ ok

  init_with_connector-Shows :
      (crtcs planes : List ℕ) (used : ℕ) (o : Output)
      → let r = init_with_connector kms w crtcs planes used o c in
        r.status ≡ pos 0 → Shows c m r.output
  unfolding init_with_connector
  init_with_connector-Shows crtcs planes used o ok =
      encoder-Shows crtcs planes used o (kms.get_encoder c.encoder) ok

-- A connector of the type, connected, and one of the list.
pub record Fetched (kms : Kms) (type : ℕ) (ids : List ℕ) (c : Connector) : Type 0 where
  pub right_type : c.connector_type ≡ type
  pub connected : c.connected ≡ true
  pub listed : (id : ℕ) × (contains id ids ≡ true) × (kms.get_connector id ≡ some c)

Fetched-later :
    (kms : Kms) (type id : ℕ) (ids : List ℕ) (c : Connector)
    → Fetched kms type ids c
    → Fetched kms type (id ∷ ids) c
unfolding contains
Fetched-later kms type id ids c f = record {
  right_type = f.right_type;
  connected = f.connected;
  listed = (f.listed.0, ground (arith, f.listed.1), f.listed.2);
}

now-Fetched :
    (kms : Kms) (type id : ℕ) (ids : List ℕ) (c : Connector)
    → kms.get_connector id ≡ some c
    → (c.connector_type == type) ≡ true
    → c.connected ≡ true
    → Fetched kms type (id ∷ ids) c
unfolding contains
now-Fetched kms type id ids c n t k = record {
  right_type = ground (arith, t);
  connected = k;
  listed = (id, ground arith, n);
}

fetch_connector-Fetched :
    (kms : Kms) (type i : ℕ) (ids : List ℕ) (j : ℕ) (c : Connector)
    → fetch_connector kms type none i ids ≡ some (j, c)
    → Fetched kms type ids c
unfolding fetch_connector
fetch_connector-Fetched kms type i [] j c e = ground (arith, e)
fetch_connector-Fetched kms type i (id ∷ ids) j c e =
    let later = λ (h : fetch_connector kms type none (i + 1) ids ≡ some (j, c)).
      Fetched-later kms type id ids c (fetch_connector-Fetched kms type (i + 1) ids j c h) in
    elim (Option-cases (kms.get_connector id)) [
      | inl n ↦ later (rw n at e)
      | inr (c', n) ↦ elim (Bool-cases (c'.connector_type == type && c'.connected)) [
        | inr f ↦ later (rw (n, f) at e)
        | inl f ↦
            let e' = (rw (n, f) at e) in
            let same : c' ≡ c = ground (arith, e') in
            now-Fetched kms type id ids c (rw same at n)
              (ground (arith, ap (λ (x : Connector). x.connector_type) same, f)) (ground (arith, f))
      ]
    ]

post_flagged :
    (drm : Drm) (context : Context) (memory : Memory) (h : ℕ) (fence : ℤ)
    → context.first_post ≡ true
    → Ready memory h
    → let o = context.primary_output in
      (hwc_post drm context memory 0 h fence).requests
      ≡ sets_crtc o.crtc_id (memory h).fb_id o.connector_id o.timing ∷ []
post_flagged drm context memory h fence f r =
    rw (Ready-post drm context memory 0 h fence r)
      (show_flagged drm context memory 0 h fence refl f)

module _ (kms : Kms) (w : Wish) (res : DrmResources) (planes : List ℕ) (s : Screen)
    (d : Description) (universal : is_zero (kms.set_client_cap cap_universal_planes) ≡ true)
    (atomic : is_zero (kms.set_client_cap cap_atomic) ≡ true)
    (resources : kms.get_resources ≡ some res)
    (plane_resources : kms.get_plane_resources ≡ some planes) (i : ℕ) (c : Connector)
    (fetched : fetch_connector kms connector_hdmia none 0 res.connectors ≡ some (i, c)) where
  abbrev first : Started
  first = init_with_connector kms w res.crtcs planes s.used_crtcs s.primary_output c

  secondary_keeps :
      (s' : Screen) (o : Option (ℕ × Connector))
      → (init_secondary kms w res.crtcs planes s' o).primary_output ≡ s'.primary_output
  unfolding init_secondary
  secondary_keeps s' none = refl
  secondary_keeps s' (some (j, c')) = refl

  second : Screen
  unfolding init_secondary
  second =
      init_secondary kms w res.crtcs planes
        (record s {
          primary_output = record (first.output) { active = true };
          used_crtcs = first.used_crtcs;
        })
        (fetch_connector kms connector_hdmia (some i) 0 res.connectors)

  second-active : second.primary_output.active ≡ true
  unfolding second
  second-active = ap (λ (o : Output). o.active) (secondary_keeps _ _)

  outputs_started :
      init_outputs kms w res planes s
      ≡ (record second { first_post = true; first_post2 = true }, pos 0)
  unfolding init_outputs init_hdmi second
  outputs_started = rw (fetched, second-active) refl

  with_resources :
      (o : Option DrmResources) (p : Option (List ℕ))
      → o ≡ some res
      → p ≡ some planes
      → init_with_resources kms w o p s ≡ init_outputs kms w res planes s
  unfolding init_with_resources
  with_resources o p e f = rw (e, f) refl

  kms_started : init_kms kms w s ≡ (record second { first_post = true; first_post2 = true }, pos 0)
  unfolding init_kms
  kms_started =
      rw (universal, atomic) (with_resources _ _ resources plane_resources ∙ outputs_started)

  second-primary : second.primary_output ≡ record (first.output) { active = true }
  unfolding second
  second-primary = secondary_keeps _ _

  -- Where the capabilities, the resources and the planes are there, and fetch_connector finds an HDMI
  -- connector, for which find_mode chooses a mode and the output's start succeeds: the connector is a
  -- connected one of the device's, hwc_context describes a screen of the mode's size, and the first
  -- post of a valid handle with a frame buffer sets that mode on that connector, with one of the
  -- device's CRTCs, and asks for nothing else.
  pub start-first_frame :
      (fd : ℕ) (m : ModeInfo) (timing : ModeInfo → ℕ) (drm : Drm) (memory : Memory) (h : ℕ)
      (fence : ℤ)
      → find_mode kms.generate_mode w c.modes ≡ some m
      → first.status ≡ pos 0
      → Ready memory h
      → let (s', description) = new_hwc_context kms w (pos (suc fd)) s d in
        Fetched kms connector_hdmia res.connectors c
        × (description.width ≡ m.hdisplay)
        × (description.height ≡ m.vdisplay)
        × ((crtc : ℕ) × (get_elem? res.crtcs first.output.pipe ≡ some crtc)
            × ((hwc_post drm (context_of timing s') memory 0 h fence).requests
                ≡ sets_crtc crtc (memory h).fb_id c.connector_id (timing m) ∷ []))
  unfolding new_hwc_context context_of describe
  start-first_frame fd m timing drm memory h fence wanted ok ready =
      let shows =
        init_with_connector-Shows kms w c m wanted res.crtcs planes s.used_crtcs s.primary_output
          ok in
      let crtc =
        init_with_connector-HasCrtc kms w res.crtcs planes s.used_crtcs s.primary_output c ok in
      rw (kms_started, second-primary)
        (
          fetch_connector-Fetched kms connector_hdmia 0 res.connectors i c fetched,
          ap (λ (x : ModeInfo). x.hdisplay) shows.mode,
          ap (λ (x : ModeInfo). x.vdisplay) shows.mode,
          (
            first.output.crtc_id,
            crtc.crtc,
            post_flagged drm _ memory h fence refl ready
                ∙ ap
                    (λ (n : ℕ).
                      sets_crtc first.output.crtc_id (memory h).fb_id n (timing first.output.mode)
                      ∷ [])
                    shows.connector
                ∙ ap
                    (λ (x : ModeInfo).
                      sets_crtc first.output.crtc_id (memory h).fb_id c.connector_id (timing x)
                      ∷ [])
                    shows.mode,
          ),
        )
