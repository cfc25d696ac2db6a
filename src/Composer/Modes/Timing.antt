-- ===== src/Composer/Modes/Timing.antt =====
-- generate_mode of graphics/composer/aidl/hwc_context.cpp: the timing of a mode that no connector has,
-- by the formula of VESA. C's floating-point arithmetic is an argument.
use hardware_arpi.Base.{ℕ, ◌%◌, ◌^◌}
use hardware_arpi.Base.Int.{ℤ}
use hardware_arpi.Platform.{to_u32}
use hardware_arpi.Composer.Modes.{ModeInfo}

-- Double precision, with the value of the literal n / d, and the rounding to single precision.
pub record Floats {ℓ} (F : Type ℓ) : Type ℓ where
  pub literal : ℕ → ℕ → F
  pub of_int : ℤ → F
  pub add : F → F → F
  pub sub : F → F → F
  pub mul : F → F → F
  pub div : F → F → F
  pub rint : F → F
  pub ceil : F → F
  pub single : F → F
  pub truncate : F → ℤ

-- The fields of a `drmModeModeInfo` that are set.
pub record Timing : Type 0 where
  pub clock : ℕ
  pub hdisplay : ℕ
  pub hsync_start : ℕ
  pub hsync_end : ℕ
  pub htotal : ℕ
  pub hskew : ℕ
  pub vdisplay : ℕ
  pub vsync_start : ℕ
  pub vsync_end : ℕ
  pub vtotal : ℕ
  pub vscan : ℕ
  pub vrefresh : ℕ
  pub flags : ℕ
  pub mode_type : ℕ

-- DRM_MODE_FLAG_PHSYNC | DRM_MODE_FLAG_PVSYNC and DRM_MODE_TYPE_DRIVER.
abbrev pub positive_syncs : ℕ
positive_syncs = 5

abbrev pub type_driver : ℕ
type_driver = 64

-- A field of 16 bits.
abbrev to_u16 : ℤ → ℕ
to_u16 z = to_u32 z % 2 ^ 16

module _ {ℓ} {F : Type ℓ} (fl : Floats F) where
  abbrev whole : ℕ → F
  whole n = fl.literal n 1

  -- Arithmetic between floats.
  abbrev add_f : F → F → F
  add_f x y = fl.single (fl.add x y)

  abbrev mul_f : F → F → F
  mul_f x y = fl.single (fl.mul x y)

  abbrev div_f : F → F → F
  div_f x y = fl.single (fl.div x y)

  -- The horizontal period that is estimated, and what is made of it. `interlaced` and `margins` are 0,
  -- so the margins are 0.0; MIN_PORCH is 1, V_SYNC_RQD 3, CELL_GRAN 8.0, MIN_VSYNC_PLUS_BP 550.0.
  pub record Lines : Type ℓ where
    pub h_pixels_rnd : F
    pub v_lines_rnd : F
    pub h_period : F
    pub total_v_lines : F

  unfoldable pub line_times : ℤ → ℤ → F → Lines
  line_times h_pixels v_lines freq =
      let h_pixels_rnd =
        fl.single
          (fl.mul (fl.rint (fl.div (fl.single (fl.of_int h_pixels)) (whole 8))) (whole 8)) in
      let v_lines_rnd = fl.single (fl.rint (fl.single (fl.of_int v_lines))) in
      let height = add_f (add_f (add_f v_lines_rnd (whole 0)) (whole 1)) (whole 0) in
      let h_period_est = fl.single (
        fl.mul (fl.div (fl.sub (fl.div (whole 1) freq) (fl.div (whole 550) (whole 1000000))) height)
          (whole 1000000)) in
      let vsync_plus_bp = fl.single (fl.rint (fl.div (whole 550) h_period_est)) in
      let total_v_lines =
        add_f
          (add_f (add_f (add_f (add_f v_lines_rnd (whole 0)) (whole 0)) vsync_plus_bp) (whole 0))
          (whole 1) in
      let v_field_rate_est =
        fl.single (fl.mul (fl.div (fl.div (whole 1) h_period_est) total_v_lines) (whole 1000000)) in
      record {
        h_pixels_rnd = h_pixels_rnd;
        v_lines_rnd = v_lines_rnd;
        h_period = div_f h_period_est (div_f freq v_field_rate_est);
        total_v_lines = total_v_lines;
      }

  -- C_PRIME and M_PRIME, with M 600.0, C 40.0, K 128.0 and J 20.0.
  abbrev c_prime : F
  c_prime =
      fl.add (fl.div (fl.mul (fl.sub (whole 40) (whole 20)) (whole 128)) (whole 256)) (whole 20)

  abbrev m_prime : F
  m_prime = fl.mul (fl.div (whole 128) (whole 256)) (whole 600)

  unfoldable pub h_blank : Lines → F
  h_blank l =
      let active = add_f (add_f l.h_pixels_rnd (whole 0)) (whole 0) in
      let ideal_duty_cycle =
        fl.single (fl.sub c_prime (fl.div (fl.mul m_prime l.h_period) (whole 1000))) in
      let cells = fl.mul (whole 2) (whole 8) in
      fl.single (
        fl.mul
          (fl.rint (
            fl.div (fl.div (mul_f active ideal_duty_cycle) (fl.sub (whole 100) ideal_duty_cycle))
              cells))
          cells)

  -- The rate is an int that becomes a float.
  unfoldable pub generate_timing : ℤ → ℤ → ℤ → Timing
  unfolding line_times h_blank
  generate_timing h_pixels v_lines rate =
      let freq = fl.single (fl.of_int rate) in
      let l = line_times h_pixels v_lines freq in
      let blank = h_blank l in
      let total_pixels = add_f (add_f (add_f l.h_pixels_rnd (whole 0)) (whole 0)) blank in
      let pixel_freq = div_f total_pixels l.h_period in
      let h_sync = fl.single (
        fl.mul (fl.rint (fl.div (fl.mul (fl.div (whole 8) (whole 100)) total_pixels) (whole 8)))
          (whole 8)) in
      let h_front_porch = fl.single (fl.sub (fl.div blank (whole 2)) h_sync) in
      let porch_lines = add_f (whole 1) (whole 0) in
      record {
        clock = to_u32 (fl.truncate (fl.mul (fl.ceil pixel_freq) (whole 1000)));
        hdisplay = to_u16 (fl.truncate l.h_pixels_rnd);
        hsync_start = to_u16 (fl.truncate (add_f l.h_pixels_rnd h_front_porch));
        hsync_end = to_u16 (fl.truncate (add_f (add_f l.h_pixels_rnd h_front_porch) h_sync));
        htotal = to_u16 (fl.truncate total_pixels);
        hskew = 0;
        vdisplay = to_u16 (fl.truncate l.v_lines_rnd);
        vsync_start = to_u16 (fl.truncate (add_f l.v_lines_rnd porch_lines));
        vsync_end = to_u16 (fl.truncate (add_f (add_f l.v_lines_rnd porch_lines) (whole 3)));
        vtotal = to_u16 (fl.truncate l.total_v_lines);
        vscan = 0;
        vrefresh = to_u32 (fl.truncate freq);
        flags = positive_syncs;
        mode_type = type_driver;
      }

  -- As find_mode takes it; `name` names what of a timing a ModeInfo does not have.
  unfoldable pub generate_mode : (Timing → ℕ) → ℤ → ℤ → ℤ → ModeInfo
  unfolding generate_timing
  generate_mode name h_pixels v_lines rate =
      let t = generate_timing h_pixels v_lines rate in
      record {
        clock = t.clock;
        hdisplay = t.hdisplay;
        vdisplay = t.vdisplay;
        vrefresh = t.vrefresh;
        mode_type = t.mode_type;
        timing = name t;
      }
