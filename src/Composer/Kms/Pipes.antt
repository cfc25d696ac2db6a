-- ===== src/Composer/Kms/Pipes.antt =====
-- The CRTCs that the outputs of hwc_context get.
use native.Mathlib.Nat.{pow-succ'}
use hardware_arpi.Base.{
  ℕ, zero, suc, ◌+◌, ◌/◌, ◌^◌, ◌<◌, ◌≡◌, ◌≢◌, refl, sym, ap, ◌∙◌, true, false, not, ◌&&◌, List, [],
  ◌∷◌, Option, none, some, ◌==◌, arith, inl, inr, Bool-cases, bit_or, length, get_elem?,
}
use hardware_arpi.Base.Int.{pos}
use hardware_arpi.Base.Bits.{bit_at, bit_at-or, bit_at-le-one}
use hardware_arpi.Composer.Modes.{ModeInfo, Wish, find_mode}
use hardware_arpi.Composer.Kms.{
  Kms, Connector, Output, Started, has_bit, free_crtc, set_ids, set_mode_of, set_dpi, init_output,
  init_with_crtc, init_with_encoder, init_with_connector,
}

bit_at-pow : (i : ℕ) → bit_at (2 ^ i) i ≡ 1
bit_at-pow zero = refl
bit_at-pow (suc i) =
    let half : 2 ^ suc i / 2 ≡ 2 ^ i = omega (arith, pow-succ' 2 i) in rw half (bit_at-pow i)

-- What a word has of bits after one is set.
used-bit : (used pipe : ℕ) → has_bit (bit_or used (2 ^ pipe)) pipe ≡ true
used-bit used pipe =
    ground (arith, bit_at-or used (2 ^ pipe) pipe, bit_at-pow pipe, bit_at-le-one used pipe)

kept-bit : (used pipe k : ℕ) → has_bit used k ≡ true → has_bit (bit_or used (2 ^ pipe)) k ≡ true
kept-bit used pipe k h = ground (arith, bit_at-or used (2 ^ pipe) k, bit_at-le-one (2 ^ pipe) k, h)

-- An index that is one of a CRTC is of one that is possible and free.
free_crtc-free :
    (possible used i : ℕ) (cs : List ℕ)
    → free_crtc possible used i cs < i + length cs
    → (has_bit possible (free_crtc possible used i cs) ≡ true)
      × (has_bit used (free_crtc possible used i cs) ≡ false)
unfolding free_crtc
free_crtc-free possible used i [] h = absurd (omega (arith, h))
free_crtc-free possible used i (c ∷ cs) h =
    elim (Bool-cases (has_bit possible i && not (has_bit used i))) [
      | inl f ↦ rw f (ground (arith, f), ground (arith, f))
      | inr f ↦
          let h' = (rw f at h) in rw f (free_crtc-free possible used (i + 1) cs (omega (arith, h')))
    ]

get_elem-below : (cs : List ℕ) (i c : ℕ) → get_elem? cs i ≡ some c → i < length cs
get_elem-below [] i c e = ground (arith, e)
get_elem-below (x ∷ xs) zero c e = omega arith
get_elem-below (x ∷ xs) (suc i) c e = omega (arith, get_elem-below xs i c e)

true-false : true ≢ false
true-false e = ground (arith, e)

set_dpi-keeps :
    (kms : Kms) (c : Connector) (o : Output)
    → ((set_dpi kms c o).pipe ≡ o.pipe) × ((set_dpi kms c o).crtc_id ≡ o.crtc_id)
unfolding set_dpi
set_dpi-keeps kms c o = elim (Bool-cases (not (c.mm_width == 0) && not (c.mm_height == 0))) [
  | inl e ↦ rw e (refl, refl)
  | inr e ↦ rw e (refl, refl)
]

set_mode_of-keeps :
    (kms : Kms) (c : Connector) (o : Output) (m : Option ModeInfo)
    → ((set_mode_of kms c o m).pipe ≡ o.pipe) × ((set_mode_of kms c o m).crtc_id ≡ o.crtc_id)
unfolding set_mode_of
set_mode_of-keeps kms c o none = (refl, refl)
set_mode_of-keeps kms c o (some m) = (refl, refl)

init_output-pipe :
    (kms : Kms) (w : Wish) (planes : List ℕ) (pipe crtc : ℕ) (o : Output) (c : Connector)
    → ((init_output kms w planes pipe crtc o c).pipe ≡ pipe)
      × ((init_output kms w planes pipe crtc o c).crtc_id ≡ crtc)
unfolding init_output set_ids
init_output-pipe kms w planes pipe crtc o c =
    let m = find_mode kms.generate_mode w c.modes in
    let placed = set_ids kms planes pipe crtc o c in
    let (p, q) = set_dpi-keeps kms c (set_mode_of kms c placed m) in
    let (p', q') = set_mode_of-keeps kms c placed m in (p ∙ p', q ∙ q')

-- What a start that succeeds promises: the output has a CRTC whose bit was not set, and is now; no bit
-- is cleared.
pub record HasCrtc (crtcs : List ℕ) (used : ℕ) (r : Started) : Type 0 where
  pub was_free : has_bit used r.output.pipe ≡ false
  pub now_used : has_bit r.used_crtcs r.output.pipe ≡ true
  pub kept : (k : ℕ) → has_bit used k ≡ true → has_bit r.used_crtcs k ≡ true
  pub crtc : get_elem? crtcs r.output.pipe ≡ some r.output.crtc_id

crtc-HasCrtc :
    (kms : Kms) (w : Wish) (crtcs planes : List ℕ) (used possible : ℕ) (o : Output) (c : Connector)
    (found : Option ℕ)
    → get_elem? crtcs (free_crtc possible used 0 crtcs) ≡ found
    → let r = init_with_crtc kms w planes used (free_crtc possible used 0 crtcs) o c found in
      r.status ≡ pos 0 → HasCrtc crtcs used r
unfolding init_with_crtc
crtc-HasCrtc kms w crtcs planes used possible o c none e ok = ground (arith, ok)
crtc-HasCrtc kms w crtcs planes used possible o c (some crtc) e ok =
    let pipe = free_crtc possible used 0 crtcs in
    let (p, q) = init_output-pipe kms w planes pipe crtc o c in
    let below = get_elem-below crtcs pipe crtc e in
    let free = free_crtc-free possible used 0 crtcs (omega (arith, below)) in
    record {
      was_free = rw p free.1;
      now_used = rw p (used-bit used pipe);
      kept = kept-bit used pipe;
      crtc = rw (p, q) e;
    }

encoder-HasCrtc :
    (kms : Kms) (w : Wish) (crtcs planes : List ℕ) (used : ℕ) (o : Output) (c : Connector)
    (encoder : Option ℕ)
    → let r = init_with_encoder kms w crtcs planes used o c encoder in
      r.status ≡ pos 0 → HasCrtc crtcs used r
unfolding init_with_encoder
encoder-HasCrtc kms w crtcs planes used o c none ok = ground (arith, ok)
encoder-HasCrtc kms w crtcs planes used o c (some possible) ok =
    crtc-HasCrtc kms w crtcs planes used possible o c
      (get_elem? crtcs (free_crtc possible used 0 crtcs)) refl ok

pub init_with_connector-HasCrtc :
    (kms : Kms) (w : Wish) (crtcs planes : List ℕ) (used : ℕ) (o : Output) (c : Connector)
    → let r = init_with_connector kms w crtcs planes used o c in
      r.status ≡ pos 0 → HasCrtc crtcs used r
unfolding init_with_connector
init_with_connector-HasCrtc kms w crtcs planes used o c ok =
    encoder-HasCrtc kms w crtcs planes used o c (kms.get_encoder c.encoder) ok

-- Two starts that succeed, one after the other, take different CRTCs of the device, whatever the
-- connectors, their encoders and the CRTCs used before.
pub init_with_connector-pipes_differ :
    (kms : Kms) (w : Wish) (crtcs planes : List ℕ) (used : ℕ) (o o' : Output) (c c' : Connector)
    → let r = init_with_connector kms w crtcs planes used o c in
      let r' = init_with_connector kms w crtcs planes r.used_crtcs o' c' in
      r.status ≡ pos 0
      → r'.status ≡ pos 0
      → (r.output.pipe ≢ r'.output.pipe)
        × (get_elem? crtcs r.output.pipe ≡ some r.output.crtc_id)
        × (get_elem? crtcs r'.output.pipe ≡ some r'.output.crtc_id)
init_with_connector-pipes_differ kms w crtcs planes used o o' c c' ok ok' =
    let r = init_with_connector kms w crtcs planes used o c in
    let first = init_with_connector-HasCrtc kms w crtcs planes used o c ok in
    let second = init_with_connector-HasCrtc kms w crtcs planes r.used_crtcs o' c' ok' in
    let bit = has_bit r.used_crtcs in
    (λ e. true-false (sym first.now_used ∙ ap bit e ∙ second.was_free), first.crtc, second.crtc)
