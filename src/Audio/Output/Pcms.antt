-- ===== src/Audio/Output/Pcms.antt =====
-- The PCMs that the output stream opens and closes.
use hardware_arpi.Base.{
  ℕ, ◌≤◌, ◌≡◌, refl, sym, ◌∙◌, ap, Bool, true, false, List, [], ◌∷◌, Option, none, some, arith, inl,
  inr, Bool-cases, length,
}
use hardware_arpi.Base.Int.{ℤ, pos, is_zero}
use hardware_arpi.Base.Ids.{erase}
use hardware_arpi.Audio.{Config, Sizes}
use hardware_arpi.Audio.Output.Reports.{opened_new}
use hardware_arpi.Audio.Output.{
  StreamOut, start_output_stream, out_set_sample_rate, out_set_format, close_pcm, out_standby,
  is_epipe, exit_write, write_pcm, out_write, new_stream_out, adev_open_output_stream,
  adev_close_output_stream,
}

-- A call on the stream; a write with the answers of tinyalsa.
pub data Call : Type 0 where
  writes : ℕ → Option (ℕ × Bool) → ℤ → Call
  stands_by : Call
  sets_sample_rate sets_format : ℕ → Call

unfoldable pub call : Sizes → StreamOut → Call → StreamOut
unfolding out_write out_standby
call sizes out (writes bytes opened ret) = (out_write sizes out bytes opened ret).stream
call sizes out stands_by = out_standby out
call sizes out (sets_sample_rate rate) = out_set_sample_rate out rate
call sizes out (sets_format format) = out_set_format out format

unfoldable pub call_all : Sizes → StreamOut → List Call → StreamOut
unfolding call
call_all sizes out [] = out
call_all sizes out (k ∷ ks) = call_all sizes (call sizes out k) ks

abbrev held : Option ℕ → List ℕ
held none = []
held (some pcm) = pcm ∷ []

abbrev is_none : Option ℕ → Bool
is_none none = true
is_none (some pcm) = false

-- The PCM of the stream is the only one that is open, and there is none exactly in standby.
pub record IsOwned (out : StreamOut) : Type 0 where
  pub only : out.open_pcms ≡ held out.pcm
  pub running : out.standby ≡ is_none out.pcm

erase_own : (pcm : ℕ) → erase pcm (pcm ∷ []) ≡ []
unfolding erase
erase_own pcm = ground arith

closed-empty :
    (out : StreamOut) (p : Option ℕ) → out.open_pcms ≡ held p → (close_pcm out p).open_pcms ≡ []
closed-empty out none e = e
closed-empty out (some pcm) e = rw e (erase_own pcm)

none_held : (p : Option ℕ) → is_none p ≡ true → held p ≡ []
none_held none e = refl
none_held (some pcm) e = ground (arith, e)

standby-IsOwned : (out : StreamOut) → IsOwned out → IsOwned (out_standby out)
unfolding out_standby
standby-IsOwned out o = elim (Bool-cases out.standby) [
  | inl s ↦ simp s o
  | inr s ↦ simp s record { only = closed-empty out out.pcm o.only; running = refl }
]

standby_empty : (out : StreamOut) → IsOwned out → (out_standby out).open_pcms ≡ []
unfolding out_standby
standby_empty out o = elim (Bool-cases out.standby) [
  | inl s ↦ simp s (o.only ∙ none_held out.pcm (sym o.running ∙ s))
  | inr s ↦ simp s (closed-empty out out.pcm o.only)
]

exit_write-stream :
    (sizes : Sizes) (out : StreamOut) (bytes : ℕ) (ret : ℤ)
    → (exit_write sizes out bytes ret).stream ≡ out
unfolding exit_write
exit_write-stream sizes out bytes ret = refl

-- Writing to a stream that is running counts frames at most.
write_pcm-IsOwned :
    (sizes : Sizes) (out : StreamOut) (bytes : ℕ) (ret : ℤ)
    → IsOwned out
    → IsOwned (write_pcm sizes out bytes ret).stream
unfolding write_pcm exit_write
write_pcm-IsOwned sizes out bytes ret o = elim (Bool-cases (is_epipe ret)) [
  | inl e ↦ simp e o
  | inr e ↦ elim (Bool-cases (is_zero ret)) [
    | inl z ↦ simp (e, z) record { only = o.only; running = o.running }
    | inr z ↦ simp (e, z) o
  ]
]

no_pcms : (out : StreamOut) → out.standby ≡ true → IsOwned out → out.open_pcms ≡ []
no_pcms out s o = o.only ∙ none_held out.pcm (sym o.running ∙ s)

-- Out of standby, the stream starts or stays as it is.
start_write-IsOwned :
    (sizes : Sizes) (out : StreamOut) (bytes : ℕ) (opened : Option (ℕ × Bool)) (ret : ℤ)
    → out.standby ≡ true
    → IsOwned out
    → IsOwned (out_write sizes out bytes opened ret).stream
unfolding out_write start_output_stream exit_write
start_write-IsOwned sizes out bytes none ret s o =
    simp s record { only = no_pcms out s o; running = refl }
start_write-IsOwned sizes out bytes (some (pcm, false)) ret s o =
    simp s record { only = no_pcms out s o; running = refl }
start_write-IsOwned sizes out bytes (some (pcm, true)) ret s o = simp s (
    write_pcm-IsOwned sizes
      (record out { pcm = some pcm; standby = false; open_pcms = pcm ∷ out.open_pcms }) bytes ret
      record { only = ap (◌∷◌ pcm) (no_pcms out s o); running = refl })

write-IsOwned :
    (sizes : Sizes) (out : StreamOut) (bytes : ℕ) (opened : Option (ℕ × Bool)) (ret : ℤ)
    → IsOwned out
    → IsOwned (out_write sizes out bytes opened ret).stream
unfolding out_write
write-IsOwned sizes out bytes opened ret o = elim (Bool-cases out.standby) [
  | inl s ↦ start_write-IsOwned sizes out bytes opened ret s o
  | inr s ↦ simp s (write_pcm-IsOwned sizes out bytes ret o)
]

call-IsOwned :
    (sizes : Sizes) (out : StreamOut) (k : Call) → IsOwned out → IsOwned (call sizes out k)
unfolding call out_set_sample_rate out_set_format
call-IsOwned sizes out (writes bytes opened ret) o = write-IsOwned sizes out bytes opened ret o
call-IsOwned sizes out stands_by o = standby-IsOwned out o
call-IsOwned sizes out (sets_sample_rate rate) o = record { only = o.only; running = o.running }
call-IsOwned sizes out (sets_format format) o = record { only = o.only; running = o.running }

call_all-IsOwned :
    (sizes : Sizes) (out : StreamOut) (ks : List Call)
    → IsOwned out
    → IsOwned (call_all sizes out ks)
unfolding call_all
call_all-IsOwned sizes out [] o = o
call_all-IsOwned sizes out (k ∷ ks) o =
    call_all-IsOwned sizes (call sizes out k) ks (call-IsOwned sizes out k o)

new-IsOwned : (c : Config) → IsOwned (new_stream_out c)
unfolding new_stream_out
new-IsOwned c = record { only = refl; running = refl }

opened-IsOwned :
    (allocated : Bool) (c : Config) (out : StreamOut)
    → adev_open_output_stream allocated c ≡ (pos 0, some out)
    → IsOwned out
opened-IsOwned allocated c out e = rw⁻¹ (opened_new allocated c out e).1 (new-IsOwned c)

held_one : (p : Option ℕ) → length (held p) ≤ 1
held_one none = omega arith
held_one (some pcm) = omega arith

-- Whatever calls follow the opening of a stream, and whatever tinyalsa answers: at most one PCM is open,
-- and closing the stream leaves none.
pub calls_leak_nothing :
    (sizes : Sizes) (allocated : Bool) (c : Config) (out : StreamOut) (ks : List Call)
    → adev_open_output_stream allocated c ≡ (pos 0, some out)
    → let out' = call_all sizes out ks in
      (length out'.open_pcms ≤ 1) × (adev_close_output_stream out' ≡ [])
unfolding adev_close_output_stream
calls_leak_nothing sizes allocated c out ks e =
    let out' = call_all sizes out ks in
    let o = call_all-IsOwned sizes out ks (opened-IsOwned allocated c out e) in
    (rw o.only (held_one out'.pcm), standby_empty out' o)
