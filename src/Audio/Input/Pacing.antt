-- ===== src/Audio/Input/Pacing.antt =====
-- How fast the input stream delivers sound.
use hardware_arpi.Base.{ℕ, ◌+◌, ◌≤◌, List, [], ◌∷◌, Option, none, some}
use hardware_arpi.Audio.{Sizes}
use hardware_arpi.Audio.Input.{StreamIn, read_duration, in_read}

-- A read: what the clock shows in it, the bytes, and what the clock shows when it returns.
pub record Read : Type 0 where
  pub now : ℕ
  pub bytes : ℕ
  pub ended : ℕ

abbrev pub pause : Option ℕ → ℕ
pause none = 0
pause (some t) = t

-- `usleep` sleeps at least as long as it is asked to, in each of the reads, one after the other.
abbrev pub AllSleep : Sizes → StreamIn → List Read → Type 0
AllSleep sizes s [] = Unit {0}
AllSleep sizes s (r ∷ rs) =
    (r.now + pause (in_read sizes s r.now r.bytes).slept ≤ r.ended)
    × AllSleep sizes (in_read sizes s r.now r.bytes).stream rs

-- How long the sound of all of them takes.
unfoldable pub total_duration : Sizes → StreamIn → List Read → ℕ
total_duration sizes s [] = 0
total_duration sizes s (r ∷ rs) = read_duration sizes s r.bytes + total_duration sizes s rs

-- When the last read returned, or `t` where there was none.
abbrev pub last_ended : ℕ → List Read → ℕ
last_ended t [] = t
last_ended t (r ∷ rs) = last_ended r.ended rs
