-- ===== src/Composer/MethodName.antt =====
-- FullMethodName of graphics/composer/aidl/Util.h: what a method is called in a trace, from the text
-- that the compiler has for it. Characters are numbers, and sizes 64-bit.
pub mod Reading
use hardware_arpi.Base.{
  ℕ, zero, suc, ◌+◌, ◌-◌, ◌%◌, ◌^◌, Bool, true, false, ◌&&◌, List, [], ◌∷◌, Option, none, some,
  ◌==◌, if◌then◌else◌, length, get_elem?, min, ltb,
}

unfoldable pub starts_with : List ℕ → List ℕ → Bool
starts_with [] s = true
starts_with (p ∷ ps) [] = false
starts_with (p ∷ ps) (c ∷ cs) = p == c && starts_with ps cs

abbrev next : Option ℕ → Option ℕ
next none = none
next (some i) = some (suc i)

-- `find`: where the pattern, which is not empty, comes first; none for npos.
unfoldable pub find_text : List ℕ → List ℕ → Option ℕ
unfolding starts_with
find_text p [] = none
find_text p (c ∷ cs) =
    let later = find_text p cs in if starts_with p (c ∷ cs) then some 0 else next later

-- `rfind` of a character: where it comes last.
unfoldable pub rfind_char : ℕ → List ℕ → Option ℕ
rfind_char p [] = none
rfind_char p (c ∷ cs) = elim (rfind_char p cs) [
  | none ↦ if p == c then some 0 else none
  | some i ↦ some (suc i)
]

-- "impl::" and '('.
abbrev pub impl_text : List ℕ
impl_text = 105 ∷ 109 ∷ 112 ∷ 108 ∷ 58 ∷ 58 ∷ []

abbrev pub parenthesis : ℕ
parenthesis = 40

-- The size of `mBuf`.
abbrev pub buffer_size : ℕ
buffer_size = 256

abbrev pub or_else : Option ℕ → ℕ → ℕ
or_else none d = d
or_else (some i) d = i

unfoldable pub name_start : List ℕ → ℕ
unfolding find_text
name_start s = or_else (find_text impl_text s) 0

unfoldable pub name_end : List ℕ → ℕ
unfolding rfind_char
name_end s = or_else (rfind_char parenthesis s) (length s)

-- `end - start` wraps where the last parenthesis comes before "impl::".
unfoldable pub name_length : List ℕ → ℕ
unfolding name_start name_end
name_length s = min ((name_end s + 2 ^ 64 - name_start s) % 2 ^ 64) buffer_size

abbrev with_char : Option ℕ → Option (List ℕ) → Option (List ℕ)
with_char (some c) (some cs) = some (c ∷ cs)
with_char none cs = none
with_char (some c) none = none

-- The loop: `left` characters from the index `i` on; none where it reads past the end.
unfoldable pub copy_chars : List ℕ → ℕ → ℕ → Option (List ℕ)
copy_chars s i zero = some []
copy_chars s i (suc left) = with_char (get_elem? s i) (copy_chars s (i + 1) left)

-- What is written into the buffer, which is all 0 before.
unfoldable pub method_name : List ℕ → Option (List ℕ)
unfolding name_start name_length copy_chars
method_name s = copy_chars s (name_start s) (name_length s)

-- Whether a 0 is left after the characters written.
unfoldable pub is_terminated : List ℕ → Bool
unfolding name_length
is_terminated s = ltb (name_length s) buffer_size
