-- ===== src/Examples/Names.antt =====
-- The names of methods in traces.
use hardware_arpi.Base.{ℕ, zero, suc, ◌≡◌, refl, true, false, List, [], ◌∷◌, ◌++◌, some, none}
use hardware_arpi.Composer.MethodName.{
  impl_text, method_name, is_terminated, name_length, name_start, name_end, copy_chars, find_text,
  rfind_char, starts_with,
}

-- "v impl::f(v)", of which "impl::f" is left, and "f(impl::", of which nothing can be read.
abbrev text : List ℕ
text = 118 ∷ 32 ∷ impl_text ++ 102 ∷ 40 ∷ 118 ∷ 41 ∷ []

named : (method_name text ≡ some (impl_text ++ 102 ∷ [])) × (is_terminated text ≡ true)
unfolding method_name is_terminated name_length name_start name_end copy_chars find_text rfind_char
    starts_with
named = (refl, refl)

read_past_end : method_name (102 ∷ 40 ∷ impl_text) ≡ none
unfolding method_name name_length name_start name_end copy_chars find_text rfind_char starts_with
read_past_end = refl

abbrev repeated : ℕ → List ℕ
repeated zero = []
repeated (suc n) = 102 ∷ repeated n

-- A name as long as the buffer is followed by no 0.
unterminated : is_terminated (repeated 256) ≡ false
unfolding is_terminated name_length name_start name_end find_text rfind_char starts_with
unterminated = refl
