-- ===== src/Composer/MethodName/Reading.antt =====
-- That the name of a method is read within its text.
use hardware_arpi.Base.{
  ℕ, zero, suc, ◌+◌, ◌-◌, ◌%◌, ◌^◌, ◌≤◌, ◌<◌, ◌≡◌, refl, List, [], ◌∷◌, Option, none, some, ◌==◌,
  length, get_elem?, min, ltb, arith, if◌then◌else◌,
}
use hardware_arpi.Composer.MethodName.{
  rfind_char, parenthesis, buffer_size, or_else, name_start, name_end, name_length, copy_chars,
  method_name, is_terminated,
}

rfind_char_within : (p : ℕ) (s : List ℕ) → or_else (rfind_char p s) 0 ≤ length s
unfolding rfind_char
rfind_char_within p [] = omega arith
rfind_char_within p (c ∷ cs) = step (rfind_char p cs) (rfind_char_within p cs)
  where
    step :
        (o : Option ℕ)
        → or_else o 0 ≤ length cs
        → or_else (elim o [ none ↦ if p == c then some 0 else none | some i ↦ some (suc i) ]) 0
          ≤ suc (length cs)
    step none h = ground arith
    step (some i) h = omega (arith, h)

end_within : (s : List ℕ) → name_end s ≤ length s
unfolding name_end
end_within s = go (rfind_char parenthesis s) (rfind_char_within parenthesis s)
  where
    go : (o : Option ℕ) → or_else o 0 ≤ length s → or_else o (length s) ≤ length s
    go none h = omega arith
    go (some i) h = h

read_char : (s : List ℕ) (i : ℕ) → i < length s → (c : ℕ) × (get_elem? s i ≡ some c)
read_char [] i l = absurd (omega (arith, l))
read_char (c ∷ cs) zero l = (c, refl)
read_char (c ∷ cs) (suc i) l = read_char cs i (omega (arith, l))

copied :
    (s : List ℕ) (i n : ℕ)
    → i + n ≤ length s
    → (name : List ℕ) × (copy_chars s i n ≡ some name) × (length name ≡ n)
unfolding copy_chars
copied s i zero l = ([], refl, refl)
copied s i (suc n) l =
    let (c, here) = read_char s i (omega (arith, l)) in
    let (cs, later, same) = copied s (i + 1) n (omega (arith, l)) in
    (c ∷ cs, rw (here, later) refl, omega (arith, same))

below_min : (n : ℕ) → ltb (min n buffer_size) buffer_size ≡ ltb n buffer_size
below_min n = ground arith

wrapped : (a b : ℕ) → b ≤ a → a < 2 ^ 64 → (a + 2 ^ 64 - b) % 2 ^ 64 ≡ a - b
wrapped a b l small = omega (arith, l, small)

-- For a text below 2 ^ 64 whose last parenthesis, if any, comes after the first "impl::": the name is
-- read within the text, it is at most as long as the buffer, and a 0 follows it exactly where what
-- stands between the two is shorter than the buffer.
pub method_name_lem :
    (s : List ℕ)
    → name_start s ≤ name_end s
    → length s < 2 ^ 64
    → ((name : List ℕ) × (method_name s ≡ some name) × (length name ≤ buffer_size))
      × (is_terminated s ≡ ltb (name_end s - name_start s) buffer_size)
unfolding method_name is_terminated name_length
method_name_lem s l small =
    let within = end_within s in
    let plain : (name_end s + 2 ^ 64 - name_start s) % 2 ^ 64 ≡ name_end s - name_start s =
      wrapped (name_end s) (name_start s) l (omega (arith, within, small)) in
    let n = name_end s - name_start s in
    let (name, e, same) = copied s (name_start s) (min n buffer_size) (omega (arith, within, l)) in
    rw plain ((name, e, omega (arith, same)), below_min n)
