-- ===== src/Prelude/Normal.antt =====
-- Texts that are stripped and in lower case stay as they are when that is done again.
use Prim.Native.Nat.{ℕ, ◌+◌, ◌<◌}
use Prim.Native.Char.{Char, code, char}
use Prim.Native.String.{String}
use mathlib.Core.Path.{◌≡◌, refl, ap, sym, ◌∙◌}
use mathlib.Core.Bool.{true, false, ◌&&◌}
use mathlib.Core.Logic.{inl, inr, dite}
use native.Mathlib.Omega.{arith}
use native.Mathlib.Decide.{dec_lt}
use text.Mathlib.Text.{◌==◌}
use text.Mathlib.TextEquality.{eq_iff}
use tetra_host.Prelude.Tests.{Bool-cases, leb}
use tetra_host.Prelude.Text.{
  strip, lower, lower_char, ascii, is_space, lstrip, rstrip, IsScalar-ascii,
}

code-ascii : (n : ℕ) → n < 256 → code (ascii n) ≡ n
unfolding ascii
code-ascii n h = chosen (dec_lt n 256)
  where
    chosen :
        (d : Dec (n < 256))
        → code (dite d (λ small. char n (IsScalar-ascii n small)) (λ _. char 0 tt)) ≡ n
    chosen (yes small) = refl
    chosen (no large) = absurd (large h)

upper_case :
    (c : Char) → (leb 65 (code c) && leb (code c) 90) ≡ true → code (lower_char c) ≡ code c + 32
unfolding lower_char
upper_case c e = rw e (code-ascii (code c + 32) (ground arith))

other_case : (c : Char) → (leb 65 (code c) && leb (code c) 90) ≡ false → lower_char c ≡ c
unfolding lower_char
other_case c e = rw e refl

lower_char_again : (c : Char) → lower_char (lower_char c) ≡ lower_char c
lower_char_again c = elim (Bool-cases (leb 65 (code c) && leb (code c) 90)) [
  | inl e ↦ let moved = upper_case c e in other_case (lower_char c) (ground arith)
  | inr e ↦ ap lower_char (other_case c e)
]

is_space-lower_char : (c : Char) → is_space (code (lower_char c)) ≡ is_space (code c)
unfolding is_space
is_space-lower_char c = elim (Bool-cases (leb 65 (code c) && leb (code c) 90)) [
  | inl e ↦ let moved = upper_case c e in ground arith
  | inr e ↦ ap (λ d. is_space (code d)) (other_case c e)
]

lower_again : (s : String) → lower (lower s) ≡ lower s
unfolding lower
lower_again String.[] = refl
lower_again (String.◌∷◌ c s) = rw (lower_char_again c, lower_again s) refl

cons_not_empty : (c : Char) (s : String) → (String.◌∷◌ c s == "") ≡ false
cons_not_empty c s = elim (Bool-cases (String.◌∷◌ c s == "")) [
  | inl e ↦ let same = (eq_iff (String.◌∷◌ c s) "").0 e in cc
  | inr e ↦ e
]

is_empty-lower : (s : String) → (lower s == "") ≡ (s == "")
unfolding lower
is_empty-lower String.[] = refl
is_empty-lower (String.◌∷◌ c s) = cons_not_empty (lower_char c) (lower s) ∙ sym (cons_not_empty c s)

lstrip-lower : (s : String) → lstrip (lower s) ≡ lower (lstrip s)
unfolding lower lstrip
lstrip-lower String.[] = refl
lstrip-lower (String.◌∷◌ c s) = elim (Bool-cases (is_space (code c))) [
  | inl e ↦ rw (is_space-lower_char c, e) (lstrip-lower s)
  | inr e ↦ rw (is_space-lower_char c, e) refl
]

rstrip-lower : (s : String) → rstrip (lower s) ≡ lower (rstrip s)
unfolding lower rstrip
rstrip-lower String.[] = refl
rstrip-lower (String.◌∷◌ c s) =
    rw (is_space-lower_char c, rstrip-lower s, is_empty-lower (rstrip s))
      (elim (Bool-cases (rstrip s == "" && is_space (code c))) [
        | inl e ↦ rw e refl
        | inr e ↦ rw e refl
      ])

lstrip-rstrip-lstrip : (s : String) → lstrip (rstrip (lstrip s)) ≡ rstrip (lstrip s)
unfolding lstrip rstrip
lstrip-rstrip-lstrip String.[] = refl
lstrip-rstrip-lstrip (String.◌∷◌ c s) = elim (Bool-cases (is_space (code c))) [
  | inl e ↦ rw e (lstrip-rstrip-lstrip s)
  | inr e ↦ rw e (elim (Bool-cases (rstrip s == "")) [
    | inl f ↦ rw (f, e) (rw e refl)
    | inr f ↦ rw (f, e) refl
  ])
]

rstrip_again : (s : String) → rstrip (rstrip s) ≡ rstrip s
unfolding rstrip
rstrip_again String.[] = refl
rstrip_again (String.◌∷◌ c s) = elim (Bool-cases (rstrip s == "" && is_space (code c))) [
  | inl e ↦ rw e refl
  | inr e ↦ rw e (rw (rstrip_again s, e) refl)
]

-- Python's s.strip().lower(), done again.
pub lower-strip_again : (s : String) → lower (strip (lower (strip s))) ≡ lower (strip s)
unfolding strip
lower-strip_again s =
    ap (λ t. lower (rstrip t)) (lstrip-lower (strip s))
    ∙ ap (λ t. lower (rstrip (lower t))) (lstrip-rstrip-lstrip s)
    ∙ ap lower (rstrip-lower (strip s) ∙ ap lower (rstrip_again (lstrip s)))
    ∙ lower_again (strip s)
