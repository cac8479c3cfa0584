-- ===== src/Prelude/Text.antt =====
-- Python's `str` methods, on native texts. White space is `str.isspace`; only the ASCII letters
-- have a case here, so `lower` and `upper` speak of texts whose cased letters are ASCII.
use Prim.Native.Nat.{ℕ, zero, suc, ◌+◌, ◌-◌, ◌/◌, ◌%◌, ◌<◌, compare, Ordering}
use Prim.Native.Char.{Char, char, code, IsScalar}
use Prim.Native.String.{String, ◌++◌}
use mathlib.Core.Logic.{inl, inr}
use text.Mathlib.TextEquality.{eq_iff}
use text.Mathlib.TextLemmas.{nil-append, cons-append}
use tetra_host.Prelude.Tests.{Bool-cases}
use mathlib.Core.Path.{◌≡◌, refl}
use mathlib.Core.Logic.{dite}
use mathlib.Core.Bool.{Bool, true, false, not, ◌&&◌, ◌||◌}
use mathlib.Core.Option.{Option, none, some}
use mathlib.Core.List.{List, [], ◌∷◌}
use native.Mathlib.Omega.{arith}
use native.Mathlib.Decide.{dec_lt}
pub use text.Mathlib.Text.{starts_with}
use text.Mathlib.Text.{◌==◌}
use tetra_host.Prelude.Tests.{leb, ltb, eqb, if◌then◌else◌}

-- str.isspace, on one character
unfoldable pub is_space : ℕ → Bool
is_space n =
    leb 9 n && leb n 13
    || leb 28 n && leb n 32
    || eqb n 133
    || eqb n 160
    || eqb n 5760
    || leb 8192 n && leb n 8202
    || eqb n 8232
    || eqb n 8233
    || eqb n 8239
    || eqb n 8287
    || eqb n 12288

pub compare_ascii : (n : ℕ) → n < 256 → compare n 55296 ≡ Ordering.lt
compare_ascii n h = ground arith

unfoldable pub IsScalar-ascii : (n : ℕ) → n < 256 → IsScalar n
IsScalar-ascii n h = rw (compare_ascii n h) tt

-- The character with an ASCII letter's other case.
unfoldable pub ascii : ℕ → Char
unfolding dec_lt IsScalar-ascii
ascii n = dite (dec_lt n 256) (λ h. char n (IsScalar-ascii n h)) (λ _. char 0 tt)

unfoldable pub lower_char : Char → Char
unfolding ascii
lower_char c = if leb 65 (code c) && leb (code c) 90 then ascii (code c + 32) else c

upper_char : Char → Char
unfolding ascii
upper_char c = if leb 97 (code c) && leb (code c) 122 then ascii (code c - 32) else c

-- s.lower()
unfoldable pub lower : String → String
unfolding lower_char
lower String.[] = String.[]
lower (String.◌∷◌ c s) = String.◌∷◌ (lower_char c) (lower s)

-- s.upper()
unfoldable pub upper : String → String
unfolding upper_char
upper String.[] = String.[]
upper (String.◌∷◌ c s) = String.◌∷◌ (upper_char c) (upper s)

unfoldable pub lstrip : String → String
unfolding is_space
lstrip String.[] = String.[]
lstrip (String.◌∷◌ c s) = let rest = lstrip s in if is_space (code c) then rest else String.◌∷◌ c s

unfoldable pub rstrip : String → String
unfolding is_space
rstrip String.[] = String.[]
rstrip (String.◌∷◌ c s) =
    let rest = rstrip s in if rest == "" && is_space (code c) then String.[] else String.◌∷◌ c rest

-- s.strip()
unfoldable pub strip : String → String
unfolding lstrip rstrip
strip s = rstrip (lstrip s)

-- s.rstrip(c)
unfoldable pub rstrip_char : ℕ → String → String
rstrip_char n String.[] = String.[]
rstrip_char n (String.◌∷◌ c s) =
    let rest = rstrip_char n s in
    if rest == "" && eqb (code c) n then String.[] else String.◌∷◌ c rest

-- chr(n) in s
unfoldable pub has_char : ℕ → String → Bool
has_char n String.[] = false
has_char n (String.◌∷◌ c s) = eqb (code c) n || has_char n s

-- s in xs
unfoldable pub contains : List String → String → Bool
contains [] s = false
contains (x ∷ xs) s = x == s || contains xs s

-- any(s.startswith(p) for p in prefixes)
unfoldable pub starts_with_any : List String → String → Bool
starts_with_any [] s = false
starts_with_any (p ∷ ps) s = starts_with s p || starts_with_any ps s

tidy : strip (lower "  A User@Example.COM \n") ≡ "a user@example.com"
unfolding strip lower
tidy = refl

-- s.endswith(t)
unfoldable pub ends_with : String → String → Bool
ends_with String.[] t = t == ""
ends_with (String.◌∷◌ c s) t = String.◌∷◌ c s == t || ends_with s t

-- s[:n]
unfoldable pub take_chars : ℕ → String → String
take_chars zero s = String.[]
take_chars (suc n) String.[] = String.[]
take_chars (suc n) (String.◌∷◌ c s) = String.◌∷◌ c (take_chars n s)

-- len(s)
unfoldable pub length : String → ℕ
length String.[] = 0
length (String.◌∷◌ c s) = suc (length s)

-- str(n), of a number below ten to the power of the fuel
digits : ℕ → ℕ → String → String
unfolding ascii
digits zero n rest = rest
digits (suc fuel) n rest =
    let next = digits fuel (n / 10) (String.◌∷◌ (ascii (48 + n % 10)) rest) in
    if ltb n 10 then String.◌∷◌ (ascii (48 + n)) rest else next

-- str(n)
unfoldable pub decimal : ℕ → String
unfolding digits
decimal n = digits (suc n) n ""

shown : decimal 503 ≡ "503"
unfolding decimal
shown = refl

cons_head : Char → List String → List String
cons_head c [] = String.◌∷◌ c "" ∷ []
cons_head c (x ∷ xs) = String.◌∷◌ c x ∷ xs

abbrev pub is_char : Char → Char → Bool
is_char sep c = String.◌∷◌ c "" == String.◌∷◌ sep ""

-- s.split(sep), of a separator that is one character
unfoldable pub split : Char → String → List String
unfolding cons_head
split sep String.[] = "" ∷ []
split sep (String.◌∷◌ c s) =
    let rest = split sep s in if is_char sep c then "" ∷ rest else cons_head c rest

-- sep.join(xs), of a separator that is one character
unfoldable pub join : Char → List String → String
join sep [] = ""
join sep (x ∷ []) = x
join sep (x ∷ y ∷ ys) = x ++ String.◌∷◌ sep (join sep (y ∷ ys))

split-shape : (sep : Char) (s : String) → (x : String) × (xs : List String) × (split sep s ≡ x ∷ xs)
unfolding split cons_head
split-shape sep String.[] = ("", [], refl)
split-shape sep (String.◌∷◌ c s) =
    let (x, xs, e) = split-shape sep s in
    elim (Bool-cases (is_char sep c)) [
      | inl h ↦ ("", split sep s, rw h refl)
      | inr h ↦ (String.◌∷◌ c x, xs, rw (h, e) refl)
    ]

join-cons_head :
    (sep c : Char) (x : String) (xs : List String)
    → join sep (String.◌∷◌ c x ∷ xs) ≡ String.◌∷◌ c (join sep (x ∷ xs))
unfolding join
join-cons_head sep c x [] = refl
join-cons_head sep c x (y ∷ ys) = cons-append c x (String.◌∷◌ sep (join sep (y ∷ ys)))

-- Joining the parts of a split gives the text back.
pub join-split : (sep : Char) (s : String) → join sep (split sep s) ≡ s
unfolding join split cons_head
join-split sep String.[] = refl
join-split sep (String.◌∷◌ c s) =
    let (x, xs, e) = split-shape sep s in
    elim (Bool-cases (is_char sep c)) [
      | inl h ↦
          let same = (eq_iff (String.◌∷◌ c "") (String.◌∷◌ sep "")).0 h in
          let whole : join sep (x ∷ xs) ≡ s = rw e at (join-split sep s) in
          rw (h, e, nil-append, whole) (ground arith)
      | inr h ↦
          let whole : join sep (x ∷ xs) ≡ s = rw e at (join-split sep s) in
          rw (h, e, join-cons_head sep c x xs, whole) refl
    ]

-- pattern in s
unfoldable pub includes : String → String → Bool
includes pattern String.[] = pattern == ""
includes pattern (String.◌∷◌ c s) = starts_with (String.◌∷◌ c s) pattern || includes pattern s

-- s.partition(chr(n)), without the separator
unfoldable pub split_once : ℕ → String → String × String
split_once n String.[] = ("", "")
split_once n (String.◌∷◌ c s) =
    let (before, after) = split_once n s in
    if eqb (code c) n then ("", s) else (String.◌∷◌ c before, after)

-- ", ".join(xs)
unfoldable pub commas : List String → String
commas [] = ""
commas (x ∷ []) = x
commas (x ∷ y ∷ ys) = x ++ ", " ++ commas (y ∷ ys)

-- s[n:]
unfoldable pub drop_chars : ℕ → String → String
drop_chars zero s = s
drop_chars (suc n) String.[] = String.[]
drop_chars (suc n) (String.◌∷◌ c s) = drop_chars n s

-- s.rpartition(chr(n)), without the separator; nothing where it does not occur
unfoldable pub split_last : ℕ → String → Option (String × String)
split_last n String.[] = none
split_last n (String.◌∷◌ c s) = elim (split_last n s) [
  | some (before, after) ↦ some (String.◌∷◌ c before, after)
  | none ↦ if eqb (code c) n then some ("", s) else none
]

-- s.removeprefix(p)
unfoldable pub remove_prefix : String → String → String
remove_prefix p s = if starts_with s p then drop_chars (length p) s else s

break_spaces : String → List String
unfolding is_space cons_head
break_spaces String.[] = "" ∷ []
break_spaces (String.◌∷◌ c s) =
    let rest = break_spaces s in if is_space (code c) then "" ∷ rest else cons_head c rest

non_empty : List String → List String
non_empty [] = []
non_empty (x ∷ xs) = let rest = non_empty xs in if x == "" then rest else x ∷ rest

-- s.split()
unfoldable pub words : String → List String
unfolding break_spaces non_empty
words s = non_empty (break_spaces s)

-- s.replace(chr(n), c)
unfoldable pub replace_char : ℕ → Char → String → String
replace_char n d String.[] = String.[]
replace_char n d (String.◌∷◌ c s) =
    let rest = replace_char n d s in String.◌∷◌ (if eqb (code c) n then d else c) rest

unfoldable pub is_digit_char : Char → Bool
is_digit_char c = leb 48 (code c) && leb (code c) 57

all_digits : String → Bool
unfolding is_digit_char
all_digits String.[] = true
all_digits (String.◌∷◌ c s) = is_digit_char c && all_digits s

-- s.isdigit(), of ASCII texts
unfoldable pub is_digits : String → Bool
unfolding all_digits
is_digits s = not (s == "") && all_digits s
