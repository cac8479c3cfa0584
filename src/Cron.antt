-- ===== src/Cron.antt =====
-- app/services/cron.py: when a schedule of five fields fires.
use tetra_host.Prelude.{
  ℕ, zero, suc, String, Bool, true, false, ◌&&◌, ◌||◌, ◌==◌, ◌%◌, Option, none, some, List, [], ◌∷◌,
  eqb, leb, if◌then◌else◌,
}
use tetra_host.Prelude.Text.{
  strip, split, starts_with, drop_chars, has_char, split_once, is_digits, words, replace_char,
}
use tetra_host.Prelude.Numerals.{int_of, Number, natural, minus}
use Prim.Native.Char.{Char, char}

abbrev pub comma : Char
comma = char 44 tt

-- an instant, by the parts of a datetime that a schedule reads
pub record When : Type 0 where
  pub minute : ℕ
  pub hour : ℕ
  pub day : ℕ
  pub month : ℕ
  -- Monday is 1 and Sunday is 7
  pub isoweekday : ℕ

-- n <= value, value <= n and n == value
unfoldable pub at_least : Option Number → ℕ → Bool
at_least none value = false
at_least (some (minus n)) value = true
at_least (some (natural n)) value = leb n value

unfoldable pub at_most : Option Number → ℕ → Bool
at_most none value = false
at_most (some (minus n)) value = eqb n 0 && eqb value 0
at_most (some (natural n)) value = leb value n

unfoldable pub is_number : Option Number → ℕ → Bool
is_number (some (natural n)) value = eqb n value
is_number _ value = false

unfoldable pub on_step : Option Number → ℕ → Bool
on_step (some (natural zero)) value = false
on_step (some (natural (suc n))) value = eqb (value % suc n) 0
on_step _ value = false

-- one part of a list, without white space at its ends
unfoldable pub part_matches : String → ℕ → Bool
part_matches part value =
    if part == ""
    then false
    else if starts_with part "*/"
    then on_step (int_of (drop_chars 2 part)) value
    else if has_char 45 part
    then at_least (int_of (split_once 45 part).0) value
      && at_most (int_of (split_once 45 part).1) value
    else if is_digits part
    then is_number (int_of part) value
    else false

unfoldable pub any_part : List String → ℕ → Bool
any_part [] value = false
any_part (part ∷ parts) value = part_matches (strip part) value || any_part parts value

unfoldable pub match_field : String → ℕ → Bool
match_field spec value =
    if strip spec == "*" then true else any_part (split comma (strip spec)) value

fields_match : List String → When → Bool
fields_match (minute ∷ hour ∷ dom ∷ month ∷ dow ∷ []) at =
    let cron_dow = at.isoweekday % 7 in
    match_field minute at.minute
    && match_field hour at.hour
    && match_field dom at.day
    && match_field month at.month
    && match_field (if eqb cron_dow 0 then replace_char 55 (char 48 tt) dow else dow) cron_dow
fields_match _ at = false

unfoldable pub cron_matches : String → When → Bool
unfolding fields_match
cron_matches expr at = fields_match (words expr) at

unfoldable pub all_are_digits : List String → Bool
all_are_digits [] = true
all_are_digits (t ∷ ts) = is_digits t && all_are_digits ts

unfoldable pub is_valid_part : String → Bool
is_valid_part part =
    let token = if starts_with part "*/" then drop_chars 2 part else part in
    let space = char 32 tt in
    if part == "*" || part == ""
    then true
    else all_are_digits (words (replace_char 47 space (replace_char 45 space token)))

all_valid_parts : List String → Bool
all_valid_parts [] = true
all_valid_parts (part ∷ parts) = is_valid_part (strip part) && all_valid_parts parts

all_valid_fields : List String → Bool
unfolding all_valid_parts
all_valid_fields [] = true
all_valid_fields (field ∷ fields) = all_valid_parts (split comma field) && all_valid_fields fields

is_five : List String → Bool
is_five (_ ∷ _ ∷ _ ∷ _ ∷ _ ∷ []) = true
is_five _ = false

unfoldable pub is_valid_cron : String → Bool
unfolding all_valid_fields is_five
is_valid_cron expr = is_five (words expr) && all_valid_fields (words expr)
