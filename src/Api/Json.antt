-- ===== src/Api/Json.antt =====
-- The field helpers of src/api/alpha_vantage_client.cpp, which search the text of a JSON object.
pub mod Fields
use fin_core_streaming_syste.Prelude.{
  ℕ, ◌+◌, ◌-◌, ◌*◌, ◌≡◌, Bool, true, false, Option, none, some, List, [], ◌∷◌, if◌then◌else◌, Text,
  ltb, ◌==◌, ◌||◌,
}
use fin_core_streaming_syste.Prelude.Int.{ℤ, pos, negate}
use fin_core_streaming_syste.Cli.Parse.{is_space, read_digits}

-- What stands behind a prefix.
unfoldable pub strip_prefix : Text → Text → Option Text
strip_prefix [] s = some s
strip_prefix (k ∷ key) [] = none
strip_prefix (k ∷ key) (c ∷ s) = elim (k == c) [ true ↦ strip_prefix key s | false ↦ none ]

abbrev pub or_else : Option Text → Option Text → Option Text
or_else (some a) b = some a
or_else none b = b

-- What stands behind the first place where the key is found.
unfoldable pub after_first : Text → Text → Option Text
after_first key [] = strip_prefix key []
after_first key (c ∷ s) = or_else (strip_prefix key (c ∷ s)) (after_first key s)

abbrev pub add_front : ℕ → Option Text → Option Text
add_front c none = none
add_front c (some s) = some (c ∷ s)

-- The text in front of the next quotation mark.
unfoldable pub until_quote : Text → Option Text
until_quote [] = none
until_quote (c ∷ s) = elim (c == b'"') [ true ↦ some [] | false ↦ add_front c (until_quote s) ]

abbrev pub quoted : Option Text → Option Text
quoted none = none
quoted (some s) = until_quote s

-- `extract_string`; `out` is changed only where there is a value.
unfoldable pub extract_string : Text → Text → Option Text
extract_string json key = quoted (after_first key json)

-- `std::string::find(needle) != npos`.
abbrev pub is_found : Option Text → Bool
is_found none = false
is_found (some s) = true

unfoldable pub contains : Text → Text → Bool
contains body needle = is_found (after_first needle body)

-- `stream >> number` for an `int`, of 32 bits.
abbrev pub int_of : Bool → ℕ × ℕ → Option ℤ
int_of negative (value, digits) =
    if digits == 0 || ltb (if negative then 2_147_483_648 else 2_147_483_647) value
    then none
    else some (if negative then negate (pos value) else pos value)

abbrev pub signed_int : Text → Option ℤ
signed_int [] = none
signed_int (c ∷ s) =
    if c == b'-'
    then int_of true (read_digits s 0 0)
    else if c == b'+'
    then int_of false (read_digits s 0 0)
    else int_of false (read_digits (c ∷ s) 0 0)

unfoldable pub read_int : Text → Option ℤ
read_int [] = none
read_int (c ∷ s) = elim (is_space c) [ true ↦ read_int s | false ↦ signed_int (c ∷ s) ]
