-- ===== src/Cli/Parse.antt =====
-- The text helpers of src/cli/fincore_cli.cpp: `tokenize`, `normalize_symbol`, the lower-casing in
-- `handle_line` and `parse_number`, with what they use of the standard library. Characters are
-- classed as in the "C" locale.
pub mod Tokens
pub mod Number
use Prim.Native.String.{String}
use fin_core_streaming_syste.Prelude.{
  ℕ, ◌+◌, ◌-◌, ◌*◌, ◌%◌, ◌^◌, ◌≡◌, refl, Bool, true, false, not, ◌&&◌, ◌||◌, List, [], ◌∷◌, ◌++◌,
  map, ltb, leb, ◌==◌, if◌then◌else◌, length, Text, codes, Result, ok, err, invalid_argument,
  out_of_range, Message, lit, built,
}
use fin_core_streaming_syste.Domain.Decimal.{to_text}

abbrev pub is_space : ℕ → Bool
is_space c = c == b' ' || (leb 9 c && leb c 13)

-- `while (input >> token)`: `word` is the token that is being read, `[]` between tokens.
unfoldable pub read_tokens : Text → Text → List Text
read_tokens [] [] = []
read_tokens [] (w ∷ word) = (w ∷ word) ∷ []
read_tokens (c ∷ line) [] = read_tokens line (if is_space c then [] else c ∷ [])
read_tokens (c ∷ line) (w ∷ word) = elim (is_space c) [
  | true ↦ (w ∷ word) ∷ read_tokens line []
  | false ↦ read_tokens line ((w ∷ word) ++ (c ∷ []))
]

unfoldable pub tokenize : Text → List Text
unfolding read_tokens
tokenize line = read_tokens line []

-- `std::toupper` and `std::tolower`.
unfoldable pub to_upper : ℕ → ℕ
to_upper c = if leb b'a' c && leb c b'z' then c - 32 else c

unfoldable pub to_lower : ℕ → ℕ
to_lower c = if leb b'A' c && leb c b'Z' then c + 32 else c

unfoldable pub normalize_symbol : Text → Text
unfolding to_upper
normalize_symbol symbol = map to_upper symbol

unfoldable pub lower_case : Text → Text
unfolding to_lower
lower_case command = map to_lower command

abbrev pub is_digit : ℕ → Bool
is_digit c = leb b'0' c && leb c b'9'

-- The digits that `std::stoull` reads: their value and their number.
unfoldable pub read_digits : Text → ℕ → ℕ → ℕ × ℕ
read_digits [] value used = (value, used)
read_digits (c ∷ s) value used = elim (is_digit c) [
  | true ↦ read_digits s (value * 10 + (c - b'0')) (used + 1)
  | false ↦ (value, used)
]

-- A value beyond `unsigned long long` is `out_of_range`; a minus sign negates in that type.
abbrev pub convert : Bool → ℕ → ℕ × ℕ → Result (ℕ × ℕ)
convert negative before (value, digits) =
    if digits == 0
    then err (invalid_argument (lit "stoull"))
    else if ltb (2 ^ 64 - 1) value
    then err (out_of_range (lit "stoull"))
    else ok (if negative then (2 ^ 64 - value) % 2 ^ 64 else value, before + digits)

abbrev pub behind_sign : ℕ → Text → Result (ℕ × ℕ)
behind_sign spaces [] = err (invalid_argument (lit "stoull"))
behind_sign spaces (c ∷ s) =
    if c == b'-'
    then convert true (spaces + 1) (read_digits s 0 0)
    else if c == b'+'
    then convert false (spaces + 1) (read_digits s 0 0)
    else convert false spaces (read_digits (c ∷ s) 0 0)

-- `std::stoull(text, &consumed)`: leading space, a sign, digits; the value and `consumed`.
unfoldable pub stoull : ℕ → Text → Result (ℕ × ℕ)
stoull spaces [] = err (invalid_argument (lit "stoull"))
stoull spaces (c ∷ s) = elim (is_space c) [
  | true ↦ stoull (spaces + 1) s
  | false ↦ behind_sign spaces (c ∷ s)
]

pub number_message : String → Message
number_message name = built (codes name ++ codes " must be a number")

pub range_message : String → ℕ → ℕ → Message
range_message name minimum maximum = built (
    codes name
    ++ (codes " must be between " ++ (to_text minimum ++ (codes " and " ++ to_text maximum))))

unfoldable pub check_number : Text → String → ℕ → ℕ → Result (ℕ × ℕ) → Result ℕ
check_number text name minimum maximum (err e) = err (invalid_argument (number_message name))
check_number text name minimum maximum (ok (value, consumed)) =
    if not (consumed == length text) || ltb value minimum || ltb maximum value
    then err (invalid_argument (range_message name minimum maximum))
    else ok value

unfoldable pub parse_number : Text → String → ℕ → ℕ → Result ℕ
unfolding check_number
parse_number text name minimum maximum = check_number text name minimum maximum (stoull 0 text)
