-- ===== src/Tests/Decimals.antt =====
-- Examples of src/domain/decimal.cpp.
use mathlib.Core.List.{cons-ne-nil}
use fin_core_streaming_syste.Prelude.{
  ◌-◌, ◌^◌, ◌≤◌, ◌≡◌, refl, [], arith, Text, codes, Message, ok, err, out_of_range,
}
use fin_core_streaming_syste.Prelude.Int.{pos, negsuc}
use fin_core_streaming_syste.Domain.Decimal.{
  limit_of, from_string, to_string, from_unsigned, read_whole, checked_accumulate, read_point,
  pad_fraction, assemble, int64_range, to_text, digits_of,
}
use fin_core_streaming_syste.Domain.Decimal.Spelling.{
  Sign, unsigned, minus, is_minus, spell, IsDecimal, units, signed,
}
use fin_core_streaming_syste.Domain.Decimal.Exact.{from_string_exact, from_string_overflow}
use fin_core_streaming_syste.Domain.Decimal.Sound.{from_string_sound}
use fin_core_streaming_syste.Domain.Decimal.RoundTrip.{from_string-to_string}

-- The limits of `int64_t`, there and back.
from_string-to_string_example :
    from_string (to_string (negsuc (2 ^ 63 - 1))) ≡ ok (negsuc (2 ^ 63 - 1))
from_string-to_string_example = from_string-to_string (negsuc (2 ^ 63 - 1)) (omega arith)

twelve-IsDecimal : IsDecimal (codes "12") (codes "5")
twelve-IsDecimal = record {
  has_whole = cons-ne-nil _ _;
  whole_digits = ground arith;
  fraction_digits = ground arith;
  fits = omega arith;
}

from_string_exact_example : from_string (codes "-12.5") ≡ ok (negsuc 1249999999)
from_string_exact_example =
    from_string_exact minus (codes "12") (codes "5") twelve-IsDecimal (omega arith)

large-IsDecimal : IsDecimal (codes "92233720369") []
large-IsDecimal = record {
  has_whole = cons-ne-nil _ _;
  whole_digits = ground arith;
  fraction_digits = tt;
  fits = omega arith;
}

from_string_overflow_example :
    (m : Message) × (from_string (codes "92233720369") ≡ err (out_of_range m))
from_string_overflow_example =
    from_string_overflow unsigned (codes "92233720369") [] large-IsDecimal (omega arith)

from_string_sound_example :
    (sign : Sign) × (ws : Text) × (fs : Text) × (codes "-12.5" ≡ spell sign ws fs)
    × IsDecimal ws fs
    × (units ws fs ≤ limit_of (is_minus sign))
    × (negsuc 1249999999 ≡ signed (is_minus sign) (units ws fs))
from_string_sound_example = from_string_sound (codes "-12.5") from_string_exact_example

-- The values of tests/unit/domain_model_test.cpp.
parse_examples :
    (from_string (codes "123.45") ≡ ok (pos 12_345_000_000))
    × (from_string (codes "-0.00000001") ≡ ok (negsuc 0))
    × (from_string (codes "-92233720368.54775808") ≡ ok (negsuc (2 ^ 63 - 1)))
    × (from_string (codes "92233720368.54775808") ≡ err int64_range)
unfolding from_string from_unsigned read_whole checked_accumulate read_point pad_fraction assemble
parse_examples = (refl, refl, refl, refl)

print_examples :
    (to_string (pos 700_000_000) ≡ codes "7.00000000")
    × (to_string (negsuc (2 ^ 63 - 1)) ≡ codes "-92233720368.54775808")
unfolding to_string to_text digits_of
print_examples = (refl, refl)
