-- ===== src/Tests/Commands.antt =====
-- Examples of the parsing of commands and names (src/cli/fincore_cli.cpp, include/core/types.hpp).
use fin_core_streaming_syste.Prelude.{◌≡◌, arith, codes, ok}
use fin_core_streaming_syste.Domain.Decimal.{to_text, digits_of}
use fin_core_streaming_syste.Cli.Parse.{parse_number}
use fin_core_streaming_syste.Cli.Parse.Number.{parse_number_negative}

parse_number_negative_example :
    parse_number (codes "-18446744073709551556") "seconds" 1 3600 ≡ ok 60
unfolding to_text digits_of
parse_number_negative_example =
    parse_number_negative 60 "seconds" 1 3600 (omega arith) (omega arith) (omega arith)
      (omega arith)
