-- ===== src/Runs/CommandLines.antt =====
-- Runs of the two command lines.
use fast_clone.Prelude.{
  ℕ, ◌-◌, ◌^◌, ◌≡◌, refl, true, false, List, [], ◌∷◌, ◌++◌, Option, none, some, String, ok, All,
  map, arith,
}
use fast_clone.Runs.Decisions.{milli}
use fast_clone.Cli.Numbers.{size_unit, to_lower, parse_size_bytes_strict, codes}
use fast_clone.Cli.Numbers.Decimal.{print}
use fast_clone.Cli.Numbers.Sizes.{
  Scales, Throws, parse_size_bytes_strict_lem, parse_size_bytes_strict_negative,
}
use fast_clone.Cli.Endpoints.{is_empty, tokens, parse_server_list}
use fast_clone.Cli.Options.{CliOptions, default_options, client, parse_bounded}
use fast_clone.Cli.Options.Loop.{parse_cli_args, parsed}
use fast_clone.Cli.Options.Loop.Accepted.{AreInRange, IsConsistent, parse_cli_args-valid}
use fast_clone.Check.{FilterSet, CheckOptions}
use fast_clone.Check.Args.{default_parsing, parse_check_args, parse_filter}
use fast_clone.Check.Args.Filters.{has_token, IsCategory, parse_filter_lem}
use fast_clone.Check.Args.Accepted.{IsChecked, parse_check_args-valid}

-- A parser of no numbers at all: `--aux-weight` is not given.
abbrev no_numbers : String → Option ℕ
no_numbers v = none

abbrev unchanged : String → String
unchanged path = path

abbrev client_args : List String
client_args =
    "client" ∷ "--target" ∷ "copy" ∷ "--password" ∷ "secret" ∷ "--server" ∷ "a:7,b" ∷ "--streams"
    ∷ "8" ∷ []

abbrev client_options : CliOptions milli
client_options = record (default_options milli client "copy") {
  password = "secret";
  servers = ("a", 7) ∷ ("b", 27842) ∷ [];
  host = "a";
  port = 7;
  stream_limit = 8;
  stream_auto_tune = false;
}

client_parsed :
    parse_cli_args milli no_numbers "here" unchanged client_args ≡ parsed (ok client_options)
unfolding parse_cli_args parse_server_list codes parse_bounded
client_parsed = refl

parse_cli_args-valid_example :
    AreInRange milli no_numbers client_options × IsConsistent milli no_numbers client_options
parse_cli_args-valid_example =
    parse_cli_args-valid milli no_numbers "here" unchanged client_args client_options client_parsed

-- The options above, then `--port 9`.
-- "3k", and a suffix that is no unit.
parse_size_bytes_strict_lem_example :
    ((multiplier : ℕ)
      → size_unit (map to_lower (b'k' ∷ [])) ≡ some multiplier
      → Scales (parse_size_bytes_strict (print 3 ++ (b'k' ∷ [])) "--size") 3 multiplier)
    × (size_unit (map to_lower (b'k' ∷ [])) ≡ none
        → Throws (parse_size_bytes_strict (print 3 ++ (b'k' ∷ [])) "--size"))
parse_size_bytes_strict_lem_example = parse_size_bytes_strict_lem 3 (b'k' ∷ []) "--size" refl

parse_size_bytes_strict_negative_example :
    parse_size_bytes_strict (b'-' ∷ print 5) "--size" ≡ ok (2 ^ 64 - 5)
parse_size_bytes_strict_negative_example =
    parse_size_bytes_strict_negative 5 "--size" (omega arith) (omega arith)

abbrev two_categories : FilterSet
two_categories = record {
  diff_shown = true;
  missing_shown = false;
  extra_shown = false;
  same_shown = true;
}

parse_filter_lem_example :
    (true ≡ has_token "DIFF" (tokens b',' "SAME,,DIFF"))
    × (false ≡ has_token "MISSING" (tokens b',' "SAME,,DIFF"))
    × (false ≡ has_token "EXTRA" (tokens b',' "SAME,,DIFF"))
    × (true ≡ has_token "SAME" (tokens b',' "SAME,,DIFF"))
    × All IsCategory (tokens b',' "SAME,,DIFF")
unfolding parse_filter
parse_filter_lem_example = parse_filter_lem "SAME,,DIFF" two_categories refl

abbrev check_args : List String
check_args =
    "--server" ∷ "a" ∷ "--target" ∷ "copy" ∷ "--password" ∷ "secret" ∷ "--checkers" ∷ "4" ∷ []

abbrev check_options : CheckOptions
check_options = record default_parsing.options {
  server = "a";
  target = "copy";
  password = "secret";
  checkers = 4;
}

check_parsed : parse_check_args check_args ≡ some (ok check_options)
unfolding parse_check_args codes parse_bounded
check_parsed = refl

parse_check_args-valid_example :
    IsChecked check_options
    × (is_empty check_options.target ≡ false)
    × (is_empty check_options.password ≡ false)
parse_check_args-valid_example = parse_check_args-valid check_args check_options check_parsed
