-- ===== src/Check/Args.antt =====
-- The arguments of FastCheck, FastCheck/check_cli.cpp. The usage text is left out, and so are the
-- questions that `CheckLocalPreconditions` puts to the file system.
pub mod Accepted
pub mod Filters
use Prim.Native.String.{◌++◌ as ◌<>◌}
use text.Mathlib.Text.{◌==◌ as ◌is◌}
use fast_clone.Prelude.{
  ℕ, ◌+◌, Bool, true, false, not, ◌&&◌, ◌||◌, if◌then◌else◌, List, [], ◌∷◌, Option, none, some,
  String, Result, ok, throw, ◌>>=◌, ◌>>◌, ensure,
}
use fast_clone.Cli.Endpoints.{is_empty, tokens, parse_port, parse_host_port}
use fast_clone.Cli.Options.{parse_bounded}
use fast_clone.Check.{
  Mode, fast_mode, strict_mode, size_only_mode, Format, text_format, json_format, FilterSet,
  CheckOptions,
}

unfoldable pub parse_mode : String → Result Mode
parse_mode v =
    if v is "fast"
    then ok fast_mode
    else if v is "strict"
    then ok strict_mode
    else if v is "size-only"
    then ok size_only_mode
    else throw ("Invalid --mode (expected fast|strict|size-only): " <> v)

unfoldable pub parse_format : String → Result Format
parse_format v =
    if v is "text"
    then ok text_format
    else if v is "json"
    then ok json_format
    else throw ("Invalid --format (expected text|json): " <> v)

abbrev pub no_filter : FilterSet
no_filter = record {
  diff_shown = false;
  missing_shown = false;
  extra_shown = false;
  same_shown = false;
}

unfoldable pub add_category : String → FilterSet → Result FilterSet
add_category token f =
    if token is "DIFF"
    then ok (record f { diff_shown = true })
    else if token is "MISSING"
    then ok (record f { missing_shown = true })
    else if token is "EXTRA"
    then ok (record f { extra_shown = true })
    else if token is "SAME"
    then ok (record f { same_shown = true })
    else throw ("Invalid --filter value (expected DIFF,MISSING,EXTRA,SAME): " <> token)

-- The loop over the tokens; `any` tells whether one was not empty.
unfoldable pub filter_loop : List String → Bool → FilterSet → Result FilterSet
unfolding add_category
filter_loop [] any f = if any then ok f else throw "Invalid --filter, no category parsed"
filter_loop (token ∷ rest) any f =
    let skipped = filter_loop rest any f in
    let counted = (add_category token f >>= filter_loop rest true) in
    if is_empty token then skipped else counted

unfoldable pub parse_filter : String → Result FilterSet
unfolding filter_loop tokens
parse_filter v = filter_loop (tokens b',' v) false no_filter

-- The options, and the text of `--server`, which is parsed at the end.
pub record Parsing : Type 0 where
  pub options : CheckOptions
  pub server_arg : String

unfoldable pub default_parsing : Parsing
default_parsing = record {
  options = record {
    server = "";
    port = 27842;
    target = "";
    password = "";
    mode = fast_mode;
    checkers = 32;
    hash_workers = 0;
    no_diskio_driver = false;
    output = "";
    format = text_format;
    summary_only = false;
    filter = record {
      diff_shown = true;
      missing_shown = true;
      extra_shown = true;
      same_shown = false;
    };
  };
  server_arg = "";
}

-- The arguments that take a value, those that take none, and all others.
pub data CheckFlag : Type 0 where
  server_flag target_flag password_flag mode_flag checkers_flag hash_workers_flag : CheckFlag
  output_flag format_flag filter_flag port_flag no_diskio_driver_flag summary_only_flag : CheckFlag
  unknown_flag : CheckFlag

abbrev pub flag_table : List (String × CheckFlag)
flag_table =
    ("--server", server_flag)
    ∷ ("--target", target_flag)
    ∷ ("--password", password_flag)
    ∷ ("--mode", mode_flag)
    ∷ ("--checkers", checkers_flag)
    ∷ ("--hash-workers", hash_workers_flag)
    ∷ ("--no-diskio-driver", no_diskio_driver_flag)
    ∷ ("--output", output_flag)
    ∷ ("--format", format_flag)
    ∷ ("--summary-only", summary_only_flag)
    ∷ ("--filter", filter_flag)
    ∷ ("--port", port_flag)
    ∷ []

unfoldable pub find_check_flag : List (String × CheckFlag) → String → CheckFlag
find_check_flag [] arg = unknown_flag
find_check_flag ((name, flag) ∷ table) arg =
    let rest = find_check_flag table arg in if arg is name then flag else rest

unfoldable pub apply_check_value : CheckFlag → String → Parsing → Result Parsing
unfolding parse_mode parse_format parse_filter parse_bounded parse_port
apply_check_value server_flag v p = ok (record p { server_arg = v })
apply_check_value target_flag v p = ok (record p { options = record p.options { target = v } })
apply_check_value password_flag v p = ok (record p { options = record p.options { password = v } })
apply_check_value mode_flag v p = do
  m ← parse_mode v
  ok (record p { options = record p.options { mode = m } })
apply_check_value checkers_flag v p = do
  n ← parse_bounded v "--checkers" 1 4096 "Invalid --checkers (range: 1..4096)"
  ok (record p { options = record p.options { checkers = n } })
apply_check_value hash_workers_flag v p = do
  n ← parse_bounded v "--hash-workers" 0 4096 "Invalid --hash-workers (range: 0..4096, 0=auto)"
  ok (record p { options = record p.options { hash_workers = n } })
apply_check_value output_flag v p = ok (record p { options = record p.options { output = v } })
apply_check_value format_flag v p = do
  f ← parse_format v
  ok (record p { options = record p.options { format = f } })
apply_check_value filter_flag v p = do
  f ← parse_filter v
  ok (record p { options = record p.options { filter = f } })
apply_check_value port_flag v p = do
  n ← parse_port v "--port"
  ok (record p { options = record p.options { port = n } })
apply_check_value _ v p = ok p

pub data CheckArity : Type 0 where
  one_value no_value no_flag : CheckArity

abbrev pub check_arity : CheckFlag → CheckArity
check_arity no_diskio_driver_flag = no_value
check_arity summary_only_flag = no_value
check_arity unknown_flag = no_flag
check_arity _ = one_value

unfoldable pub apply_check_switch : CheckFlag → Parsing → Parsing
apply_check_switch no_diskio_driver_flag p = record p {
  options = record p.options { no_diskio_driver = true };
}
apply_check_switch summary_only_flag p = record p {
  options = record p.options { summary_only = true };
}
apply_check_switch _ p = p

unfoldable pub check_loop : List String → Parsing → Result Parsing
unfolding find_check_flag apply_check_value apply_check_switch
check_loop [] p = ok p
check_loop (arg ∷ []) p =
    let flag = find_check_flag flag_table arg in
    elim (check_arity flag) [
      | one_value ↦ throw "Missing value for argument"
      | no_value ↦ ok (apply_check_switch flag p)
      | no_flag ↦ throw ("Unknown argument: " <> arg)
    ]
check_loop (arg ∷ value ∷ rest) p =
    let flag = find_check_flag flag_table arg in
    elim (check_arity flag) [
      | one_value ↦ (apply_check_value flag value p >>= check_loop rest)
      | no_value ↦ check_loop (value ∷ rest) (apply_check_switch flag p)
      | no_flag ↦ throw ("Unknown argument: " <> arg)
    ]

-- The checks and the endpoint at the end; a port in `--server` takes the place of `--port`.
unfoldable pub finish_check : Parsing → Result CheckOptions
unfolding parse_host_port
finish_check p = do
  ensure (not (is_empty p.server_arg)) "--server is required"
  ensure (not (is_empty p.options.target)) "--target is required"
  ensure (not (is_empty p.options.password)) "--password is required"
  e ← parse_host_port p.server_arg p.options.port
  ok (record p.options { server = e.0; port = e.1 })

unfoldable pub asks_version : List String → Bool
asks_version [] = false
asks_version (a ∷ args) =
    let rest = asks_version args in
    if (a is "--version") || ((a is "-v") || (a is "version")) then true else rest

-- `none` where it prints the version and ends.
unfoldable pub parse_check_args : List String → Option (Result CheckOptions)
unfolding asks_version check_loop finish_check default_parsing
parse_check_args args =
    if asks_version args then none else some (check_loop args default_parsing >>= finish_check)
