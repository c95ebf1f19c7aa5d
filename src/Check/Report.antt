-- ===== src/Check/Report.antt =====
-- The report of FastCheck, FastCheck/check_report.cpp and check_report.h, as the bytes that go to
-- the stream. Opening and writing the file of `--output` is left out.
pub mod Json
use fast_clone.Prelude.{
  ℕ, ◌+◌, ◌-◌, ◌*◌, ◌/◌, ◌%◌, ◌^◌, Bool, true, false, if◌then◌else◌, ◌==◌, ltb, List, [], ◌∷◌, ◌++◌,
  Option, none, some,
}
use fast_clone.Compare.{CompareCategory, same, diff, missing, extra}
use fast_clone.Cli.Numbers.{codes}
use fast_clone.Cli.Numbers.Decimal.{print}
use fast_clone.Check.{Mode, fast_mode, strict_mode, size_only_mode, FilterSet}

pub record CompareCounters : Type 0 where
  pub enumerated : ℕ
  pub same_files : ℕ
  pub diff_files : ℕ
  pub missing_files : ℕ
  pub extra_local : ℕ

abbrev pub total_compared : CompareCounters → ℕ
total_compared c = (c.same_files + c.diff_files + c.missing_files) % 2 ^ 64

-- A path is its UTF-8 bytes.
pub record DiffEntry : Type 0 where
  pub category : CompareCategory
  pub path : List ℕ
  pub local_size : Option ℕ
  pub remote_size : Option ℕ
  pub hash_compared : Bool

pub record CheckResult : Type 0 where
  pub counters : CompareCounters
  pub mode : Mode
  pub duration_ms : ℕ
  pub is_partial : Bool
  pub entries : List DiffEntry

abbrev pub mode_string : Mode → List ℕ
unfolding codes
mode_string fast_mode = codes "fast"
mode_string strict_mode = codes "strict"
mode_string size_only_mode = codes "size-only"

abbrev pub category_label : CompareCategory → List ℕ
unfolding codes
category_label diff = codes "[DIFF]   "
category_label missing = codes "[MISSING]"
category_label extra = codes "[EXTRA]  "
category_label same = codes "[SAME]   "

abbrev pub category_json : CompareCategory → List ℕ
unfolding codes
category_json diff = codes "DIFF"
category_json missing = codes "MISSING"
category_json extra = codes "EXTRA"
category_json same = codes "SAME"

unfoldable pub passes_filter : CompareCategory → FilterSet → Bool
passes_filter diff f = f.diff_shown
passes_filter missing f = f.missing_shown
passes_filter extra f = f.extra_shown
passes_filter same f = f.same_shown

abbrev pub hex_digit : ℕ → ℕ
hex_digit n = if ltb n 10 then b'0' + n else b'a' + (n - 10)

unfoldable pub escape_char : ℕ → List ℕ
escape_char c =
    if c == b'"'
    then b'\\' ∷ b'"' ∷ []
    else if c == b'\\'
    then b'\\' ∷ b'\\' ∷ []
    else if c == 10
    then b'\\' ∷ b'n' ∷ []
    else if c == 13
    then b'\\' ∷ b'r' ∷ []
    else if c == 9
    then b'\\' ∷ b't' ∷ []
    else if ltb c 32
    then b'\\' ∷ b'u' ∷ b'0' ∷ b'0' ∷ hex_digit (c / 16) ∷ hex_digit (c % 16) ∷ []
    else c ∷ []

unfoldable pub json_escape : List ℕ → List ℕ
unfolding escape_char
json_escape [] = []
json_escape (c ∷ s) = escape_char c ++ json_escape s

unfoldable pub render_summary_line_text : CheckResult → List ℕ
unfolding codes print
render_summary_line_text r =
    let c = r.counters in
    (if r.is_partial then codes "[PARTIAL] Check incomplete." else codes "Check completed.")
    ++ (codes " same=" ++ print c.same_files)
    ++ (codes " diff=" ++ print c.diff_files)
    ++ (codes " missing=" ++ print c.missing_files)
    ++ (codes " extra_local=" ++ print c.extra_local)
    ++ (codes " total=" ++ print (total_compared c))
    ++ (codes " mode=" ++ mode_string r.mode)
    ++ (codes " duration_ms=" ++ print r.duration_ms)
    ++ (10 ∷ [])

abbrev pub size_or : List ℕ → Option ℕ → List ℕ
unfolding print
size_or absent none = absent
size_or absent (some n) = print n

unfoldable pub text_line : DiffEntry → List ℕ
unfolding codes
text_line e =
    let sizes =
      codes "  local="
      ++ size_or (b'-' ∷ []) e.local_size
      ++ codes " remote="
      ++ size_or (b'-' ∷ []) e.remote_size in
    let shown = elim e.category as (λ _. List ℕ) [ diff ↦ sizes | _ ↦ [] ] in
    category_label e.category ++ (b' ' ∷ e.path) ++ shown ++ (10 ∷ [])

unfoldable pub text_lines : List DiffEntry → FilterSet → List ℕ
unfolding text_line passes_filter
text_lines [] f = []
text_lines (e ∷ es) f =
    let rest = text_lines es f in if passes_filter e.category f then text_line e ++ rest else rest

unfoldable pub render_text : CheckResult → FilterSet → Bool → List ℕ
unfolding render_summary_line_text text_lines
render_text r f summary_only =
    render_summary_line_text r ++ (if summary_only then [] else text_lines r.entries f)

abbrev pub json_bool : Bool → List ℕ
unfolding codes
json_bool b = if b then codes "true" else codes "false"

unfoldable pub json_entry : DiffEntry → List ℕ
unfolding codes json_escape
json_entry e =
    codes "    {\"type\": \""
    ++ category_json e.category
    ++ codes "\", \"path\": \""
    ++ json_escape e.path
    ++ codes "\", \"local_size\": "
    ++ size_or (codes "null") e.local_size
    ++ codes ", \"remote_size\": "
    ++ size_or (codes "null") e.remote_size
    ++ codes ", \"hash_compared\": "
    ++ json_bool e.hash_compared
    ++ codes "}"

-- The entries that pass, a comma between them, and whether none did.
unfoldable pub json_entries : Bool → List DiffEntry → FilterSet → List ℕ × Bool
unfolding json_entry passes_filter codes
json_entries first [] f = ([], first)
json_entries first (e ∷ es) f =
    let line = (if first then 10 ∷ [] else codes ",\n") ++ json_entry e in
    let skipped = json_entries first es f in
    let (later, none_shown) = json_entries false es f in
    if passes_filter e.category f then (line ++ later, none_shown) else skipped

unfoldable pub render_json : CheckResult → FilterSet → Bool → List ℕ
unfolding json_entries codes print
render_json r f summary_only =
    let c = r.counters in
    let (lines, none_shown) = json_entries true (if summary_only then [] else r.entries) f in
    codes "{\n  \"summary\": {\n    \"same\": "
    ++ print c.same_files
    ++ codes ",\n    \"diff\": "
    ++ print c.diff_files
    ++ codes ",\n    \"missing\": "
    ++ print c.missing_files
    ++ codes ",\n    \"extra_local\": "
    ++ print c.extra_local
    ++ codes ",\n    \"total_compared\": "
    ++ print (total_compared c)
    ++ codes ",\n    \"mode\": \""
    ++ mode_string r.mode
    ++ codes "\",\n    \"duration_ms\": "
    ++ print r.duration_ms
    ++ codes ",\n    \"partial\": "
    ++ json_bool r.is_partial
    ++ codes "\n  },\n  \"differences\": ["
    ++ lines
    ++ (if none_shown then codes "]\n" else codes "\n  ]\n")
    ++ codes "}\n"
