-- ===== src/Runs/Checks.antt =====
-- Runs of FastCheck's report and of its ending.
use fast_clone.Prelude.{
  ℕ, ◌≡◌, ◌↔◌, refl, true, false, List, [], ◌∷◌, ◌++◌, Option, none, some, pos, All, arith,
}
use fast_clone.Entry.{FileEntry}
use fast_clone.Compare.{same, diff}
use fast_clone.Check.{CheckOptions, identical}
use fast_clone.Check.Args.{default_parsing}
use fast_clone.Check.Report.{json_escape}
use fast_clone.Check.Report.Json.{read_json, plain, read_json-json_escape}
use fast_clone.Check.Engine.{Verdict, Course, conclude, record_all, new_result, extra_verdicts}
use fast_clone.Check.Engine.Ending.{chosen, conclude_lem}

-- A path with a quote, a control character and a byte of UTF-8.
abbrev odd_path : List ℕ
odd_path = b'a' ∷ b'"' ∷ 7 ∷ 195 ∷ []

read_json-json_escape_example :
    read_json plain (json_escape odd_path ++ (b'"' ∷ (b'}' ∷ []))) ≡ some (odd_path, b'}' ∷ [])
read_json-json_escape_example = read_json-json_escape odd_path (b'}' ∷ [])

abbrev seen_file : FileEntry
seen_file = record {
  relative_path = b'a' ∷ [];
  is_directory = false;
  file_size = 10;
  mtime_ns = pos 7;
}

abbrev two_verdicts : List Verdict
two_verdicts =
    record { category = same; remote = seen_file; local = some seen_file; hash_compared = false }
    ∷ record { category = diff; remote = seen_file; local = some seen_file; hash_compared = true }
    ∷ []

abbrev undisturbed : Course
undisturbed = record { user_interrupted = false; disconnected = false; local_read_failed = false }

abbrev one_extra : List (List ℕ × Option FileEntry)
one_extra = (b'x' ∷ [], none) ∷ []

abbrev chosen_options : CheckOptions
unfolding default_parsing
chosen_options = default_parsing.options

conclude_lem_example :
    (((conclude chosen_options undisturbed one_extra
          (record_all chosen_options two_verdicts (new_result chosen_options))).0
        ≡ identical)
      ↔ (All (λ v. v.category ≡ same) two_verdicts × (one_extra ≡ [])))
    × ((conclude chosen_options undisturbed one_extra
          (record_all chosen_options two_verdicts (new_result chosen_options))).1.entries
        ≡ chosen chosen_options two_verdicts ++ chosen chosen_options (extra_verdicts one_extra))
conclude_lem_example =
    conclude_lem chosen_options undisturbed two_verdicts one_extra (refl, refl, refl) (omega arith)
