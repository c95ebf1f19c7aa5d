-- ===== src/Check/Engine/Ending.antt =====
-- What the exit code and the report of a check say.
use fast_clone.Prelude.{
  ℕ, suc, ◌+◌, ◌^◌, ◌≤◌, ◌<◌, ◌≡◌, ◌↔◌, refl, sym, ◌∙◌, inl, inr, Bool, true, false, not, ◌||◌,
  if◌then◌else◌, List, [], ◌∷◌, ◌++◌, append-nil, append_assoc, Option, length, All, arith,
  Bool-cases, ap,
}
use fast_clone.Entry.{FileEntry}
use fast_clone.Compare.{CompareCategory, same, diff, missing, extra}
use fast_clone.Check.{CheckOptions, identical, diff_found}
use fast_clone.Check.Report.{DiffEntry, CheckResult, passes_filter, CompareCounters}
use fast_clone.Check.Engine.{
  new_result, count_category, Verdict, listed, record_verdict, record_all, extra_verdicts,
  has_no_change, Course, conclude, up, extra_verdict,
}

abbrev is_same : CompareCategory → Bool
is_same same = true
is_same diff = false
is_same missing = false
is_same extra = false

abbrev changed : CompareCounters → ℕ
changed c = c.diff_files + c.missing_files + c.extra_local

number_changed : List Verdict → ℕ
number_changed [] = 0
number_changed (v ∷ vs) =
    let rest = number_changed vs in if is_same v.category then rest else suc rest

up_lem : (n : ℕ) → n + 1 < 2 ^ 64 → up n ≡ suc n
up_lem n h = omega arith

count_category-changed :
    (k : CompareCategory) (c : CompareCounters)
    → changed c + 1 < 2 ^ 64
    → changed (count_category k c) ≡ (if is_same k then changed c else suc (changed c))
unfolding count_category
count_category-changed same c h = refl
count_category-changed diff c h = omega arith
count_category-changed missing c h = omega arith
count_category-changed extra c h = omega arith

record_verdict-counters :
    (o : CheckOptions) (v : Verdict) (r : CheckResult)
    → (record_verdict o v r).counters ≡ count_category v.category r.counters
unfolding record_verdict
record_verdict-counters o v r = ground arith

-- The verdicts that the report lists.
unfoldable pub chosen : CheckOptions → List Verdict → List DiffEntry
chosen o [] = []
chosen o (v ∷ vs) =
    let rest = chosen o vs in
    if o.summary_only || not (passes_filter v.category o.filter) then rest else listed v ∷ rest

record_all-changed :
    (o : CheckOptions) (vs : List Verdict) (r : CheckResult)
    → changed r.counters + length vs < 2 ^ 64
    → changed (record_all o vs r).counters ≡ changed r.counters + number_changed vs
unfolding record_all number_changed
record_all-changed o [] r h = omega arith
record_all-changed o (v ∷ vs) r h =
    let one =
      ap changed (record_verdict-counters o v r)
      ∙ count_category-changed v.category r.counters (omega arith) in
    elim (Bool-cases (is_same v.category)) [
      | inl e ↦
          let now : changed (record_verdict o v r).counters ≡ changed r.counters =
            ground (arith, one, e) in
          let later = record_all-changed o vs (record_verdict o v r) (omega (arith, now)) in
          ground (arith, now, later, e)
      | inr e ↦
          let now : changed (record_verdict o v r).counters ≡ suc (changed r.counters) =
            ground (arith, one, e) in
          let later = record_all-changed o vs (record_verdict o v r) (omega (arith, now)) in
          ground (arith, now, later, e)
    ]

record_all-entries :
    (o : CheckOptions) (vs : List Verdict) (r : CheckResult)
    → (record_all o vs r).entries ≡ r.entries ++ chosen o vs
unfolding record_all chosen record_verdict
record_all-entries o [] r = sym (append-nil r.entries)
record_all-entries o (v ∷ vs) r =
    let later = record_all-entries o vs (record_verdict o v r) in
    elim (Bool-cases (o.summary_only || not (passes_filter v.category o.filter))) [
      | inl e ↦ ground (arith, later, e)
      | inr e ↦ ground (arith, later, e, append_assoc r.entries (listed v ∷ []) (chosen o vs))
    ]

number_changed-zero :
    (vs : List Verdict) → (number_changed vs ≡ 0) ↔ All (λ v. v.category ≡ same) vs
unfolding number_changed
number_changed-zero [] = (λ h. tt, λ h. refl)
number_changed-zero (v ∷ vs) = let later = number_changed-zero vs in ground (arith, later)

number_changed-few : (vs : List Verdict) → number_changed vs ≤ length vs
unfolding number_changed
number_changed-few [] = omega arith
number_changed-few (v ∷ vs) = ground (arith, number_changed-few vs)

length-extra_verdicts :
    (extras : List (List ℕ × Option FileEntry)) → length (extra_verdicts extras) ≡ length extras
unfolding extra_verdicts
length-extra_verdicts [] = refl
length-extra_verdicts (e ∷ extras) = ap suc (length-extra_verdicts extras)

extras_changed :
    (extras : List (List ℕ × Option FileEntry))
    → number_changed (extra_verdicts extras) ≡ length extras
unfolding extra_verdicts number_changed extra_verdict
extras_changed [] = refl
extras_changed (e ∷ extras) = ap suc (extras_changed extras)

has_no_change_lem : (r : CheckResult) → (has_no_change r ≡ true) ↔ (changed r.counters ≡ 0)
unfolding has_no_change
has_no_change_lem r = ground arith

length-zero : (extras : List (List ℕ × Option FileEntry)) → (length extras ≡ 0) ↔ (extras ≡ [])
length-zero [] = (λ h. refl, λ h. refl)
length-zero (e ∷ extras) = (λ h. absurd (omega arith), λ h. absurd (cc))

-- A check that is not cut short.
abbrev pub IsWhole : Course → Type 0
IsWhole course =
    (course.user_interrupted ≡ false)
    × (course.disconnected ≡ false)
    × (course.local_read_failed ≡ false)

-- What the whole of a check records.
abbrev whole_result : CheckOptions → List Verdict → List (List ℕ × Option FileEntry) → CheckResult
whole_result o vs extras = record_all o (extra_verdicts extras) (record_all o vs (new_result o))

whole-changed :
    (o : CheckOptions) (vs : List Verdict) (extras : List (List ℕ × Option FileEntry))
    → length vs + length extras < 2 ^ 64
    → changed (whole_result o vs extras).counters ≡ number_changed vs + length extras
unfolding new_result
whole-changed o vs extras h =
    let first = record_all-changed o vs (new_result o) (omega arith) in
    let few = number_changed-few vs in
    let size = length-extra_verdicts extras in
    let second =
      record_all-changed o (extra_verdicts extras) (record_all o vs (new_result o))
        (omega (arith, first, few, size)) in
    omega (arith, first, second, extras_changed extras)

conclude-whole :
    (o : CheckOptions) (course : Course) (vs : List Verdict)
    (extras : List (List ℕ × Option FileEntry))
    → IsWhole course
    → conclude o course extras (record_all o vs (new_result o)) ≡ (
      if has_no_change (whole_result o vs extras) then identical else diff_found,
      whole_result o vs extras,
    )
unfolding conclude
conclude-whole o course vs extras w = ground (arith, w.0, w.1, w.2)

no_entries :
    (o : CheckOptions) (vs : List Verdict) → (new_result o).entries ++ chosen o vs ≡ chosen o vs
unfolding new_result
no_entries o vs = refl

identical_code : (b : Bool) → ((if b then identical else diff_found) ≡ identical) ↔ (b ≡ true)
identical_code true = (λ h. refl, λ h. refl)
identical_code false = (λ h. absurd (cc), λ h. absurd (cc))

exit_lem :
    (o : CheckOptions) (vs : List Verdict) (extras : List (List ℕ × Option FileEntry))
    → length vs + length extras < 2 ^ 64
    → ((if has_no_change (whole_result o vs extras) then identical else diff_found) ≡ identical)
      ↔ (All (λ v. v.category ≡ same) vs × (extras ≡ []))
exit_lem o vs extras h =
    let total = whole-changed o vs extras h in
    let none_changed = number_changed-zero vs in
    let none_extra = length-zero extras in
    let code = identical_code (has_no_change (whole_result o vs extras)) in
    let test = has_no_change_lem (whole_result o vs extras) in
    (
      λ e.
          let zero_total = test.0 (code.0 e) in
          (
            none_changed.0 (omega (arith, total, zero_total)),
            none_extra.0 (omega (arith, total, zero_total)),
          ),
      λ all_same.
          let zero_changed = none_changed.1 all_same.0 in
          let zero_extra = none_extra.1 all_same.1 in
          code.1 (test.1 (omega (arith, total, zero_changed, zero_extra))),
    )

-- A check of fewer than 2^64 files, extra ones included, that is not cut short ends with the
-- exit code for identical sides exactly when every verdict is `Same` and there is no extra file;
-- and its result lists the verdicts and the extra files that the filter lets through, in their
-- order.
pub conclude_lem :
    (o : CheckOptions) (course : Course) (vs : List Verdict)
    (extras : List (List ℕ × Option FileEntry))
    → IsWhole course
    → length vs + length extras < 2 ^ 64
    → (((conclude o course extras (record_all o vs (new_result o))).0 ≡ identical)
        ↔ (All (λ v. v.category ≡ same) vs × (extras ≡ [])))
      × ((conclude o course extras (record_all o vs (new_result o))).1.entries
          ≡ chosen o vs ++ chosen o (extra_verdicts extras))
conclude_lem o course vs extras w h =
    let e = conclude-whole o course vs extras w in
    (
      rw e (exit_lem o vs extras h),
      rw e (
          record_all-entries o (extra_verdicts extras) (record_all o vs (new_result o))
          ∙ ap (λ l. l ++ chosen o (extra_verdicts extras))
              (record_all-entries o vs (new_result o) ∙ no_entries o vs)),
    )
