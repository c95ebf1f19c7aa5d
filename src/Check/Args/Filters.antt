-- ===== src/Check/Args/Filters.antt =====
-- The categories that `--filter` selects.
use text.Mathlib.Text.{◌==◌ as ◌is◌}
use text.Mathlib.TextEquality.{eq_iff}
use fast_clone.Prelude.{
  ◌≡◌, ◌⊎◌, inl, inr, refl, Bool, true, false, ◌||◌, if◌then◌else◌, List, [], ◌∷◌, String, ok,
  ◌>>=◌, bind_returns, All, arith, Bool-cases,
}
use fast_clone.Cli.Endpoints.{is_empty, tokens}
use fast_clone.Check.{FilterSet}
use fast_clone.Check.Args.{add_category, filter_loop, parse_filter, no_filter}

pub has_token : String → List String → Bool
has_token name [] = false
has_token name (token ∷ rest) =
    let later = has_token name rest in if token is name then true else later

abbrev pub IsCategory : String → Type 0
IsCategory t =
    (is_empty t ≡ true)
    ⊎ (((t is "DIFF") ≡ true)
        ⊎ (((t is "MISSING") ≡ true) ⊎ (((t is "EXTRA") ≡ true) ⊎ ((t is "SAME") ≡ true))))

-- What the tokens add to a filter.
record Adds (ts : List String) (f g : FilterSet) : Type 0 where
  diff : g.diff_shown ≡ (f.diff_shown || has_token "DIFF" ts)
  missing : g.missing_shown ≡ (f.missing_shown || has_token "MISSING" ts)
  extra : g.extra_shown ≡ (f.extra_shown || has_token "EXTRA" ts)
  same : g.same_shown ≡ (f.same_shown || has_token "SAME" ts)
  known : All IsCategory ts

-- A token is one category at most.
other_name : (t a b : String) → (t is a) ≡ true → (a is b) ≡ false → (t is b) ≡ false
other_name t a b h e = let same : t ≡ a = (eq_iff t a).0 h in rw same e

empty_name :
    (t : String)
    → is_empty t ≡ true
    → (t is "DIFF") ≡ false
      × ((t is "MISSING") ≡ false)
      × ((t is "EXTRA") ≡ false)
      × ((t is "SAME") ≡ false)
empty_name String.[] h = (refl, refl, refl, refl)
empty_name (String.◌∷◌ c s) h = cc

add_category-Adds : (t : String) (f g : FilterSet) → add_category t f ≡ ok g → Adds (t ∷ []) f g
unfolding add_category has_token
add_category-Adds t f g h = ground (
  arith,
  other_name t "DIFF" "MISSING",
  other_name t "DIFF" "EXTRA",
  other_name t "DIFF" "SAME",
  other_name t "MISSING" "EXTRA",
  other_name t "MISSING" "SAME",
  other_name t "EXTRA" "SAME",
)

Adds-trans :
    (t : String) (ts : List String) (f g k : FilterSet)
    → Adds (t ∷ []) f g
    → Adds ts g k
    → Adds (t ∷ ts) f k
unfolding has_token
Adds-trans t ts f g k a b = ground arith

skipped-Adds :
    (t : String) (ts : List String) (f g : FilterSet)
    → is_empty t ≡ true
    → Adds ts f g
    → Adds (t ∷ ts) f g
unfolding has_token
skipped-Adds t ts f g empty a = ground (arith, empty_name t empty)

filter_loop-Adds :
    (ts : List String) (any : Bool) (f g : FilterSet) → filter_loop ts any f ≡ ok g → Adds ts f g
unfolding filter_loop has_token
filter_loop-Adds [] any f g h = ground arith
filter_loop-Adds (t ∷ ts) any f g h = elim (Bool-cases (is_empty t)) [
  | inl empty ↦ skipped-Adds t ts f g empty (filter_loop-Adds ts any f g (ground arith))
  | inr full ↦
      let counted : (add_category t f >>= filter_loop ts true) ≡ ok g = ground arith in
      let (k, later, first) = bind_returns (add_category t f) counted in
      Adds-trans t ts f k g (add_category-Adds t f k first) (filter_loop-Adds ts true k g later)
]

-- A filter that is accepted shows exactly the categories that are named between its commas, and
-- names no other.
pub parse_filter_lem :
    (v : String) (f : FilterSet)
    → parse_filter v ≡ ok f
    → (f.diff_shown ≡ has_token "DIFF" (tokens b',' v))
      × (f.missing_shown ≡ has_token "MISSING" (tokens b',' v))
      × (f.extra_shown ≡ has_token "EXTRA" (tokens b',' v))
      × (f.same_shown ≡ has_token "SAME" (tokens b',' v))
      × All IsCategory (tokens b',' v)
unfolding parse_filter
parse_filter_lem v f h =
    let a = filter_loop-Adds (tokens b',' v) false no_filter f h in
    (a.diff, a.missing, a.extra, a.same, a.known)
