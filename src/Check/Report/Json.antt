-- ===== src/Check/Report/Json.antt =====
-- A path in the report is read back by a reader of JSON strings.
use fast_clone.Prelude.{
  ℕ, zero, suc, ◌+◌, ◌-◌, ◌*◌, ◌/◌, ◌%◌, ◌<◌, ◌≡◌, refl, ◌∙◌, ap, inl, inr, if◌then◌else◌, ◌==◌,
  ltb, leb, ◌&&◌, List, [], ◌∷◌, ◌++◌, append_assoc, Option, none, some, arith, Bool-cases, ◌⊎◌,
  ◌≢◌, ◌≤◌, ltb→lt, ltb→ge,
}
use fast_clone.Check.Report.{hex_digit, escape_char, json_escape}

-- Where the reader is: between characters, behind a backslash, or in the digits of `\u`, with how
-- many are to come behind the next one and the value so far.
pub data Reading : Type 0 where
  plain : Reading
  escaped : Reading
  digits : ℕ → ℕ → Reading

pub data Action : Type 0 where
  ends : Action
  gives : ℕ → Action
  goes : Reading → Action
  refuses : Action

abbrev digit_value : ℕ → Option ℕ
digit_value c =
    if leb b'0' c && leb c b'9'
    then some (c - b'0')
    else if leb b'a' c && leb c b'f'
    then some (c - b'a' + 10)
    else if leb b'A' c && leb c b'F'
    then some (c - b'A' + 10)
    else none

-- An escape of a code point of one byte, below 128; others are refused.
abbrev with_digit : ℕ → ℕ → Option ℕ → Action
with_digit _ v none = refuses
with_digit zero v (some d) = if ltb (16 * v + d) 128 then gives (16 * v + d) else refuses
with_digit (suc k) v (some d) = goes (digits k (16 * v + d))

unfoldable pub json_step : Reading → ℕ → Action
json_step plain c =
    if c == b'"'
    then ends
    else if c == b'\\'
    then goes escaped
    else if ltb c 32
    then refuses
    else gives c
json_step escaped c =
    if (c == b'"')
    then gives b'"'
    else if c == b'\\'
    then gives b'\\'
    else if c == b'/'
    then gives b'/'
    else if c == b'b'
    then gives 8
    else if c == b'f'
    then gives 12
    else if c == b'n'
    then gives 10
    else if c == b'r'
    then gives 13
    else if c == b't'
    then gives 9
    else if c == b'u'
    then goes (digits 3 0)
    else refuses
json_step (digits k v) c = with_digit k v (digit_value c)

abbrev pub and_first : ℕ → Option (List ℕ × List ℕ) → Option (List ℕ × List ℕ)
and_first c none = none
and_first c (some (s, rest)) = some (c ∷ s, rest)

-- What is read up to the closing quote, and what follows it.
unfoldable pub read_json : Reading → List ℕ → Option (List ℕ × List ℕ)
unfolding json_step
read_json r [] = none
read_json r (c ∷ s) = elim (json_step r c) [
  | ends ↦ some ([], s)
  | gives b ↦ and_first b (read_json plain s)
  | goes next ↦ read_json next s
  | refuses ↦ none
]

digit_value-hex_digit : (n : ℕ) → n < 16 → digit_value (hex_digit n) ≡ some n
digit_value-hex_digit n h = ground arith

hex_step : (k v n : ℕ) → n < 16 → json_step (digits k v) (hex_digit n) ≡ with_digit k v (some n)
unfolding json_step
hex_step k v n h = ap (with_digit k v) (digit_value-hex_digit n h)

read_goes :
    (r next : Reading) (c : ℕ) (s : List ℕ)
    → json_step r c ≡ goes next
    → read_json r (c ∷ s) ≡ read_json next s
unfolding read_json
read_goes r next c s h = rw (h, read_json) refl

read_gives :
    (r : Reading) (c b : ℕ) (s : List ℕ)
    → json_step r c ≡ gives b
    → read_json r (c ∷ s) ≡ and_first b (read_json plain s)
unfolding read_json
read_gives r c b s h = rw (h, read_json) refl

last_digit : (v c : ℕ) → c < 32 → 16 * v + c % 16 ≡ c → with_digit 0 v (some (c % 16)) ≡ gives c
last_digit v c h e = ground arith

-- The two digits of a control character.
read_control :
    (c : ℕ) (t : List ℕ)
    → c < 32
    → read_json (digits 1 0) (hex_digit (c / 16) ∷ hex_digit (c % 16) ∷ t)
      ≡ and_first c (read_json plain t)
read_control c t h =
    let v = 16 * 0 + c / 16 in
    read_goes (digits 1 0) (digits 0 v) (hex_digit (c / 16)) (hex_digit (c % 16) ∷ t)
      (hex_step 1 0 (c / 16) (omega arith))
    ∙ read_gives (digits 0 v) (hex_digit (c % 16)) c t
        (hex_step 0 v (c % 16) (omega arith) ∙ last_digit v c h (omega arith))

-- The characters that have an escape of their own.
abbrev IsNamed : ℕ → Type 0
IsNamed c = (c ≡ b'"') ⊎ ((c ≡ b'\\') ⊎ ((c ≡ 10) ⊎ ((c ≡ 13) ⊎ (c ≡ 9))))

IsNamed-Dec : (c : ℕ) → IsNamed c ⊎ ((c ≢ b'"') × (c ≢ b'\\') × (c ≢ 10) × (c ≢ 13) × (c ≢ 9))
IsNamed-Dec c = ground arith

escape_char-control :
    (c : ℕ)
    → (c ≢ b'"') × (c ≢ b'\\') × (c ≢ 10) × (c ≢ 13) × (c ≢ 9)
    → c < 32
    → escape_char c ≡ b'\\' ∷ b'u' ∷ b'0' ∷ b'0' ∷ hex_digit (c / 16) ∷ hex_digit (c % 16) ∷ []
unfolding escape_char
escape_char-control c other h = ground arith

escape_char-printable :
    (c : ℕ)
    → (c ≢ b'"') × (c ≢ b'\\') × (c ≢ 10) × (c ≢ 13) × (c ≢ 9)
    → 32 ≤ c
    → (escape_char c ≡ c ∷ []) × (json_step plain c ≡ gives c)
unfolding escape_char json_step
escape_char-printable c other h = (ground arith, ground arith)

read_escape_char :
    (c : ℕ) (t : List ℕ) → read_json plain (escape_char c ++ t) ≡ and_first c (read_json plain t)
unfolding read_json escape_char json_step
read_escape_char c t = elim (IsNamed-Dec c) [
  | inl (inl e) ↦ rw e refl
  | inl (inr (inl e)) ↦ rw e refl
  | inl (inr (inr (inl e))) ↦ rw e refl
  | inl (inr (inr (inr (inl e)))) ↦ rw e refl
  | inl (inr (inr (inr (inr e)))) ↦ rw e refl
  | inr other ↦ elim (Bool-cases (ltb c 32)) [
    | inl control ↦
        rw (escape_char-control c other (ltb→lt c 32 control))
          (read_control c t (ltb→lt c 32 control))
    | inr printable ↦
        let (shown, step) = escape_char-printable c other (ltb→ge c 32 printable) in
        rw shown (read_gives plain c c t step)
  ]
]

-- A path as the report writes it, with the quote behind it, is read by a reader of JSON strings
-- as that path, whatever bytes it has and whatever follows.
pub read_json-json_escape :
    (s rest : List ℕ) → read_json plain (json_escape s ++ (b'"' ∷ rest)) ≡ some (s, rest)
unfolding json_escape read_json
read_json-json_escape [] rest = refl
read_json-json_escape (c ∷ s) rest =
    ap (read_json plain) (append_assoc (escape_char c) (json_escape s) (b'"' ∷ rest))
    ∙ read_escape_char c (json_escape s ++ (b'"' ∷ rest))
    ∙ ap (and_first c) (read_json-json_escape s rest)
