-- ===== src/Cli/Endpoints.antt =====
-- Endpoints and link pins of FastClone/cli.cpp. `find` and `substr` at a character are a cut.
use Prim.Native.Char.{Char, code}
use text.Mathlib.Text.{◌==◌ as ◌is◌}
use fast_clone.Prelude.{
  ℕ, Bool, true, false, ◌&&◌, ◌||◌, if◌then◌else◌, ◌==◌, ltb, leb, List, [], ◌∷◌, ◌++◌, Option,
  none, some, String, ℤ, pos, negsuc, pos_part, Result, ok, throw, ◌>>=◌,
}
use fast_clone.Cli.Numbers.{codes, parse_long_strict}

abbrev pub is_empty : String → Bool
is_empty String.[] = true
is_empty (String.◌∷◌ c s) = false

abbrev pub before : Char → Option (String × String) → Option (String × String)
before c none = none
before c (some (s, t)) = some (String.◌∷◌ c s, t)

-- What stands before and behind the first `mark`.
unfoldable pub cut : ℕ → String → Option (String × String)
cut mark String.[] = none
cut mark (String.◌∷◌ c s) =
    let rest = before c (cut mark s) in if code c == mark then some (String.[], s) else rest

-- `value <= 0 || value > 65535`.
abbrev pub is_port : ℤ → Bool
is_port (negsuc n) = false
is_port (pos n) = ltb 0 n && leb n 65535

abbrev pub Endpoint : Type 0
Endpoint = String × ℕ

unfoldable pub parse_port : String → String → Result ℕ
unfolding parse_long_strict
parse_port value name = do
  n ← parse_long_strict (codes value) name
  if is_port n then ok (pos_part n) else throw "Port out of range"

unfoldable pub parse_host_port : String → ℕ → Result Endpoint
unfolding cut parse_port
parse_host_port input default_port = elim (cut b':' input) [
  | none ↦
      if is_empty input then throw "Invalid --server, host is empty" else ok (input, default_port)
  | some (host, port) ↦
      if is_empty host || is_empty port
      then throw "Invalid --server, expected host:port"
      else (parse_port port "--server" >>= λ n. ok (host, n))
]

abbrev pub onto_first : Char → List String → List String
onto_first c [] = (String.◌∷◌ c String.[]) ∷ []
onto_first c (s ∷ ss) = (String.◌∷◌ c s) ∷ ss

-- The tokens between commas, empty ones too.
unfoldable pub tokens : ℕ → String → List String
tokens mark String.[] = String.[] ∷ []
tokens mark (String.◌∷◌ c s) =
    let rest = tokens mark s in if code c == mark then String.[] ∷ rest else onto_first c rest

unfoldable pub parse_endpoints : List String → ℕ → Result (List Endpoint)
unfolding parse_host_port
parse_endpoints [] default_port = ok []
parse_endpoints (token ∷ rest) default_port =
    let others = parse_endpoints rest default_port in
    let all = (parse_host_port token default_port >>= λ e. (others >>= λ es. ok (e ∷ es))) in
    if is_empty token then others else all

abbrev pub some_endpoints : List Endpoint → Result (List Endpoint)
some_endpoints [] = throw "Invalid --server, no endpoints parsed"
some_endpoints (e ∷ es) = ok (e ∷ es)

unfoldable pub parse_server_list : String → ℕ → Result (List Endpoint)
unfolding parse_endpoints tokens
parse_server_list input default_port =
    parse_endpoints (tokens b',' input) default_port >>= some_endpoints

unfoldable pub same_endpoint : Endpoint → Endpoint → Bool
same_endpoint a b = (a.0 is b.0) && (a.1 == b.1)

unfoldable pub has_endpoint : Endpoint → List Endpoint → Bool
unfolding same_endpoint
has_endpoint e [] = false
has_endpoint e (x ∷ xs) = same_endpoint x e || has_endpoint e xs

-- The loop that adds the endpoints of a `--server`, exact repeats left out.
unfoldable pub add_endpoints : List Endpoint → List Endpoint → List Endpoint
unfolding has_endpoint
add_endpoints servers [] = servers
add_endpoints servers (e ∷ es) =
    add_endpoints (if has_endpoint e servers then servers else servers ++ (e ∷ [])) es

pub record LinkPin : Type 0 where
  pub local : String
  pub server : String
  pub port : ℕ

unfoldable pub parse_link_pin : String → ℕ → Result LinkPin
unfolding cut parse_host_port
parse_link_pin input default_port = elim (cut b'=' input) [
  | none ↦ throw "Invalid --link, expected <localIP|iface>=<serverIP[:port]>"
  | some (local, rest) ↦
      if is_empty local || is_empty rest
      then throw "Invalid --link, expected <localIP|iface>=<serverIP[:port]>"
      else (parse_host_port rest default_port >>= λ e.
          ok (record { local = local; server = e.0; port = e.1 }))
]
