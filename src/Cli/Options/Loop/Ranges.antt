-- ===== src/Cli/Options/Loop/Ranges.antt =====
-- Every number that the options hold is in the range that the program promises for it.
use fast_clone.Prelude.{
  ℕ, ◌*◌, ◌≤◌, ◌<◌, ◌≡◌, ◌⊎◌, inl, inr, refl, true, ◌||◌, if◌then◌else◌, List, [], ◌∷◌, ◌++◌,
  String, Result, ok, throw, ◌>>=◌, bind_returns, All, arith, Bool-cases, Option-cases, if_holds,
  ◌≢◌,
}
use fast_clone.Cli.Numbers.{
  codes, parse_long_strict, parse_size_bytes_strict, parse_duration_ms_strict,
}
use fast_clone.Cli.Endpoints.{
  Endpoint, LinkPin, is_empty, cut, parse_port, parse_host_port, parse_endpoints, some_endpoints,
  tokens, parse_server_list, add_endpoints, has_endpoint, parse_link_pin,
}
use fast_clone.Cli.Options.{
  parse_bounded, parse_size_in, parse_zero_or_size_in, parse_positive_duration, parse_block,
  is_block_size, LargeFileBlockMode, mib, off, on, auto_block,
}
use text.Mathlib.Text.{◌==◌ as ◌is◌}

abbrev pub InRange : ℕ → ℕ → ℕ → Type 0
InRange lo hi n = (lo ≤ n) × (n ≤ hi)

module _ (v name message : String) (n : ℕ) where
  pub parse_bounded-InRange :
      (lo hi : ℕ) → parse_bounded v name lo hi message ≡ ok n → InRange lo hi n
  unfolding parse_bounded
  parse_bounded-InRange lo hi h =
      let (z, e, got) = bind_returns (parse_long_strict (codes v) name) h in ground arith

  pub parse_size_in-InRange :
      (lo hi : ℕ) → parse_size_in v name lo hi message ≡ ok n → InRange lo hi n
  unfolding parse_size_in
  parse_size_in-InRange lo hi h =
      let (z, e, got) = bind_returns (parse_size_bytes_strict (codes v) name) h in ground arith

  pub parse_zero_or_size_in-InRange :
      (lo hi : ℕ) → parse_zero_or_size_in v name lo hi message ≡ ok n → (n ≡ 0) ⊎ InRange lo hi n
  unfolding parse_zero_or_size_in
  parse_zero_or_size_in-InRange lo hi h =
      let (z, e, got) = bind_returns (parse_size_bytes_strict (codes v) name) h in ground arith

  pub parse_positive_duration-pos : parse_positive_duration v name message ≡ ok n → 0 < n
  unfolding parse_positive_duration
  parse_positive_duration-pos h =
      let (z, e, got) = bind_returns (parse_duration_ms_strict (codes v) name) h in ground arith

abbrev pub IsPort : ℕ → Type 0
IsPort n = InRange 1 65535 n

pub parse_port-IsPort : (v name : String) (n : ℕ) → parse_port v name ≡ ok n → IsPort n
unfolding parse_port
parse_port-IsPort v name n h =
    let (z, e, got) = bind_returns (parse_long_strict (codes v) name) h in ground arith

abbrev named_by : String → ℕ → Result Endpoint
named_by host n = ok (host, n)

abbrev pinned_by : String → Endpoint → Result LinkPin
pinned_by local e = ok (record { local = local; server = e.0; port = e.1 })

pub parse_host_port-IsPort :
    (input : String) (default_port : ℕ) (e : Endpoint)
    → IsPort default_port
    → parse_host_port input default_port ≡ ok e
    → IsPort e.1
unfolding parse_host_port
parse_host_port-IsPort input default_port e valid h = elim (Option-cases (cut b':' input)) [
  | inl whole ↦ ground arith
  | inr (parts, found) ↦ elim (Bool-cases (is_empty parts.0 || is_empty parts.1)) [
    | inl missing ↦ ground arith
    | inr present ↦
        let named : (parse_port parts.1 "--server" >>= λ n. named_by parts.0 n) ≡ ok e =
          ground arith in
        let (n, same, got) = bind_returns (parse_port parts.1 "--server") named in
        let port : n ≡ e.1 = ground arith in
        rw (← port) (parse_port-IsPort parts.1 "--server" n got)
  ]
]

abbrev pub ArePorts : List Endpoint → Type 0
ArePorts = All (λ e. IsPort e.1)

parse_endpoints-ArePorts :
    (ts : List String) (default_port : ℕ) (es : List Endpoint)
    → IsPort default_port
    → parse_endpoints ts default_port ≡ ok es
    → ArePorts es
unfolding parse_endpoints
parse_endpoints-ArePorts [] default_port es valid h =
    let none_left : [] ≡ es = cc in rw (← none_left) tt
parse_endpoints-ArePorts (t ∷ ts) default_port es valid h = elim (Bool-cases (is_empty t)) [
  | inl empty ↦ parse_endpoints-ArePorts ts default_port es valid (ground arith)
  | inr full ↦
      let all : (parse_host_port t default_port >>= λ e.
      (parse_endpoints ts default_port >>= λ l. ok (e ∷ l)))
          ≡ ok es =
        ground arith in
      let (e, more, got) = bind_returns (parse_host_port t default_port) all in
      let (l, same, rest) = bind_returns (parse_endpoints ts default_port) more in
      let whole : e ∷ l ≡ es = cc in
      rw (← whole) (
        parse_host_port-IsPort t default_port e valid got,
        parse_endpoints-ArePorts ts default_port l valid rest,
      )
]

pub parse_server_list-ArePorts :
    (input : String) (default_port : ℕ) (es : List Endpoint)
    → IsPort default_port
    → parse_server_list input default_port ≡ ok es
    → ArePorts es × (es ≢ [])
unfolding parse_server_list
parse_server_list-ArePorts input default_port es valid h =
    let (l, e, got) = bind_returns (parse_endpoints (tokens b',' input) default_port) h in
    go l e (parse_endpoints-ArePorts (tokens b',' input) default_port l valid got)
  where
    go : (l : List Endpoint) → some_endpoints l ≡ ok es → ArePorts l → ArePorts es × (es ≢ [])
    go [] e ports = cc
    go (x ∷ l) e ports = let same : x ∷ l ≡ es = cc in rw (← same) (ports, cc)

ArePorts-snoc :
    (es : List Endpoint) (e : Endpoint) → ArePorts es → IsPort e.1 → ArePorts (es ++ (e ∷ []))
ArePorts-snoc [] e h p = (p, tt)
ArePorts-snoc (x ∷ es) e h p = (h.0, ArePorts-snoc es e h.1 p)

pub add_endpoints-ArePorts :
    (servers es : List Endpoint)
    → ArePorts servers
    → ArePorts es
    → ArePorts (add_endpoints servers es)
unfolding add_endpoints
add_endpoints-ArePorts servers [] h k = h
add_endpoints-ArePorts servers (e ∷ es) h k =
    add_endpoints-ArePorts (if has_endpoint e servers then servers else servers ++ (e ∷ [])) es
      (if_holds ArePorts (has_endpoint e servers) servers (servers ++ (e ∷ [])) (λ p. h)
        (λ p. ArePorts-snoc servers e h k.0))
      k.1

pub parse_link_pin-IsPort :
    (input : String) (default_port : ℕ) (pin : LinkPin)
    → IsPort default_port
    → parse_link_pin input default_port ≡ ok pin
    → IsPort pin.port
unfolding parse_link_pin
parse_link_pin-IsPort input default_port pin valid h = elim (Option-cases (cut b'=' input)) [
  | inl whole ↦ ground arith
  | inr (parts, found) ↦ elim (Bool-cases (is_empty parts.0 || is_empty parts.1)) [
    | inl missing ↦ ground arith
    | inr present ↦
        let named : (parse_host_port parts.1 default_port >>= λ e. pinned_by parts.0 e) ≡ ok pin =
          ground arith in
        let (e, same, got) = bind_returns (parse_host_port parts.1 default_port) named in
        let port : e.1 ≡ pin.port = ground arith in
        rw (← port) (parse_host_port-IsPort parts.1 default_port e valid got)
  ]
]

sized : ℕ → Result (LargeFileBlockMode × ℕ)
sized v =
    if is_block_size v
    then ok (on, v)
    else throw "Invalid --large-file-block (range 1M..4G, power of two; suffix K|M|G; or auto|off)"

sized-size :
    (v : ℕ) (block : LargeFileBlockMode × ℕ) → sized v ≡ ok block → is_block_size block.1 ≡ true
unfolding sized
sized-size v block h = elim (Bool-cases (is_block_size v)) [
  | inl good ↦ let same : v ≡ block.1 = ground arith in rw (← same) good
  | inr bad ↦ ground arith
]

abbrev Sized : Result (LargeFileBlockMode × ℕ) → Type 0
Sized r = (block : LargeFileBlockMode × ℕ) → r ≡ ok block → is_block_size block.1 ≡ true

default_block : (mode : LargeFileBlockMode) → Sized (ok (mode, 32 * mib))
default_block mode block h = let same : 32 * mib ≡ block.1 = ground arith in rw (← same) refl

pub parse_block-size : (v : String) → Sized (parse_block v)
unfolding parse_block sized
parse_block-size v =
    if_holds Sized (v is "off") (ok (off, 32 * mib)) _ (λ e. default_block off)
      λ e.
        if_holds Sized (v is "auto") (ok (auto_block, 32 * mib)) _ (λ e. default_block auto_block)
          λ e.
            if_holds Sized (v is "on") _ _ (λ e block h. cc)
              λ e block h.
                let (n, size, got) =
                  bind_returns (parse_size_bytes_strict (codes v) "--large-file-block") h in
                sized-size n block size
