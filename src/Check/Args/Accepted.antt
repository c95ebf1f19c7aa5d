-- ===== src/Check/Args/Accepted.antt =====
-- Options that FastCheck accepts.
use fast_clone.Prelude.{
  ◌≡◌, ◌⊎◌, inl, inr, refl, false, List, [], ◌∷◌, some, String, Result, ok, ◌>>=◌, bind_returns,
  arith, Bool-cases,
}
use fast_clone.Cli.Endpoints.{Endpoint, is_empty, parse_port, parse_host_port}
use fast_clone.Cli.Options.{parse_bounded}
use fast_clone.Cli.Options.Loop.Ranges.{
  InRange, IsPort, parse_bounded-InRange, parse_port-IsPort, parse_host_port-IsPort,
}
use fast_clone.Check.{CheckOptions}
use fast_clone.Check.Args.{
  Parsing, CheckFlag, CheckArity, server_flag, target_flag, password_flag, mode_flag, checkers_flag,
  hash_workers_flag, output_flag, format_flag, filter_flag, port_flag, no_diskio_driver_flag,
  summary_only_flag, unknown_flag, flag_table, find_check_flag, parse_mode, parse_format,
  parse_filter, apply_check_value, apply_check_switch, one_value, no_value, no_flag, check_arity,
  check_loop, finish_check, default_parsing, asks_version, parse_check_args,
}

pub record IsChecked (o : CheckOptions) : Type 0 where
  pub port : IsPort o.port
  pub checkers : InRange 1 4096 o.checkers
  pub hash_workers : InRange 0 4096 o.hash_workers

start-IsChecked : IsChecked default_parsing.options
unfolding default_parsing
start-IsChecked = omega arith

apply_check_switch-IsChecked :
    (f : CheckFlag) (p : Parsing) → IsChecked p.options → IsChecked (apply_check_switch f p).options
unfolding apply_check_switch
apply_check_switch-IsChecked f p h = ground arith

apply_check_value-IsChecked :
    (f : CheckFlag) (v : String) (p q : Parsing)
    → IsChecked p.options
    → apply_check_value f v p ≡ ok q
    → IsChecked q.options
unfolding apply_check_value
apply_check_value-IsChecked mode_flag v p q h r =
    let (m, e, got) = bind_returns (parse_mode v) r in ground arith
apply_check_value-IsChecked checkers_flag v p q h r =
    let message : String = "Invalid --checkers (range: 1..4096)" in
    let (n, e, got) = bind_returns (parse_bounded v "--checkers" 1 4096 message) r in
    ground (arith, parse_bounded-InRange v "--checkers" message n 1 4096 got)
apply_check_value-IsChecked hash_workers_flag v p q h r =
    let message : String = "Invalid --hash-workers (range: 0..4096, 0=auto)" in
    let (n, e, got) = bind_returns (parse_bounded v "--hash-workers" 0 4096 message) r in
    ground (arith, parse_bounded-InRange v "--hash-workers" message n 0 4096 got)
apply_check_value-IsChecked format_flag v p q h r =
    let (m, e, got) = bind_returns (parse_format v) r in ground arith
apply_check_value-IsChecked filter_flag v p q h r =
    let (m, e, got) = bind_returns (parse_filter v) r in ground arith
apply_check_value-IsChecked port_flag v p q h r =
    let (n, e, got) = bind_returns (parse_port v "--port") r in
    ground (arith, parse_port-IsPort v "--port" n got)
apply_check_value-IsChecked server_flag v p q h r = ground arith
apply_check_value-IsChecked target_flag v p q h r = ground arith
apply_check_value-IsChecked password_flag v p q h r = ground arith
apply_check_value-IsChecked output_flag v p q h r = ground arith
apply_check_value-IsChecked no_diskio_driver_flag v p q h r = ground arith
apply_check_value-IsChecked summary_only_flag v p q h r = ground arith
apply_check_value-IsChecked unknown_flag v p q h r = ground arith

CheckArity-cases : (a : CheckArity) → (a ≡ one_value) ⊎ ((a ≡ no_value) ⊎ (a ≡ no_flag))
CheckArity-cases one_value = inl refl
CheckArity-cases no_value = inr (inl refl)
CheckArity-cases no_flag = inr (inr refl)

check_loop-IsChecked :
    (args : List String) (p q : Parsing)
    → IsChecked p.options
    → check_loop args p ≡ ok q
    → IsChecked q.options
unfolding check_loop
check_loop-IsChecked [] p q h r = ground arith
check_loop-IsChecked (arg ∷ []) p q h r =
    let f = find_check_flag flag_table arg in
    elim (CheckArity-cases (check_arity f)) [
      | inl e ↦ ground arith
      | inr (inl e) ↦
          let same : apply_check_switch f p ≡ q = ground arith in
          rw (← same) (apply_check_switch-IsChecked f p h)
      | inr (inr e) ↦ ground arith
    ]
check_loop-IsChecked (arg ∷ value ∷ rest) p q h r =
    let f = find_check_flag flag_table arg in
    let by_value = λ (e : (apply_check_value f value p >>= check_loop rest) ≡ ok q).
      let (u, later, got) = bind_returns (apply_check_value f value p) e in
      check_loop-IsChecked rest u q (apply_check_value-IsChecked f value p u h got) later in
    elim (CheckArity-cases (check_arity f)) [
      | inl e ↦ by_value (ground arith)
      | inr (inl e) ↦
          check_loop-IsChecked (value ∷ rest) (apply_check_switch f p) q
            (apply_check_switch-IsChecked f p h) (ground arith)
      | inr (inr e) ↦ ground arith
    ]

abbrev with_endpoint : CheckOptions → Endpoint → Result CheckOptions
with_endpoint o e = ok (record o { server = e.0; port = e.1 })

finish_check-IsChecked :
    (p : Parsing) (o : CheckOptions)
    → IsChecked p.options
    → finish_check p ≡ ok o
    → IsChecked o × (is_empty o.target ≡ false) × (is_empty o.password ≡ false)
unfolding finish_check
finish_check-IsChecked p o h r =
    let q = p.options in
    let has_target : is_empty q.target ≡ false = ground arith in
    let has_password : is_empty q.password ≡ false = ground arith in
    let last : (parse_host_port p.server_arg q.port >>= with_endpoint q) ≡ ok o = ground arith in
    let (e, same, got) = bind_returns (parse_host_port p.server_arg q.port) last in
    let port = parse_host_port-IsPort p.server_arg q.port e h.port got in
    (ground arith, ground arith, ground arith)

-- Options that FastCheck accepts have a target, a password, a port between 1 and 65535, at most
-- 4096 hash workers and between 1 and 4096 checkers, whatever the arguments.
pub parse_check_args-valid :
    (args : List String) (o : CheckOptions)
    → parse_check_args args ≡ some (ok o)
    → IsChecked o × (is_empty o.target ≡ false) × (is_empty o.password ≡ false)
unfolding parse_check_args
parse_check_args-valid args o h = elim (Bool-cases (asks_version args)) [
  | inl shown ↦ ground arith
  | inr not_shown ↦
      let run : (check_loop args default_parsing >>= finish_check) ≡ ok o = ground arith in
      let (p, last, got) = bind_returns (check_loop args default_parsing) run in
      finish_check-IsChecked p o (check_loop-IsChecked args default_parsing p start-IsChecked got)
        last
]
