-- ===== src/Cli/Options/Loop.antt =====
-- The loop of `ParseCliArgs` over the arguments, and the checks behind it. Given from outside:
-- `strtod` with its test for a finite number that ends the text, the current directory, and
-- `weakly_canonical`. The usage text that goes to the error stream is left out.
pub mod Ranges
pub mod Accepted
use Prim.Native.String.{◌++◌ as ◌<>◌}
use text.Mathlib.Text.{◌==◌ as ◌is◌, starts_with}
use fast_clone.Prelude.{
  ℕ, ◌+◌, ◌-◌, ◌*◌, ◌%◌, ◌^◌, Bool, true, false, not, ◌&&◌, ◌||◌, if◌then◌else◌, ◌==◌, ltb, leb,
  List, [], ◌∷◌, ◌++◌, Option, none, some, String, Result, ok, throw, ◌>>=◌, ◌>>◌, ensure, Doubles,
}
use fast_clone.Cli.Endpoints.{
  Endpoint, LinkPin, is_empty, parse_port, parse_server_list, add_endpoints, parse_link_pin,
}
use fast_clone.Cli.Options.{
  Mode, server, client, LargeFileBlockMode, auto_block, CliOptions, default_options, kib, mib, gib,
  is_on, is_client, Flag, dir, target, port_flag, server_flag, large_file_threshold, delta_min_size,
  tcp_send_buffer, tcp_recv_buffer, aux_weight_flag, large_file_lane_flag, large_file_block, link,
  password_flag, streams, chunk_kb, queued_file_size, server_hash_workers_flag,
  enable_hash_memcache_flag, unbuffered_writes_flag, once, once_multi_flag, bind_loopback_flag,
  once_idle_grace, wait_connect_timeout, diag, reconnect_retries_flag, unknown, flag_of,
  parse_bounded, parse_size_in, parse_zero_or_size_in, parse_positive_duration, parse_lane,
  parse_block,
}

-- How many values an argument takes: one, none, one if it does not start with "--".
pub data Arity : Type 0 where
  one_value no_value maybe_value no_flag : Arity

abbrev pub arity : Flag → Arity
arity large_file_block = maybe_value
arity enable_hash_memcache_flag = no_value
arity unbuffered_writes_flag = no_value
arity once = no_value
arity once_multi_flag = no_value
arity bind_loopback_flag = no_value
arity diag = no_value
arity unknown = no_flag
arity _ = one_value

abbrev pub front_or : Endpoint → List Endpoint → Endpoint
front_or e [] = e
front_or e (x ∷ xs) = x

module _ (d : Doubles) (parse_double : String → Option d.Double) where
  unfoldable pub parse_double_strict : String → String → Result d.Double
  parse_double_strict value name = elim (parse_double value) as (λ _. Result d.Double) [
    | none ↦ if is_empty value then throw (name <> " is empty") else throw ("Invalid " <> name)
    | some w ↦ if is_empty value then throw (name <> " is empty") else ok w
  ]

  unfoldable pub parse_weight : String → Result d.Double
  unfolding parse_double_strict
  parse_weight v = parse_double_strict v "--aux-weight" >>= λ w.
      if d.less_eq w (d.lit 0 1) || d.less (d.lit 16 1) w
      then throw "Invalid --aux-weight (range: (0,16])"
      else ok w

  unfoldable pub with_servers : List Endpoint → CliOptions d → CliOptions d
  unfolding add_endpoints
  with_servers endpoints o =
      let servers = add_endpoints o.servers endpoints in
      let first = front_or (o.host, o.port) servers in
      record o { servers = servers; host = first.0; port = first.1 }

  -- An argument with its value.
  unfoldable pub apply_value : Flag → String → CliOptions d → Result (CliOptions d)
  unfolding with_servers parse_weight
  apply_value dir v o = ok (record o { root_dir = v })
  apply_value target v o = ok (record o { root_dir = v })
  apply_value port_flag v o = do n ← parse_port v "--port"; ok (record o { port = n })
  apply_value server_flag v o = do
    endpoints ← parse_server_list v o.port
    ok (with_servers endpoints o)
  apply_value large_file_threshold v o = do
    n ←
        parse_size_in v "--large-file-threshold" mib (1024 * gib)
          "Invalid --large-file-threshold (range: 1M..1T)"
    ok (record o { large_file_threshold_bytes = n })
  apply_value delta_min_size v o = do
    n ←
        parse_zero_or_size_in v "--delta-min-size" mib (1024 * gib)
          "Invalid --delta-min-size (range: 0 or 1M..1T)"
    ok (record o { delta_min_size_bytes = n })
  apply_value tcp_send_buffer v o = do
    n ←
        parse_zero_or_size_in v "--tcp-send-buffer" (64 * kib) gib
          "Invalid --tcp-send-buffer (range: 0 or 64K..1G)"
    ok (record o { tcp_send_buffer_bytes = n })
  apply_value tcp_recv_buffer v o = do
    n ←
        parse_zero_or_size_in v "--tcp-recv-buffer" (64 * kib) gib
          "Invalid --tcp-recv-buffer (range: 0 or 64K..1G)"
    ok (record o { tcp_recv_buffer_bytes = n })
  apply_value aux_weight_flag v o = do w ← parse_weight v; ok (record o { aux_weight = w })
  apply_value large_file_lane_flag v o = do
    lane ← parse_lane v
    ok (record o { large_file_lane = lane; large_file_lane_flagged = true })
  apply_value large_file_block v o = do
    block ← parse_block v
    ok (record o { large_file_block_mode = block.0; large_file_block_bytes = block.1 })
  apply_value link v o = do
    pin ← parse_link_pin v o.port
    ok (record o { link_pins = o.link_pins ++ (pin ∷ []) })
  apply_value password_flag v o = ok (record o { password = v })
  apply_value streams v o = do
    n ← parse_bounded v "--streams" 1 1024 "Invalid --streams"
    ok (record o { stream_limit = n; stream_auto_tune = false })
  apply_value chunk_kb v o = do
    n ← parse_bounded v "--chunk-kb" 1 65536 "Invalid --chunk-kb"
    ok (record o { chunk_size = n * 1024; chunk_auto_tune = false })
  apply_value queued_file_size v o = do
    n ←
        parse_size_in v "--queued-file-size" (256 * mib) (64 * gib)
          "Invalid --queued-file-size (range: 256M..64G)"
    ok (record o { queued_file_size_bytes = n })
  apply_value server_hash_workers_flag v o = do
    n ←
        parse_bounded v "--server-hash-workers" 0 512
          "Invalid --server-hash-workers (range: 0..512)"
    ok (record o { server_hash_workers = n })
  apply_value once_idle_grace v o = do
    n ← parse_positive_duration v "--once-idle-grace" "Invalid --once-idle-grace (must be > 0)"
    ok (record o { once_idle_grace_ms = n; saw_idle_grace = true })
  apply_value wait_connect_timeout v o = do
    n ←
        parse_positive_duration v "--wait-connect-timeout"
          "Invalid --wait-connect-timeout (must be > 0)"
    ok (record o { wait_connect_timeout_ms = n; saw_wait_connect_timeout = true })
  apply_value reconnect_retries_flag v o = do
    n ← parse_bounded v "--reconnect-retries" 0 1000000 "Invalid --reconnect-retries"
    ok (record o { reconnect_retries = n })
  apply_value _ v o = ok o

  -- An argument without a value.
  unfoldable pub apply_switch : Flag → CliOptions d → CliOptions d
  apply_switch enable_hash_memcache_flag o = record o { enable_hash_memcache = true }
  apply_switch unbuffered_writes_flag o = record o { unbuffered_writes = true }
  apply_switch once o = record o { exit_after_sync = true }
  apply_switch once_multi_flag o = record o { once_multi = true }
  apply_switch bind_loopback_flag o = record o { bind_loopback = true }
  apply_switch diag o = record o { diagnostics = true }
  apply_switch large_file_block o = record o {
    large_file_block_mode = auto_block;
    large_file_block_bytes = 32 * mib;
  }
  apply_switch _ o = o

  -- The loop. An argument that takes a value and is the last one is an error.
  unfoldable pub parse_loop : List String → CliOptions d → Result (CliOptions d)
  unfolding apply_value apply_switch flag_of
  parse_loop [] o = ok o
  parse_loop (arg ∷ []) o = elim (arity (flag_of arg)) [
    | one_value ↦ throw "Missing value for argument"
    | no_value ↦ ok (apply_switch (flag_of arg) o)
    | maybe_value ↦ ok (apply_switch (flag_of arg) o)
    | no_flag ↦ throw ("Unknown argument: " <> arg)
  ]
  parse_loop (arg ∷ value ∷ rest) o =
      let flag = flag_of arg in
      elim (arity flag) [
        | one_value ↦ (apply_value flag value o >>= parse_loop rest)
        | no_value ↦ parse_loop (value ∷ rest) (apply_switch flag o)
        | maybe_value ↦ elim (starts_with value "--") [
          | true ↦ parse_loop (value ∷ rest) (apply_switch flag o)
          | false ↦ (apply_value flag value o >>= parse_loop rest)
        ]
        | no_flag ↦ throw ("Unknown argument: " <> arg)
      ]

  -- The checks behind the loop, in their order.
  unfoldable pub validate : CliOptions d → Result (Unit {0})
  validate o = do
    let on_client = is_client o.mode
    ensure (not (is_empty o.password)) "--password is required"
    ensure (not (is_empty o.root_dir)) "Directory path is required"
    ensure (not (on_client && not (o.server_hash_workers == 0)))
        "--server-hash-workers is server-only"
    ensure (not (on_client && o.enable_hash_memcache)) "--enable-hash-memcache is server-only"
    ensure (not (not on_client && o.unbuffered_writes)) "--unbuffered-writes is client-only"
    ensure (not (on_client && o.exit_after_sync)) "--once is server-only"
    ensure (not (on_client && o.once_multi)) "--once-multi is server-only"
    ensure (not (on_client && o.bind_loopback)) "--bind-loopback is server-only"
    ensure (not (o.exit_after_sync && o.once_multi))
        "--once and --once-multi are mutually exclusive"
    ensure (not (is_on o.large_file_block_mode && o.large_file_lane_flagged))
        "--large-file-block and --large-file-lane are mutually exclusive: forced block mode cannot combine with lane pinning (use --large-file-block off + --large-file-lane, or drop --large-file-lane)"
    ensure (not (o.exit_after_sync && o.enable_hash_memcache))
        "--once and --enable-hash-memcache are mutually exclusive"
    ensure (not (o.saw_idle_grace && not o.once_multi)) "--once-idle-grace requires --once-multi"
    ensure (not (o.saw_wait_connect_timeout && not (o.exit_after_sync || o.once_multi)))
        "--wait-connect-timeout requires --once or --once-multi"

  -- The last steps: an endpoint where none was given, and the normal form of the directory.
  unfoldable pub normalize : (String → String) → CliOptions d → CliOptions d
  normalize canonical o =
      let servers = elim o.servers as (λ _. List Endpoint) [
        | [] ↦ (o.host, o.port) ∷ []
        | e ∷ es ↦ e ∷ es
      ] in
      record o { servers = servers; root_dir = canonical o.root_dir }

  -- What the program does with its arguments: it prints the version and ends, or it has options
  -- or an error.
  pub data Parsed : Type 0 where
    shows_version : Parsed
    parsed : Result (CliOptions d) → Parsed

  unfoldable pub parse_from :
      String → (String → String) → List String → Mode → Result (CliOptions d)
  unfolding parse_loop validate normalize default_options
  parse_from root_dir canonical args mode = do
    o ← parse_loop args (default_options d mode root_dir)
    validate o
    ok (normalize canonical o)

  unfoldable pub parse_cli_args : String → (String → String) → List String → Parsed
  unfolding parse_from
  parse_cli_args current_path canonical [] = parsed (throw "Mode is required")
  parse_cli_args current_path canonical (arg ∷ args) =
      if (arg is "--version") || ((arg is "-v") || (arg is "version"))
      then shows_version
      else if arg is "server"
      then parsed (parse_from current_path canonical args server)
      else if arg is "client"
      then parsed (parse_from "" canonical args client)
      else parsed (throw "First argument must be server or client")
