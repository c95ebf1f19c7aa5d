-- ===== src/Cli/Options/Loop/Accepted.antt =====
-- Options that the program accepts are valid, whatever the arguments.
use text.Mathlib.Text.{starts_with, ◌==◌ as ◌is◌}
use fast_clone.Prelude.{
  ◌*◌, ◌<◌, ◌≡◌, ◌≢◌, ◌⊎◌, inl, inr, refl, true, false, ◌||◌, List, [], ◌∷◌, ◌++◌, Option, String,
  ok, ◌>>=◌, bind_returns, Doubles, All, arith, Bool-cases,
}
use fast_clone.Cli.Endpoints.{
  Endpoint, LinkPin, is_empty, parse_port, parse_server_list, add_endpoints, parse_link_pin,
}
use fast_clone.Cli.Options.{
  Mode, server, client, CliOptions, default_options, kib, mib, gib, is_on, is_block_size, Flag, dir,
  target, port_flag, server_flag, large_file_threshold, delta_min_size, tcp_send_buffer,
  tcp_recv_buffer, aux_weight_flag, large_file_lane_flag, large_file_block, link, password_flag,
  streams, chunk_kb, queued_file_size, server_hash_workers_flag, enable_hash_memcache_flag,
  unbuffered_writes_flag, once, once_multi_flag, bind_loopback_flag, once_idle_grace,
  wait_connect_timeout, diag, reconnect_retries_flag, unknown, flag_of, parse_bounded,
  parse_size_in, parse_zero_or_size_in, parse_positive_duration, parse_lane, parse_block,
}
use fast_clone.Cli.Options.Loop.{
  one_value, no_value, maybe_value, no_flag, arity, front_or, parse_weight, with_servers,
  apply_value, apply_switch, parse_loop, validate, normalize, parse_from, Arity, parse_cli_args,
  parsed, parse_double_strict,
}
use fast_clone.Cli.Options.Loop.Ranges.{
  InRange, IsPort, ArePorts, parse_bounded-InRange, parse_size_in-InRange,
  parse_zero_or_size_in-InRange, parse_positive_duration-pos, parse_port-IsPort,
  parse_server_list-ArePorts, add_endpoints-ArePorts, parse_link_pin-IsPort, parse_block-size,
}

Arity-cases : (a : Arity) → (a ≡ one_value) ⊎ ((a ≡ no_value) ⊎ ((a ≡ maybe_value) ⊎ (a ≡ no_flag)))
Arity-cases one_value = inl refl
Arity-cases no_value = inr (inl refl)
Arity-cases maybe_value = inr (inr (inl refl))
Arity-cases no_flag = inr (inr (inr refl))

module _ (d : Doubles) (parse_double : String → Option d.Double) where
  -- The weight of the auxiliary lanes: one where no option gives it, or above zero and at most 16.
  abbrev pub IsWeight : d.Double → Type 0
  IsWeight w =
      (w ≡ d.lit 1 1) ⊎ ((d.less_eq w (d.lit 0 1) ≡ false) × (d.less (d.lit 16 1) w ≡ false))

  parse_weight-IsWeight :
      (v : String) (w : d.Double) → parse_weight d parse_double v ≡ ok w → IsWeight w
  unfolding parse_weight
  parse_weight-IsWeight v w h =
      let (x, e, got) = bind_returns (parse_double_strict d parse_double v "--aux-weight") h in
      ground arith

  -- What holds of the options all along.
  pub record AreInRange (o : CliOptions d) : Type 0 where
    pub port : IsPort o.port
    pub endpoints : ArePorts o.servers
    pub pins : All (λ p. IsPort p.port) o.link_pins
    pub stream_count : InRange 1 1024 o.stream_limit
    pub chunks : InRange 1024 (65536 * 1024) o.chunk_size
    pub queued : InRange (256 * mib) (64 * gib) o.queued_file_size_bytes
    pub workers : InRange 0 512 o.server_hash_workers
    pub grace : 0 < o.once_idle_grace_ms
    pub timeout : 0 < o.wait_connect_timeout_ms
    pub retries : InRange 0 1000000 o.reconnect_retries
    pub threshold : InRange mib (1024 * gib) o.large_file_threshold_bytes
    pub block : is_block_size o.large_file_block_bytes ≡ true
    pub send_buffer : (o.tcp_send_buffer_bytes ≡ 0) ⊎ InRange (64 * kib) gib o.tcp_send_buffer_bytes
    pub recv_buffer : (o.tcp_recv_buffer_bytes ≡ 0) ⊎ InRange (64 * kib) gib o.tcp_recv_buffer_bytes
    pub delta_size : (o.delta_min_size_bytes ≡ 0) ⊎ InRange mib (1024 * gib) o.delta_min_size_bytes
    pub weight : IsWeight o.aux_weight

  default-AreInRange :
      (mode : Mode) (root_dir : String) → AreInRange (default_options d mode root_dir)
  unfolding default_options
  default-AreInRange mode root_dir = record {
    port = omega arith;
    endpoints = tt;
    pins = tt;
    stream_count = omega arith;
    chunks = omega arith;
    queued = omega arith;
    workers = omega arith;
    grace = omega arith;
    timeout = omega arith;
    retries = omega arith;
    threshold = omega arith;
    block = refl;
    send_buffer = inl refl;
    recv_buffer = inl refl;
    delta_size = inl refl;
    weight = inl refl;
  }

  apply_switch-AreInRange :
      (f : Flag) (o : CliOptions d) → AreInRange o → AreInRange (apply_switch d parse_double f o)
  unfolding apply_switch
  apply_switch-AreInRange f o h = ground arith

  front-IsPort :
      (e : Endpoint) (es : List Endpoint) → IsPort e.1 → ArePorts es → IsPort (front_or e es).1
  front-IsPort e [] p h = p
  front-IsPort e (x ∷ es) p h = h.0

  with_servers-AreInRange :
      (es : List Endpoint) (o : CliOptions d)
      → AreInRange o
      → ArePorts es
      → AreInRange (with_servers d parse_double es o)
  unfolding with_servers
  with_servers-AreInRange es o h ports =
      let all = add_endpoints-ArePorts o.servers es h.endpoints ports in
      ground (arith, all, front-IsPort (o.host, o.port) (add_endpoints o.servers es) h.port all)

  pins-snoc :
      (ps : List LinkPin) (p : LinkPin)
      → All (λ q. IsPort q.port) ps
      → IsPort p.port
      → All (λ q. IsPort q.port) (ps ++ (p ∷ []))
  pins-snoc [] p h k = (k, tt)
  pins-snoc (x ∷ ps) p h k = (h.0, pins-snoc ps p h.1 k)

  apply_value-AreInRange :
      (f : Flag) (v : String) (o t : CliOptions d)
      → AreInRange o
      → apply_value d parse_double f v o ≡ ok t
      → AreInRange t
  unfolding apply_value
  apply_value-AreInRange dir v o t h r = ground arith
  apply_value-AreInRange target v o t h r = ground arith
  apply_value-AreInRange password_flag v o t h r = ground arith
  apply_value-AreInRange enable_hash_memcache_flag v o t h r = ground arith
  apply_value-AreInRange unbuffered_writes_flag v o t h r = ground arith
  apply_value-AreInRange once v o t h r = ground arith
  apply_value-AreInRange once_multi_flag v o t h r = ground arith
  apply_value-AreInRange bind_loopback_flag v o t h r = ground arith
  apply_value-AreInRange diag v o t h r = ground arith
  apply_value-AreInRange unknown v o t h r = ground arith
  apply_value-AreInRange port_flag v o t h r =
      let (n, e, got) = bind_returns (parse_port v "--port") r in
      ground (arith, parse_port-IsPort v "--port" n got)
  apply_value-AreInRange large_file_threshold v o t h r =
      let (n, e, got) =
        bind_returns
          (parse_size_in v "--large-file-threshold" mib (1024 * gib)
            "Invalid --large-file-threshold (range: 1M..1T)")
          r in
      ground (
        arith,
        parse_size_in-InRange v "--large-file-threshold"
            "Invalid --large-file-threshold (range: 1M..1T)" n mib (1024 * gib) got,
      )
  apply_value-AreInRange delta_min_size v o t h r =
      let (n, e, got) =
        bind_returns
          (parse_zero_or_size_in v "--delta-min-size" mib (1024 * gib)
            "Invalid --delta-min-size (range: 0 or 1M..1T)")
          r in
      ground (
        arith,
        parse_zero_or_size_in-InRange v "--delta-min-size"
            "Invalid --delta-min-size (range: 0 or 1M..1T)" n mib (1024 * gib) got,
      )
  apply_value-AreInRange tcp_send_buffer v o t h r =
      let (n, e, got) =
        bind_returns
          (parse_zero_or_size_in v "--tcp-send-buffer" (64 * kib) gib
            "Invalid --tcp-send-buffer (range: 0 or 64K..1G)")
          r in
      ground (
        arith,
        parse_zero_or_size_in-InRange v "--tcp-send-buffer"
            "Invalid --tcp-send-buffer (range: 0 or 64K..1G)" n (64 * kib) gib got,
      )
  apply_value-AreInRange tcp_recv_buffer v o t h r =
      let (n, e, got) =
        bind_returns
          (parse_zero_or_size_in v "--tcp-recv-buffer" (64 * kib) gib
            "Invalid --tcp-recv-buffer (range: 0 or 64K..1G)")
          r in
      ground (
        arith,
        parse_zero_or_size_in-InRange v "--tcp-recv-buffer"
            "Invalid --tcp-recv-buffer (range: 0 or 64K..1G)" n (64 * kib) gib got,
      )
  apply_value-AreInRange aux_weight_flag v o t h r =
      let (n, e, got) = bind_returns (parse_weight d parse_double v) r in
      ground (arith, parse_weight-IsWeight v n got)
  apply_value-AreInRange large_file_lane_flag v o t h r =
      let (n, e, got) = bind_returns (parse_lane v) r in ground (arith)
  apply_value-AreInRange large_file_block v o t h r =
      let (n, e, got) = bind_returns (parse_block v) r in ground (arith, parse_block-size v n got)
  apply_value-AreInRange streams v o t h r =
      let (n, e, got) = bind_returns (parse_bounded v "--streams" 1 1024 "Invalid --streams") r in
      ground (arith, parse_bounded-InRange v "--streams" "Invalid --streams" n 1 1024 got)
  apply_value-AreInRange chunk_kb v o t h r =
      let (n, e, got) =
        bind_returns (parse_bounded v "--chunk-kb" 1 65536 "Invalid --chunk-kb") r in
      ground (arith, parse_bounded-InRange v "--chunk-kb" "Invalid --chunk-kb" n 1 65536 got)
  apply_value-AreInRange queued_file_size v o t h r =
      let (n, e, got) =
        bind_returns
          (parse_size_in v "--queued-file-size" (256 * mib) (64 * gib)
            "Invalid --queued-file-size (range: 256M..64G)")
          r in
      ground (
        arith,
        parse_size_in-InRange v "--queued-file-size" "Invalid --queued-file-size (range: 256M..64G)"
            n (256 * mib) (64 * gib) got,
      )
  apply_value-AreInRange server_hash_workers_flag v o t h r =
      let (n, e, got) =
        bind_returns
          (parse_bounded v "--server-hash-workers" 0 512
            "Invalid --server-hash-workers (range: 0..512)")
          r in
      ground (
        arith,
        parse_bounded-InRange v "--server-hash-workers"
            "Invalid --server-hash-workers (range: 0..512)" n 0 512 got,
      )
  apply_value-AreInRange once_idle_grace v o t h r =
      let (n, e, got) =
        bind_returns
          (parse_positive_duration v "--once-idle-grace" "Invalid --once-idle-grace (must be > 0)")
          r in
      ground (
        arith,
        parse_positive_duration-pos v "--once-idle-grace" "Invalid --once-idle-grace (must be > 0)"
            n got,
      )
  apply_value-AreInRange wait_connect_timeout v o t h r =
      let (n, e, got) =
        bind_returns
          (parse_positive_duration v "--wait-connect-timeout"
            "Invalid --wait-connect-timeout (must be > 0)")
          r in
      ground (
        arith,
        parse_positive_duration-pos v "--wait-connect-timeout"
            "Invalid --wait-connect-timeout (must be > 0)" n got,
      )
  apply_value-AreInRange reconnect_retries_flag v o t h r =
      let (n, e, got) =
        bind_returns (parse_bounded v "--reconnect-retries" 0 1000000 "Invalid --reconnect-retries")
          r in
      ground (
        arith,
        parse_bounded-InRange v "--reconnect-retries" "Invalid --reconnect-retries" n 0 1000000 got,
      )
  apply_value-AreInRange server_flag v o t h r =
      let (es, e, got) = bind_returns (parse_server_list v o.port) r in
      let same : with_servers d parse_double es o ≡ t = ground arith in
      rw (← same)
        (with_servers-AreInRange es o h (parse_server_list-ArePorts v o.port es h.port got).0)
  apply_value-AreInRange link v o t h r =
      let (pin, e, got) = bind_returns (parse_link_pin v o.port) r in
      let pins = pins-snoc o.link_pins pin h.pins (parse_link_pin-IsPort v o.port pin h.port got) in
      ground (arith, pins)

  parse_loop-AreInRange :
      (args : List String) (o t : CliOptions d)
      → AreInRange o
      → parse_loop d parse_double args o ≡ ok t
      → AreInRange t
  unfolding parse_loop
  parse_loop-AreInRange [] o t h r = ground arith
  parse_loop-AreInRange (arg ∷ []) o t h r =
      let switched = apply_switch-AreInRange (flag_of arg) o h in
      elim (Arity-cases (arity (flag_of arg))) [
        | inl e ↦ ground arith
        | inr (inl e) ↦
            let same : apply_switch d parse_double (flag_of arg) o ≡ t = ground arith in
            rw (← same) switched
        | inr (inr (inl e)) ↦
            let same : apply_switch d parse_double (flag_of arg) o ≡ t = ground arith in
            rw (← same) switched
        | inr (inr (inr e)) ↦ ground arith
      ]
  parse_loop-AreInRange (arg ∷ value ∷ rest) o t h r =
      let f = flag_of arg in
      let switched = apply_switch-AreInRange f o h in
      let by_switch =
        λ (p : parse_loop d parse_double (value ∷ rest) (apply_switch d parse_double f o) ≡ ok t).
          parse_loop-AreInRange (value ∷ rest) (apply_switch d parse_double f o) t switched p in
      let by_value =
        λ (p : (apply_value d parse_double f value o >>= parse_loop d parse_double rest) ≡ ok t).
          let (u, e, got) = bind_returns (apply_value d parse_double f value o) p in
          parse_loop-AreInRange rest u t (apply_value-AreInRange f value o u h got) e in
      elim (Arity-cases (arity f)) [
        | inl e ↦ by_value (ground arith)
        | inr (inl e) ↦ by_switch (ground arith)
        | inr (inr (inl e)) ↦ elim (Bool-cases (starts_with value "--")) [
          | inl dashes ↦ by_switch (ground arith)
          | inr plain ↦ by_value (ground arith)
        ]
        | inr (inr (inr e)) ↦ ground arith
      ]

  -- What the checks behind the loop leave.
  pub record IsConsistent (o : CliOptions d) : Type 0 where
    pub has_password : is_empty o.password ≡ false
    pub server_only :
        o.mode ≡ client
        → (o.server_hash_workers ≡ 0)
          × (o.enable_hash_memcache ≡ false)
          × (o.exit_after_sync ≡ false)
          × (o.once_multi ≡ false)
          × (o.bind_loopback ≡ false)
    pub client_only : o.mode ≡ server → o.unbuffered_writes ≡ false
    pub once_excludes :
        o.exit_after_sync ≡ true → (o.once_multi ≡ false) × (o.enable_hash_memcache ≡ false)
    pub block_excludes_lane :
        is_on o.large_file_block_mode ≡ true → o.large_file_lane_flagged ≡ false
    pub grace_needs_multi : o.saw_idle_grace ≡ true → o.once_multi ≡ true
    pub timeout_needs_once :
        o.saw_wait_connect_timeout ≡ true → (o.exit_after_sync ≡ true) ⊎ (o.once_multi ≡ true)
    pub has_server : o.servers ≢ []

  validate-IsConsistent :
      (o : CliOptions d) → validate d parse_double o ≡ ok tt → o.servers ≢ [] → IsConsistent o
  unfolding validate
  validate-IsConsistent o h some_server = ground arith

  normalize-valid :
      (canonical : String → String) (o : CliOptions d)
      → AreInRange o
      → validate d parse_double o ≡ ok tt
      → AreInRange (normalize d parse_double canonical o)
        × IsConsistent (normalize d parse_double canonical o)
  unfolding normalize validate
  normalize-valid canonical o h v = (ground arith, ground arith)

  parse_from-valid :
      (root_dir : String) (canonical : String → String) (args : List String) (mode : Mode)
      (t : CliOptions d)
      → parse_from d parse_double root_dir canonical args mode ≡ ok t
      → AreInRange t × IsConsistent t
  unfolding parse_from
  parse_from-valid root_dir canonical args mode t h =
      let start = default_options d mode root_dir in
      let (o, e, got) = bind_returns (parse_loop d parse_double args start) h in
      let (u, last, checked) = bind_returns (validate d parse_double o) e in
      let valid =
        normalize-valid canonical o
          (parse_loop-AreInRange args start o (default-AreInRange mode root_dir) got) checked in
      let same : normalize d parse_double canonical o ≡ t = cc in rw (← same) valid

  -- Options that are accepted, whatever the arguments, have every number in its range, the
  -- weight of the auxiliary lanes by its two comparisons unless it is the default of one, and
  -- every port between 1 and 65535; they have an endpoint and a password; a client has no hash
  -- workers, no hash cache and none of --once, --once-multi and --bind-loopback, and a server no
  -- unbuffered writes; and --once excludes --once-multi and the hash cache, blocks exclude a
  -- lane, an idle grace needs --once-multi, and a wait for a connection needs one of the two.
  pub parse_cli_args-valid :
      (current_path : String) (canonical : String → String) (args : List String) (t : CliOptions d)
      → parse_cli_args d parse_double current_path canonical args ≡ parsed (ok t)
      → AreInRange t × IsConsistent t
  unfolding parse_cli_args
  parse_cli_args-valid current_path canonical [] t h = cc
  parse_cli_args-valid current_path canonical (arg ∷ args) t h =
      elim (Bool-cases ((arg is "--version") || ((arg is "-v") || (arg is "version")))) [
        | inl shown ↦ ground arith
        | inr not_shown ↦ elim (Bool-cases (arg is "server")) [
          | inl on_server ↦ parse_from-valid current_path canonical args server t (ground arith)
          | inr not_server ↦ elim (Bool-cases (arg is "client")) [
            | inl on_client ↦ parse_from-valid "" canonical args client t (ground arith)
            | inr neither ↦ ground arith
          ]
        ]
      ]
