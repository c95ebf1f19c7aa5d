-- ===== src/Cli/Options.antt =====
-- The options of FastClone/cli.h, and one argument after another of `ParseCliArgs`. Doubles, and
-- their parser, are the interface's.
pub mod Loop
use Prim.Native.String.{◌++◌ as ◌<>◌}
use text.Mathlib.Text.{◌==◌ as ◌is◌}
use Prim.Native.Nat.{bit_and}
use fast_clone.Prelude.{
  ℕ, ◌+◌, ◌-◌, ◌*◌, ◌%◌, ◌^◌, Bool, true, false, not, ◌&&◌, ◌||◌, if◌then◌else◌, ◌==◌, ltb, leb,
  List, [], ◌∷◌, ◌++◌, Option, none, some, String, ℤ, pos, negsuc, pos_part, Result, ok, throw,
  ◌>>=◌, Doubles,
}
use fast_clone.Cli.Numbers.{
  codes, parse_long_strict, parse_size_bytes_strict, parse_duration_ms_strict,
}
use fast_clone.Cli.Endpoints.{
  Endpoint, LinkPin, parse_port, parse_server_list, add_endpoints, parse_link_pin,
}

pub data Mode : Type 0 where
  server : Mode
  client : Mode

pub data LargeFileLane : Type 0 where
  primary : LargeFileLane
  aux : LargeFileLane
  auto : LargeFileLane

pub data LargeFileBlockMode : Type 0 where
  auto_block : LargeFileBlockMode
  on : LargeFileBlockMode
  off : LargeFileBlockMode

pub record CliOptions (d : Doubles) : Type 0 where
  pub mode : Mode
  pub root_dir : String
  pub host : String
  pub port : ℕ
  pub password : String
  pub stream_limit : ℕ
  pub chunk_size : ℕ
  pub queued_file_size_bytes : ℕ
  pub server_hash_workers : ℕ
  pub enable_hash_memcache : Bool
  pub exit_after_sync : Bool
  pub once_multi : Bool
  pub bind_loopback : Bool
  pub once_idle_grace_ms : ℕ
  pub wait_connect_timeout_ms : ℕ
  pub stream_auto_tune : Bool
  pub chunk_auto_tune : Bool
  pub diagnostics : Bool
  pub reconnect_retries : ℕ
  pub large_file_threshold_bytes : ℕ
  pub aux_weight : d.Double
  pub large_file_lane : LargeFileLane
  pub large_file_block_mode : LargeFileBlockMode
  pub large_file_block_bytes : ℕ
  pub large_file_lane_flagged : Bool
  pub servers : List Endpoint
  pub link_pins : List LinkPin
  pub max_connections : ℕ
  pub tcp_send_buffer_bytes : ℕ
  pub tcp_recv_buffer_bytes : ℕ
  pub delta_min_size_bytes : ℕ
  pub unbuffered_writes : Bool
  -- The two flags that only the parser keeps.
  pub saw_idle_grace : Bool
  pub saw_wait_connect_timeout : Bool

abbrev pub kib : ℕ
kib = 1024

abbrev pub mib : ℕ
mib = 1024 * 1024

abbrev pub gib : ℕ
gib = 1024 * 1024 * 1024

module _ (d : Doubles) where
  unfoldable pub default_options : Mode → String → CliOptions d
  default_options mode root_dir = record {
    mode = mode;
    root_dir = root_dir;
    host = "127.0.0.1";
    port = 27842;
    password = "";
    stream_limit = 16;
    chunk_size = 256 * 1024;
    queued_file_size_bytes = 5 * gib;
    server_hash_workers = 0;
    enable_hash_memcache = false;
    exit_after_sync = false;
    once_multi = false;
    bind_loopback = false;
    once_idle_grace_ms = 5000;
    wait_connect_timeout_ms = 300000;
    stream_auto_tune = true;
    chunk_auto_tune = true;
    diagnostics = false;
    reconnect_retries = 10;
    large_file_threshold_bytes = gib;
    aux_weight = d.lit 1 1;
    large_file_lane = auto;
    large_file_block_mode = auto_block;
    large_file_block_bytes = 32 * mib;
    large_file_lane_flagged = false;
    servers = [];
    link_pins = [];
    max_connections = 8;
    tcp_send_buffer_bytes = 0;
    tcp_recv_buffer_bytes = 0;
    delta_min_size_bytes = 0;
    unbuffered_writes = false;
    saw_idle_grace = false;
    saw_wait_connect_timeout = false;
  }

abbrev pub is_on : LargeFileBlockMode → Bool
is_on auto_block = false
is_on on = true
is_on off = false

abbrev pub is_auto : LargeFileBlockMode → Bool
is_auto auto_block = true
is_auto on = false
is_auto off = false

abbrev pub is_client : Mode → Bool
is_client server = false
is_client client = true

unfoldable pub large_file_block_allowed : {d : Doubles} → CliOptions d → Bool
large_file_block_allowed o =
    is_on o.large_file_block_mode
    || (is_auto o.large_file_block_mode && not o.large_file_lane_flagged)

-- The arguments that the parser knows.
pub data Flag : Type 0 where
  dir target port_flag server_flag large_file_threshold delta_min_size tcp_send_buffer : Flag
  tcp_recv_buffer aux_weight_flag large_file_lane_flag large_file_block link password_flag : Flag
  streams chunk_kb queued_file_size server_hash_workers_flag enable_hash_memcache_flag : Flag
  unbuffered_writes_flag once once_multi_flag bind_loopback_flag once_idle_grace : Flag
  wait_connect_timeout diag reconnect_retries_flag unknown : Flag

abbrev pub flag_table : List (String × Flag)
flag_table =
    ("--dir", dir)
    ∷ ("--target", target)
    ∷ ("--port", port_flag)
    ∷ ("--server", server_flag)
    ∷ ("--large-file-threshold", large_file_threshold)
    ∷ ("--delta-min-size", delta_min_size)
    ∷ ("--tcp-send-buffer", tcp_send_buffer)
    ∷ ("--tcp-recv-buffer", tcp_recv_buffer)
    ∷ ("--aux-weight", aux_weight_flag)
    ∷ ("--large-file-lane", large_file_lane_flag)
    ∷ ("--large-file-block", large_file_block)
    ∷ ("--link", link)
    ∷ ("--password", password_flag)
    ∷ ("--streams", streams)
    ∷ ("--chunk-kb", chunk_kb)
    ∷ ("--queued-file-size", queued_file_size)
    ∷ ("--server-hash-workers", server_hash_workers_flag)
    ∷ ("--enable-hash-memcache", enable_hash_memcache_flag)
    ∷ ("--unbuffered-writes", unbuffered_writes_flag)
    ∷ ("--once", once)
    ∷ ("--once-multi", once_multi_flag)
    ∷ ("--bind-loopback", bind_loopback_flag)
    ∷ ("--once-idle-grace", once_idle_grace)
    ∷ ("--wait-connect-timeout", wait_connect_timeout)
    ∷ ("--diag", diag)
    ∷ ("--reconnect-retries", reconnect_retries_flag)
    ∷ []

unfoldable pub find_flag : List (String × Flag) → String → Flag
find_flag [] arg = unknown
find_flag ((name, flag) ∷ table) arg =
    let rest = find_flag table arg in if arg is name then flag else rest

unfoldable pub flag_of : String → Flag
unfolding find_flag
flag_of arg = find_flag flag_table arg

-- A `long` within bounds.
abbrev pub in_bounds : ℕ → ℕ → ℤ → Bool
in_bounds lo hi (negsuc n) = false
in_bounds lo hi (pos n) = leb lo n && leb n hi

unfoldable pub parse_bounded : String → String → ℕ → ℕ → String → Result ℕ
unfolding parse_long_strict
parse_bounded value name lo hi message = do
  n ← parse_long_strict (codes value) name
  if in_bounds lo hi n then ok (pos_part n) else throw message

unfoldable pub parse_size_in : String → String → ℕ → ℕ → String → Result ℕ
unfolding parse_size_bytes_strict
parse_size_in value name lo hi message = do
  n ← parse_size_bytes_strict (codes value) name
  if leb lo n && leb n hi then ok n else throw message

-- Zero, or a size within bounds.
unfoldable pub parse_zero_or_size_in : String → String → ℕ → ℕ → String → Result ℕ
unfolding parse_size_bytes_strict
parse_zero_or_size_in value name lo hi message = do
  n ← parse_size_bytes_strict (codes value) name
  if n == 0 || (leb lo n && leb n hi) then ok n else throw message

unfoldable pub parse_positive_duration : String → String → String → Result ℕ
unfolding parse_duration_ms_strict
parse_positive_duration value name message = do
  n ← parse_duration_ms_strict (codes value) name
  if n == 0 then throw message else ok n

unfoldable pub parse_lane : String → Result LargeFileLane
parse_lane v =
    if v is "primary"
    then ok primary
    else if v is "aux"
    then ok aux
    else if v is "auto"
    then ok auto
    else throw "Invalid --large-file-lane (expected primary|aux|auto)"

abbrev pub is_block_size : ℕ → Bool
is_block_size v = (leb mib v && leb v (4 * gib)) && (bit_and v (v - 1) == 0)

-- The mode and the block size that a value of `--large-file-block` sets.
unfoldable pub parse_block : String → Result (LargeFileBlockMode × ℕ)
unfolding parse_size_bytes_strict
parse_block tok =
    let sized = parse_size_bytes_strict (codes tok) "--large-file-block" >>= λ v.
    if is_block_size v
    then ok (on, v)
    else throw
        "Invalid --large-file-block (range 1M..4G, power of two; suffix K|M|G; or auto|off)" in
    if tok is "off"
    then ok (off, 32 * mib)
    else if tok is "auto"
    then ok (auto_block, 32 * mib)
    else if tok is "on"
    then throw
        "Invalid --large-file-block (expected auto|off|<size>; 'on' is not a value; use --large-file-block <size> to force on)"
    else sized
