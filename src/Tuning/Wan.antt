-- ===== src/Tuning/Wan.antt =====
-- The tuning for long round trips in FastClone/transfer_tuning.cpp.
use fast_clone.Prelude.{
  ℕ, ◌-◌, ◌*◌, ◌/◌, ◌%◌, ◌^◌, min, max, Bool, not, ◌&&◌, if◌then◌else◌, ◌==◌, ℤ, pos, pos_part,
  ltb_ℤ, Doubles,
}
use fast_clone.Tuning.{clamp, kib, TunedTransferOptions}

abbrev pub wan_rtt_threshold_ms : ℕ
wan_rtt_threshold_ms = 10

abbrev pub hash_floor_depth : ℕ
hash_floor_depth = 1024

abbrev pub hash_lan_ceil_depth : ℕ
hash_lan_ceil_depth = 8192

abbrev pub hash_wan_ceil_depth : ℕ
hash_wan_ceil_depth = 65536

abbrev pub delta_sig_wan_ceil_depth : ℕ
delta_sig_wan_ceil_depth = 8192

unfoldable pub is_wan_rtt : ℤ → Bool
is_wan_rtt rtt_ms = ltb_ℤ (pos wan_rtt_threshold_ms) rtt_ms

unfoldable pub wan_streams_for_rtt : ℤ → ℕ
wan_streams_for_rtt rtt_ms =
    if not (ltb_ℤ (pos wan_rtt_threshold_ms) rtt_ms)
    then 4
    else if not (ltb_ℤ (pos 30) rtt_ms)
    then 8
    else if not (ltb_ℤ (pos 60) rtt_ms)
    then 12
    else 16

unfoldable pub delta_error_releases_sig_slot : Bool → Bool → Bool → Bool
delta_error_releases_sig_slot range_tagged delta_state_exists sig_received =
    not range_tagged && (delta_state_exists && not sig_received)

pub record WanTuning : Type 0 where
  pub stream_limit : ℕ
  pub max_in_flight_hash_requests : ℕ
  pub max_in_flight_delta_sig : ℕ
  pub wan_mode : Bool

module _ (d : Doubles) where
  -- `static_cast<size_t>` is asked only for a depth below `SIZE_MAX`.
  unfoldable pub bdp_depth_files : ℤ → ℕ → ℕ
  bdp_depth_files rtt_ms avg_file_bytes =
      let rtt = max (pos_part rtt_ms) 1 in
      let rtt_sec = d.div (d.lit rtt 1) (d.lit 1000 1) in
      let bdp_bytes = d.mul (d.div (d.lit (400 * 10 ^ 6) 1) (d.lit 8 1)) rtt_sec in
      let avg =
        clamp (if avg_file_bytes == 0 then 16 * kib else avg_file_bytes) (4 * kib) (1024 * kib) in
      let depth = d.div bdp_bytes (d.lit avg 1) in
      if d.less_eq depth (d.lit 0 1)
      then 0
      else if d.less_eq (d.lit (2 ^ 64 - 1) 1) depth
      then 2 ^ 64 - 1
      else d.truncate (d.add depth (d.lit 999 1000))

  unfoldable pub hash_inflight_depth : ℤ → ℕ → ℕ → ℕ
  hash_inflight_depth rtt_ms stream_limit avg_file_bytes =
      let legacy =
        clamp (max hash_floor_depth (stream_limit * 256 % 2 ^ 64)) hash_floor_depth
          hash_lan_ceil_depth in
      let mult = max 1 (pos_part rtt_ms / wan_rtt_threshold_ms) in
      let rtt_floor = hash_lan_ceil_depth * mult % 2 ^ 64 in
      let depth =
        max (max (stream_limit * 256 % 2 ^ 64) (bdp_depth_files rtt_ms avg_file_bytes)) rtt_floor in
      if not (is_wan_rtt rtt_ms) then legacy else clamp depth hash_floor_depth hash_wan_ceil_depth

  unfoldable pub delta_sig_inflight_depth : ℤ → ℕ → ℕ
  delta_sig_inflight_depth rtt_ms avg_delta_bytes =
      let avg = if avg_delta_bytes == 0 then 256 * kib else avg_delta_bytes in
      let mult = max 1 (pos_part rtt_ms / wan_rtt_threshold_ms) in
      let rtt_floor = 256 * mult % 2 ^ 64 in
      let depth = max (max (bdp_depth_files rtt_ms avg) rtt_floor) 256 in
      if not (is_wan_rtt rtt_ms) then 0 else clamp depth 1 delta_sig_wan_ceil_depth

  unfoldable pub resolve_wan_tuning : TunedTransferOptions → Bool → ℤ → ℕ → WanTuning
  resolve_wan_tuning base stream_auto_tune rtt_ms hw_concurrency =
      let wan = is_wan_rtt rtt_ms in
      let hw_cap = max 4 (max 1 hw_concurrency * 2 % 2 ^ 32) in
      let streams =
        if stream_auto_tune && wan
        then max (min (min (wan_streams_for_rtt rtt_ms) 16) hw_cap) base.stream_limit
        else base.stream_limit in
      record {
        stream_limit = streams;
        max_in_flight_hash_requests = hash_inflight_depth rtt_ms streams 0;
        max_in_flight_delta_sig = delta_sig_inflight_depth rtt_ms 0;
        wan_mode = wan;
      }
