-- ===== src/Cli/Probe.antt =====
-- cmd/turnfly/main.go: `probe`, whose packets are simulated, and its statistics.
pub mod Bounds
use turnfly.Prelude.{
  ℕ, zero, suc, ◌+◌, ◌*◌, ◌/◌, ◌%◌, ltb, leb, min, Bool, Option, none, some, List, [], ◌∷◌, length,
  if◌then◌else◌,
}
use turnfly.Int.{ℤ, pos, negsuc, pos_part, ltb_ℤ, ◌+ℤ◌, wrap_int64}
use turnfly.Text.{Bytes, is_empty}
use turnfly.Clock.{hour, millisecond}

-- `ProbeResult`; durations in nanoseconds.
pub record ProbeResult : Type 0 where
  pub sent : ℕ
  pub received : ℕ
  pub total_rtt : ℕ
  pub min_rtt : ℕ
  pub max_rtt : ℕ
  pub bytes_out : ℤ

-- `ProbeResult{MinRTT: time.Hour}`
pub no_probes : ProbeResult
no_probes = record {
  sent = 0;
  received = 0;
  total_rtt = 0;
  min_rtt = hour;
  max_rtt = 0;
  bytes_out = pos 0;
}

-- The round-trip time that the i-th packet pretends.
pub simulated_rtt : ℕ → ℕ
simulated_rtt i = (20 + i * 3 % 40) * millisecond

-- One packet of the loop, whose round-trip time with the delay is `rtt`.
pub count_probe : ℤ → ℕ → ProbeResult → ProbeResult
count_probe packet_size rtt r = record {
  sent = r.sent + 1;
  received = r.received + 1;
  total_rtt = r.total_rtt + rtt;
  min_rtt = if ltb rtt r.min_rtt then rtt else r.min_rtt;
  max_rtt = if ltb r.max_rtt rtt then rtt else r.max_rtt;
  bytes_out = wrap_int64 (r.bytes_out +ℤ packet_size);
}

-- The loop over the packets that are left, from the i-th; `elapsed i` is what `time.Since` gives
-- behind the delay of a packet.
pub probe_loop : (ℕ → ℕ) → ℤ → ℕ → ℕ → ProbeResult → ProbeResult
probe_loop elapsed packet_size zero i r = r
probe_loop elapsed packet_size (suc left) i r =
    probe_loop elapsed packet_size left (i + 1)
      (count_probe packet_size (elapsed i + simulated_rtt i) r)

-- The average, as `time.Duration` divides.
pub average_rtt : ProbeResult → ℕ
average_rtt r = if ltb 0 r.received then r.total_rtt / r.received else 0

-- How a probe ends: with the list of regions, with a panic, ready for a throughput test, or with
-- the statistics and their average.
pub data ProbeReport : Type 0 where
  available_regions : ProbeReport
  panicked : ProbeReport
  throughput_ready : ProbeReport
  statistics : ProbeResult → ℕ → ProbeReport

-- The command; a count that is not positive gives an empty loop, and a negative size no buffer.
pub run_probe : (ℕ → ℕ) → Bytes → ℤ → ℤ → ℤ → ProbeReport
unfolding probe_loop
run_probe elapsed target duration packet_size count =
    if is_empty target
    then available_regions
    else if ltb_ℤ packet_size (pos 0)
    then panicked
    else if ltb_ℤ (pos 0) duration
    then throughput_ready
    else let r = probe_loop elapsed packet_size (pos_part count) 0 no_probes in
      statistics r (average_rtt r)
