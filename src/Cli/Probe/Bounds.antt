-- ===== src/Cli/Probe/Bounds.antt =====
-- The statistics of a probe.
use turnfly.Prelude.{ℕ, zero, suc, ◌+◌, ◌*◌, ◌/◌, ◌≤◌, ◌<◌, ◌≡◌, subst, ltb, arith, if◌then◌else◌}
use native.Mathlib.Nat.{div-add-mod, mod-lt}
use turnfly.Int.{ℤ}
use turnfly.Cli.Probe.{ProbeResult, no_probes, simulated_rtt, count_probe, probe_loop, average_rtt}

-- Each packet is counted once, and the total lies between so many of the least and of the greatest
-- round-trip time.
pub record Summarises (n : ℕ) (r : ProbeResult) : Type 0 where
  pub all_sent : r.sent ≡ n
  pub all_received : r.received ≡ n
  pub above_min : n * r.min_rtt ≤ r.total_rtt
  pub below_max : r.total_rtt ≤ n * r.max_rtt

no_probes-Summarises : Summarises 0 no_probes
unfolding no_probes
no_probes-Summarises = omega arith

more_of_less : (n a b t rtt : ℕ) → n * a ≤ t → b ≤ a → b ≤ rtt → (n + 1) * b ≤ t + rtt
more_of_less n a b t rtt h le le' = grind arith

less_of_more : (n a b t rtt : ℕ) → t ≤ n * a → a ≤ b → rtt ≤ b → t + rtt ≤ (n + 1) * b
less_of_more n a b t rtt h le le' = grind arith

count_probe-Summarises :
    (size : ℤ) (rtt n : ℕ) (r : ProbeResult)
    → Summarises n r
    → Summarises (n + 1) (count_probe size rtt r)
unfolding count_probe
count_probe-Summarises size rtt n r h =
    let low = if ltb rtt r.min_rtt then rtt else r.min_rtt in
    let high = if ltb r.max_rtt rtt then rtt else r.max_rtt in
    record {
      all_sent = omega arith;
      all_received = omega arith;
      above_min =
          more_of_less n r.min_rtt low r.total_rtt rtt h.above_min (ground arith) (ground arith);
      below_max =
          less_of_more n r.max_rtt high r.total_rtt rtt h.below_max (ground arith) (ground arith);
    }

probe_loop-Summarises :
    (elapsed : ℕ → ℕ) (size : ℤ) (left i n : ℕ) (r : ProbeResult)
    → Summarises n r
    → Summarises (n + left) (probe_loop elapsed size left i r)
unfolding probe_loop
probe_loop-Summarises elapsed size zero i n r h =
    let e : n ≡ n + 0 = omega arith in subst (λ k. Summarises k r) e h
probe_loop-Summarises elapsed size (suc left) i n r h =
    let r' = count_probe size (elapsed i + simulated_rtt i) r in
    let e : n + 1 + left ≡ n + suc left = omega arith in
    subst (λ k. Summarises k (probe_loop elapsed size left (i + 1) r')) e
      (probe_loop-Summarises elapsed size left (i + 1) (n + 1) r'
        (count_probe-Summarises size (elapsed i + simulated_rtt i) n r h))

average_bounds : (n a b t : ℕ) → 0 < n → n * a ≤ t → t ≤ n * b → (a ≤ t / n) × (t / n ≤ b)
average_bounds n a b t some_packets h k = grind (arith, div-add-mod t n, mod-lt t some_packets)

-- Of a probe of at least one packet every packet is counted as sent and as received, and the
-- average round-trip time lies between the least and the greatest.
pub probe_loop_lem :
    (elapsed : ℕ → ℕ) (size : ℤ) (n : ℕ)
    → 0 < n
    → let r = probe_loop elapsed size n 0 no_probes in
      (r.sent ≡ n) × (r.received ≡ n) × (r.min_rtt ≤ average_rtt r) × (average_rtt r ≤ r.max_rtt)
unfolding average_rtt
probe_loop_lem elapsed size n some_packets =
    let r = probe_loop elapsed size n 0 no_probes in
    let e : 0 + n ≡ n = omega arith in
    let h : Summarises n r =
      subst (λ k. Summarises k r) e
        (probe_loop-Summarises elapsed size n 0 0 no_probes no_probes-Summarises) in
    let (low, high) =
      average_bounds n r.min_rtt r.max_rtt r.total_rtt some_packets h.above_min h.below_max in
    (
      h.all_sent,
      h.all_received,
      rw h.all_received (ground (arith, some_packets, low)),
      rw h.all_received (ground (arith, high)),
    )
