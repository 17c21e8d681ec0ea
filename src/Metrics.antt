-- ===== src/Metrics.antt =====
-- internal/metrics/metrics.go: the Prometheus metrics of the program. What registers and serves
-- them is that of prometheus/client_golang.
use turnfly.Prelude.{List, [], ◌∷◌, ◌++◌, Option}
use turnfly.Text.{Bytes, codes}

pub data Kind : Type 0 where
  counter gauge : Kind

-- The options of a metric, and its labels.
pub record Metric : Type 0 where
  pub kind : Kind
  pub name : Bytes
  pub help : Bytes
  pub labels : List Bytes

abbrev plain : Kind → Bytes → Bytes → Metric
plain kind name help = record { kind = kind; name = name; help = help; labels = [] }

pub allocations_active : Metric
allocations_active =
    plain gauge (codes "turn_allocations_active")
      (codes "Current number of active TURN allocations.")

pub allocations_total : Metric
allocations_total =
    plain counter (codes "turn_allocations_total")
      (codes "Total number of TURN allocations created.")

pub bytes_in_total : Metric
bytes_in_total =
    plain counter (codes "turn_bytes_in_total") (codes "Total bytes received via TURN relay.")

pub bytes_out_total : Metric
bytes_out_total =
    plain counter (codes "turn_bytes_out_total") (codes "Total bytes sent via TURN relay.")

pub packets_dropped_total : Metric
packets_dropped_total =
    plain counter (codes "turn_packets_dropped_total")
      (codes "Total number of TURN packets dropped.")

pub auth_failures_total : Metric
auth_failures_total =
    plain counter (codes "turn_auth_failures_total")
      (codes "Total number of TURN authentication failures.")

pub region_candidate_wins_total : Metric
region_candidate_wins_total = record {
  kind = counter;
  name = codes "region_candidate_wins_total";
  help = codes "Total number of times each region was chosen as the winning ICE candidate.";
  labels = codes "region" ∷ [];
}

pub relay_quic_rtt_ms : Metric
relay_quic_rtt_ms =
    plain gauge (codes "relay_quic_rtt_ms")
      (codes "Current estimated relay QUIC tunnel round-trip time in milliseconds.")

-- The dash of the help is three bytes.
pub relay_quic_loss_estimate : Metric
relay_quic_loss_estimate = plain gauge (codes "relay_quic_loss_estimate") (
    codes "Estimated packet loss on the relay QUIC tunnel (0.0"
    ++ (226 ∷ 128 ∷ 147 ∷ codes "1.0)."))

pub relay_tunnel_bytes_total : Metric
relay_tunnel_bytes_total =
    plain counter (codes "relay_tunnel_bytes_total")
      (codes "Total bytes transferred through the relay tunnel.")

-- The metrics that `Register` hands to `prometheus.MustRegister`.
pub registered : List Metric
registered =
    allocations_active ∷ allocations_total ∷ bytes_in_total ∷ bytes_out_total
    ∷ packets_dropped_total ∷ auth_failures_total ∷ region_candidate_wins_total ∷ relay_quic_rtt_ms
    ∷ relay_quic_loss_estimate ∷ relay_tunnel_bytes_total ∷ []

-- `Register`; `must_register` is that of the registry, and gives none where it panics.
pub register :
    {Registry : Type 0} → (Registry → List Metric → Option Registry) → Registry → Option Registry
register must_register r = must_register r registered
