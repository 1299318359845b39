-- ===== src/Fwdmetrics/Forward.antt =====
-- The counters of one port forward (pkg/fwdmetrics/types.go) and the streams that count into them
-- (pkg/fwdmetrics/stream.go). Counters wrap at 2^64; times are in nanoseconds. A panic that a stream
-- recovers from is `none`.
pub mod Counted
use kubefwd.Base.{
  ℕ, ◌+◌, ◌%◌, ◌^◌, List, [], ◌∷◌, ◌++◌, Option, none, some, Text, is_blank, ℤ, pos, length,
  if◌then◌else◌,
}
use mathlib.Core.Option
use kubefwd.Fwdmetrics.Rate.{
  RateSample, RateCalculator, new_rate_calculator, default_max_samples, add_sample,
}
use kubefwd.Fwdmetrics.Sniffer.{
  HttpLogEntry, HttpSniffer, new_http_sniffer, sniff_request, sniff_response, get_http_logs,
}

pub record PortForwardMetrics : Type 0 where
  pub bytes_in : ℕ
  pub bytes_out : ℕ
  pub last_activity : ℕ
  pub service_name : Text
  pub namespace : Text
  pub context : Text
  pub pod_name : Text
  pub local_ip : Text
  pub local_port : Text
  pub pod_port : Text
  pub connected_at : ℕ
  pub rate_calc : RateCalculator
  pub http_sniffer : Option HttpSniffer

-- `NewPortForwardMetrics` at a time.
unfoldable pub new_port_forward_metrics :
    ℕ → Text → Text → Text → Text → Text → Text → Text → PortForwardMetrics
new_port_forward_metrics now service_name namespace context pod_name local_ip local_port pod_port =
    record {
      bytes_in = 0;
      bytes_out = 0;
      last_activity = 0;
      service_name = service_name;
      namespace = namespace;
      context = context;
      pod_name = pod_name;
      local_ip = local_ip;
      local_port = local_port;
      pod_port = pod_port;
      connected_at = now;
      rate_calc = new_rate_calculator (pos default_max_samples);
      http_sniffer = none;
    }

-- `ServiceKey`
unfoldable pub service_key : PortForwardMetrics → Text
service_key m = m.service_name ++ b'.' ∷ (m.namespace ++ b'.' ∷ m.context)

-- `AddBytesIn` and `AddBytesOut`
unfoldable pub add_bytes_in : ℕ → ℕ → PortForwardMetrics → PortForwardMetrics
add_bytes_in now n m = record m { bytes_in = (m.bytes_in + n) % 2 ^ 64; last_activity = now }

unfoldable pub add_bytes_out : ℕ → ℕ → PortForwardMetrics → PortForwardMetrics
add_bytes_out now n m = record m { bytes_out = (m.bytes_out + n) % 2 ^ 64; last_activity = now }

-- `RecordSample`
unfoldable pub record_sample : ℕ → PortForwardMetrics → PortForwardMetrics
record_sample now m = record m {
  rate_calc =
      add_sample (record { timestamp = now; bytes_in = m.bytes_in; bytes_out = m.bytes_out })
        m.rate_calc;
}

-- `EnableHTTPSniffing`
unfoldable pub enable_http_sniffing : ℤ → PortForwardMetrics → PortForwardMetrics
enable_http_sniffing max_logs m = record m { http_sniffer = some (new_http_sniffer max_logs) }

-- `GetHTTPLogs`
unfoldable pub get_forward_http_logs : ℤ → PortForwardMetrics → List HttpLogEntry
get_forward_http_logs count m = elim m.http_sniffer [ none ↦ [] | some s ↦ get_http_logs count s ]

module _ (match_request : Text → Option (Text × Text))
    (match_status match_length : Text → Option Text) where
  -- `if sniffer := ms.metrics.GetHTTPSniffer(); sniffer != nil`, for what is read and for what is written.
  unfoldable pub sniff_read : ℕ → Text → Option HttpSniffer → Option (Option HttpSniffer)
  sniff_read now bytes none = some none
  sniff_read now bytes (some s) =
      Option.map some (sniff_response match_status match_length now bytes s)

  unfoldable pub sniff_written : ℕ → Text → Option HttpSniffer → Option HttpSniffer
  sniff_written now bytes none = none
  sniff_written now bytes (some s) = some (sniff_request match_request now bytes s)

  -- `MetricsStream.Read`, of the bytes that the stream has read.
  unfoldable pub stream_read : ℕ → Text → PortForwardMetrics → Option PortForwardMetrics
  unfolding sniff_read
  stream_read now bytes m =
      if is_blank bytes
      then some m
      else (let m1 = add_bytes_in now (length bytes) m in
          Option.map (λ (s : Option HttpSniffer). record m1 { http_sniffer = s })
            (sniff_read now bytes m1.http_sniffer))

  -- `MetricsStream.Write`, of the bytes that the stream has written.
  unfoldable pub stream_write : ℕ → Text → PortForwardMetrics → Option PortForwardMetrics
  unfolding sniff_written
  stream_write now bytes m =
      if is_blank bytes
      then some m
      else (let m1 = add_bytes_out now (length bytes) m in
          some (record m1 { http_sniffer = sniff_written now bytes m1.http_sniffer }))
