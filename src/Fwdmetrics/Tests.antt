-- ===== src/Fwdmetrics/Tests.antt =====
-- The measurements on small inputs. A rate is kept as the two numbers that would be divided; for a
-- regular expression stands a search for the first blank.
use kubefwd.Base.{
  ℕ, ◌≡◌, refl, ◌<◌, List, [], ◌∷◌, ◌++◌, map, Option, none, some, Text, text_key, ascii, cut, pos,
  ◌-◌, ◌%◌, ◌^◌, lookup, erase, last, length, replicate, arith, All,
}
use mathlib.Core.Option
use kubefwd.Fwdmetrics.Rate.{
  RateSample, RateCalculator, new_rate_calculator, sample_limit, oldest_sample, get_average_rate,
}
use kubefwd.Fwdmetrics.Rate.Window.{add_samples}
use kubefwd.Fwdmetrics.Rate.Average.{IsUint64, traffic_over, get_average_rate-add_samples}
use kubefwd.Fwdmetrics.Sniffer.{
  HttpSniffer, new_http_sniffer, max_http_logs, first_line, buffered, get_http_logs,
}
use kubefwd.Fwdmetrics.Sniffer.Stuck.{sniff_requests, sniff_requests-no_line}
use kubefwd.Fwdmetrics.Sniffer.Conversation.{
  Exchange, IsHttp, logged, converse, get_http_logs-converse,
}
use kubefwd.Fwdmetrics.Forward.{PortForwardMetrics, enable_http_sniffing}
use kubefwd.Fwdmetrics.Forward.Counted.{
  Transfer, received, sent, total_in, total_out, transfer_all, bytes_in-transfer_all,
}
use kubefwd.Fwdmetrics.Services.{MetricsRegistry, empty_registry, service_at, forward_key}
use kubefwd.Fwdmetrics.Services.Found.{find_forward}
use kubefwd.Fwdmetrics.Services.Removed.{Call, registered, unregistered, call_all}
use kubefwd.Fwdmetrics.Services.Refined.{left_by, find_forward-call_all}
use kubefwd.Fwdmetrics.Services.Lost.{register_around, register_around-last_one}

abbrev sample : ℕ → ℕ → ℕ → RateSample
sample t i o = record { timestamp = t; bytes_in = i; bytes_out = o }

abbrev three_samples : List RateSample
three_samples = sample 1 10 5 ∷ sample 2 30 6 ∷ sample 3 60 9 ∷ []

abbrev divided : ℕ → ℕ → ℕ × ℕ
divided bytes duration = (bytes, duration)

abbrev three_uint64 : All IsUint64 three_samples
three_uint64 = (
  record { in_within = omega arith; out_within = omega arith },
  (
    record { in_within = omega arith; out_within = omega arith },
    (record { in_within = omega arith; out_within = omega arith }, tt),
  ),
)

get_average_rate-add_samples_example :
    get_average_rate divided
      (0, 0)
      (pos 1)
      (add_samples three_samples (new_rate_calculator (pos 2)))
    ≡ some (traffic_over divided (0, 0) (last 2 (last (sample_limit (pos 2)) three_samples)))
get_average_rate-add_samples_example =
    get_average_rate-add_samples divided (0, 0) (pos 2) 1 three_samples (omega arith) three_uint64

abbrev two_sampled : RateCalculator
two_sampled = record { samples = three_samples; max_samples = 3; current_index = 0 }

-- At the greatest int the count of samples wraps around, and the index is negative.
greatest_window : get_average_rate divided (0, 0) (pos (2 ^ 63 - 1)) two_sampled ≡ none
unfolding get_average_rate oldest_sample
greatest_window = refl

abbrev find_request : Text → Option (Text × Text)
find_request line = cut b' ' line

abbrev find_status : Text → Option Text
find_status line = Option.map (λ (p : Text × Text). p.1) (cut b' ' line)

abbrev find_length : Text → Option Text
find_length bytes = none

abbrev get_exchange : Exchange
get_exchange = record {
  request = ascii "GET /a" ++ 10 ∷ [];
  requested_at = 100;
  response = ascii "HTTP/1.1 200" ++ 13 ∷ (10 ∷ []);
  answered_at = 120;
  method = ascii "GET";
  path = ascii "/a";
  status = ascii "200";
  request_line = ascii "GET /a";
  status_line = ascii "HTTP/1.1 200";
}

get_exchange-IsHttp : IsHttp find_request find_status find_length get_exchange
unfolding first_line cut
get_exchange-IsHttp = record {
  request_some = refl;
  response_some = refl;
  request_first = refl;
  response_first = refl;
  request_match = refl;
  status_match = refl;
}

get_http_logs-converse_example :
    (s : HttpSniffer) × (converse find_request find_status find_length
        (get_exchange ∷ [])
        (new_http_sniffer (pos 2))
      ≡ some s)
    × ((n : ℕ)
        → 0 < n
        → get_http_logs (pos n) s
          ≡ last n (
              last
                (max_http_logs (pos 2))
                (map (logged find_request find_status find_length) (get_exchange ∷ []))))
get_http_logs-converse_example =
    get_http_logs-converse find_request find_status find_length (pos 2) (get_exchange ∷ [])
      (get_exchange-IsHttp, tt)

abbrev upload : Text
upload = replicate 512 b'x'

abbrev later_request : List (ℕ × Text)
later_request = (2, ascii "GET /a" ++ 10 ∷ []) ∷ []

upload-no_line : first_line (buffered [] upload) ≡ none
unfolding first_line buffered
upload-no_line = refl

sniff_requests-no_line_example :
    sniff_requests find_request ((1, upload) ∷ later_request) (new_http_sniffer (pos 2))
    ≡ record (new_http_sniffer (pos 2)) { req_buffer = buffered [] upload }
unfolding new_http_sniffer
sniff_requests-no_line_example =
    sniff_requests-no_line find_request 1 upload later_request (new_http_sniffer (pos 2)) refl
      (omega arith) (omega arith) upload-no_line

abbrev web_forward : Text → PortForwardMetrics
web_forward pod = record {
  bytes_in = 0;
  bytes_out = 0;
  last_activity = 0;
  service_name = ascii "web";
  namespace = ascii "ns";
  context = ascii "ctx";
  pod_name = pod;
  local_ip = ascii "127.1.27.1";
  local_port = ascii "80";
  pod_port = ascii "80";
  connected_at = 0;
  rate_calc = two_sampled;
  http_sniffer = none;
}

abbrev two_transfers : List Transfer
two_transfers =
    sent 1 (ascii "GET /a" ++ 10 ∷ []) ∷ received 2 (ascii "HTTP/1.1 200" ++ 10 ∷ []) ∷ []

bytes_in-transfer_all_example :
    (m' : PortForwardMetrics) × (transfer_all find_request find_status find_length two_transfers
        (enable_http_sniffing (pos 50) (web_forward (ascii "a")))
      ≡ some m')
    × (m'.bytes_in ≡ total_in two_transfers % 2 ^ 64)
    × (m'.bytes_out ≡ total_out two_transfers % 2 ^ 64)
bytes_in-transfer_all_example =
    bytes_in-transfer_all find_request find_status find_length (web_forward (ascii "a")) (pos 50)
      two_transfers refl refl

abbrev web_key : Text
web_key = ascii "web.ns.ctx"

abbrev three_calls : List Call
three_calls =
    registered (web_forward (ascii "a"))
    ∷ registered (web_forward (ascii "b"))
    ∷ unregistered (web_forward (ascii "a"))
    ∷ []

find_forward-call_all_example :
    find_forward web_key (ascii "b:80") (call_all three_calls empty_registry)
    ≡ left_by web_key (ascii "b:80") three_calls none
find_forward-call_all_example = find_forward-call_all web_key (ascii "b:80") three_calls

abbrev one_registered : MetricsRegistry
one_registered = record {
  services = (web_key, 0) ∷ [];
  heap =
      record {
        service_name = ascii "web";
        namespace = ascii "ns";
        context = ascii "ctx";
        port_forwards = (ascii "a:80", web_forward (ascii "a")) ∷ [];
      }
      ∷ [];
}

found_at_zero : lookup web_key one_registered.services ≡ some 0
unfolding lookup
found_at_zero = refl

only_one :
    length
      (erase (forward_key (ascii "a") (ascii "80")) (service_at 0 one_registered).port_forwards)
    ≡ 0
unfolding erase service_at forward_key
only_one = refl

register_around-last_one_example :
    find_forward web_key
      (ascii "b:80")
      (register_around web_key (web_forward (ascii "b")) (ascii "a") (ascii "80") one_registered)
    ≡ none
register_around-last_one_example =
    register_around-last_one web_key (ascii "a") (ascii "80") (ascii "b:80")
      (web_forward (ascii "b")) one_registered 0 found_at_zero only_one
