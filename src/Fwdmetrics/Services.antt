-- ===== src/Fwdmetrics/Services.antt =====
-- The services that are measured: `ServiceMetrics` of pkg/fwdmetrics/types.go and pkg/fwdmetrics/registry.go.
-- The registry and a caller that has looked a service up share it, so services live in a heap and the
-- registry holds their addresses. A call holds the registry's lock up to where it lets go of it;
-- `register_port_forward` has let go of it when it adds the forward. Rates are added by parameters.
pub mod Found
pub mod Removed
pub mod Refined
pub mod Lost
use kubefwd.Base.{
  ℕ, ◌+◌, ◌%◌, ◌^◌, List, [], ◌∷◌, ◌++◌, map, Option, none, some, Text, text_key, Dict, lookup,
  insert, erase, values, length, get_or, set, nat_beq, if◌then◌else◌,
}
use kubefwd.Fwdmetrics.Rate.{get_instant_rate}
use kubefwd.Fwdmetrics.Forward.{PortForwardMetrics, record_sample}

pub record ServiceMetrics : Type 0 where
  pub service_name : Text
  pub namespace : Text
  pub context : Text
  pub port_forwards : Dict Text PortForwardMetrics

-- `NewServiceMetrics`
unfoldable pub new_service_metrics : Text → Text → Text → ServiceMetrics
new_service_metrics service_name namespace context = record {
  service_name = service_name;
  namespace = namespace;
  context = context;
  port_forwards = [];
}

abbrev pub no_service : ServiceMetrics
no_service = record { service_name = []; namespace = []; context = []; port_forwards = [] }

-- `ServiceMetrics.Key`
unfoldable pub metrics_key : ServiceMetrics → Text
metrics_key s = s.service_name ++ b'.' ∷ (s.namespace ++ b'.' ∷ s.context)

-- `podName + ":" + localPort`
unfoldable pub forward_key : Text → Text → Text
forward_key pod_name local_port = pod_name ++ b':' ∷ local_port

-- `AddPortForward`
unfoldable pub add_port_forward : PortForwardMetrics → ServiceMetrics → ServiceMetrics
unfolding forward_key
add_port_forward pf s = record s {
  port_forwards = insert (forward_key pf.pod_name pf.local_port) pf s.port_forwards;
}

-- `RemovePortForward`
unfoldable pub remove_port_forward : Text → Text → ServiceMetrics → ServiceMetrics
unfolding forward_key
remove_port_forward pod_name local_port s = record s {
  port_forwards = erase (forward_key pod_name local_port) s.port_forwards;
}

-- `Count`
unfoldable pub count : ServiceMetrics → ℕ
count s = length s.port_forwards

-- `Registry`, without its ticker.
pub record MetricsRegistry : Type 0 where
  pub services : Dict Text ℕ
  pub heap : List ServiceMetrics

-- `GetRegistry`, at the first call.
abbrev pub empty_registry : MetricsRegistry
empty_registry = record { services = []; heap = [] }

-- The service at an address.
unfoldable pub service_at : ℕ → MetricsRegistry → ServiceMetrics
service_at a r = get_or r.heap a no_service

-- `RegisterService` of a service that is new.
unfoldable pub register_service : ServiceMetrics → MetricsRegistry → MetricsRegistry
register_service s r = record {
  services = insert (metrics_key s) (length r.heap) r.services;
  heap = r.heap ++ s ∷ [];
}

-- `UnregisterService`
unfoldable pub unregister_service : Text → MetricsRegistry → MetricsRegistry
unregister_service key r = record r { services = erase key r.services }

-- `GetService`
unfoldable pub get_service : Text → MetricsRegistry → Option ServiceMetrics
unfolding service_at
get_service key r = elim (lookup key r.services) [ none ↦ none | some a ↦ some (service_at a r) ]

-- `RegisterPortForward` up to where it lets go of the lock: the service, made if there is none.
unfoldable pub obtain_service : Text → PortForwardMetrics → MetricsRegistry → ℕ × MetricsRegistry
unfolding register_service
obtain_service key pf r = elim (lookup key r.services) [
  | some a ↦ (a, r)
  | none ↦ (
    length r.heap,
    register_service (new_service_metrics pf.service_name pf.namespace pf.context) r,
  )
]

-- `svc.AddPortForward(pf)` of a service at an address.
unfoldable pub add_forward_at : ℕ → PortForwardMetrics → MetricsRegistry → MetricsRegistry
unfolding service_at
add_forward_at a pf r = record r { heap = set r.heap a (add_port_forward pf (service_at a r)) }

-- `RegisterPortForward`, where no other call comes between.
unfoldable pub register_port_forward : Text → PortForwardMetrics → MetricsRegistry → MetricsRegistry
unfolding obtain_service add_forward_at
register_port_forward key pf r = let (a, r1) = obtain_service key pf r in add_forward_at a pf r1

unfoldable pub remove_forward_at : Text → ℕ → Text → Text → MetricsRegistry → MetricsRegistry
unfolding service_at
remove_forward_at key a pod_name local_port r =
    let s = remove_port_forward pod_name local_port (service_at a r) in
    record {
      services = if nat_beq (count s) 0 then erase key r.services else r.services;
      heap = set r.heap a s;
    }

-- `UnregisterPortForward`
unfoldable pub unregister_port_forward : Text → Text → Text → MetricsRegistry → MetricsRegistry
unfolding remove_forward_at
unregister_port_forward key pod_name local_port r = elim (lookup key r.services) [
  | none ↦ r
  | some a ↦ remove_forward_at key a pod_name local_port r
]

-- `GetAllServices`
unfoldable pub get_all_metrics : MetricsRegistry → List ServiceMetrics
unfolding service_at
get_all_metrics r = map (λ a. service_at a r) (values r.services)

-- `ServiceCount`
unfoldable pub service_count : MetricsRegistry → ℕ
service_count r = length r.services

unfoldable pub sum_counts : List ServiceMetrics → ℕ
sum_counts [] = 0
sum_counts (s ∷ rest) = count s + sum_counts rest

-- `PortForwardCount`
unfoldable pub port_forward_count : MetricsRegistry → ℕ
unfolding sum_counts
port_forward_count r = sum_counts (get_all_metrics r)

-- `takeSample` of one service.
unfoldable pub sample_forwards : ℕ → Dict Text PortForwardMetrics → Dict Text PortForwardMetrics
sample_forwards now [] = []
sample_forwards now ((k, pf) ∷ rest) = (k, record_sample now pf) ∷ sample_forwards now rest

unfoldable pub sample_at : ℕ → List ℕ → List ServiceMetrics → List ServiceMetrics
unfolding sample_forwards
sample_at now [] heap = heap
sample_at now (a ∷ rest) heap =
    let s = get_or heap a no_service in
    sample_at now rest
      (set heap a (record s { port_forwards = sample_forwards now s.port_forwards }))

-- `takeSample`
unfoldable pub take_sample : ℕ → MetricsRegistry → MetricsRegistry
unfolding sample_at
take_sample now r = record r { heap = sample_at now (values r.services) r.heap }

-- What `GetTotals` returns.
pub record Totals (Rate : Type 0) : Type 0 where
  pub bytes_in : ℕ
  pub bytes_out : ℕ
  pub rate_in : Rate
  pub rate_out : Rate

module _ {Rate : Type 0} (per_second : ℕ → ℕ → Rate) (no_rate : Rate)
    (add_rate : Rate → Rate → Rate) where
  unfoldable pub plus : Totals Rate → Totals Rate → Totals Rate
  plus t u = record {
    bytes_in = (t.bytes_in + u.bytes_in) % 2 ^ 64;
    bytes_out = (t.bytes_out + u.bytes_out) % 2 ^ 64;
    rate_in = add_rate t.rate_in u.rate_in;
    rate_out = add_rate t.rate_out u.rate_out;
  }

  abbrev pub no_totals : Totals Rate
  no_totals = record { bytes_in = 0; bytes_out = 0; rate_in = no_rate; rate_out = no_rate }

  unfoldable pub forward_totals : PortForwardMetrics → Totals Rate
  forward_totals pf =
      let (rate_in, rate_out) = get_instant_rate per_second no_rate pf.rate_calc in
      record {
        bytes_in = pf.bytes_in;
        bytes_out = pf.bytes_out;
        rate_in = rate_in;
        rate_out = rate_out;
      }

  -- The loops of `GetTotals`, from what is summed so far.
  unfoldable pub sum_forwards : Totals Rate → List PortForwardMetrics → Totals Rate
  unfolding plus forward_totals
  sum_forwards t [] = t
  sum_forwards t (pf ∷ rest) = sum_forwards (plus t (forward_totals pf)) rest

  unfoldable pub sum_services : Totals Rate → List ServiceMetrics → Totals Rate
  unfolding plus sum_forwards
  sum_services t [] = t
  sum_services t (s ∷ rest) =
      sum_services (plus t (sum_forwards no_totals (values s.port_forwards))) rest

  -- `Registry.GetTotals`
  unfoldable pub get_totals : MetricsRegistry → Totals Rate
  unfolding sum_services
  get_totals r = sum_services no_totals (get_all_metrics r)
