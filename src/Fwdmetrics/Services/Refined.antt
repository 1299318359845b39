-- ===== src/Fwdmetrics/Services/Refined.antt =====
-- The registry of pkg/fwdmetrics/registry.go against a plain record of the calls.
use kubefwd.Base.{
  ◌≡◌, refl, ap, ◌∙◌, List, [], ◌∷◌, Option, none, some, Bool, ◌&&◌, Text, text_key, ◌==◌, lookup,
  if◌then◌else◌,
}
use kubefwd.Fwdmetrics.Forward.{PortForwardMetrics, service_key}
use kubefwd.Fwdmetrics.Services.{MetricsRegistry, empty_registry, forward_key}
use kubefwd.Fwdmetrics.Services.Found.{
  forward_in, find_forward, HasOwnAddresses, find_forward-register_port_forward,
}
use kubefwd.Fwdmetrics.Services.Removed.{
  Call, registered, unregistered, call, call_all, call-HasOwnAddresses,
  empty_registry-HasOwnAddresses, find_forward-unregister_port_forward,
}

-- The call is about the forward with this name of a service and this pod and port.
unfoldable is_about : Text → Text → PortForwardMetrics → Bool
is_about j k pf = (service_key pf == j) && (forward_key pf.pod_name pf.local_port == k)

-- What the calls leave at a place: the forward that was registered there last and not unregistered
-- since.
unfoldable pub left_by :
    Text → Text → List Call → Option PortForwardMetrics → Option PortForwardMetrics
unfolding is_about
left_by j k [] o = o
left_by j k (registered pf ∷ rest) o = left_by j k rest (if is_about j k pf then some pf else o)
left_by j k (unregistered pf ∷ rest) o = left_by j k rest (if is_about j k pf then none else o)

find_forward-call_all_from :
    (j k : Text) (calls : List Call) (r : MetricsRegistry)
    → HasOwnAddresses r
    → find_forward j k (call_all calls r) ≡ left_by j k calls (find_forward j k r)
unfolding call_all call left_by is_about
find_forward-call_all_from j k [] r v = refl
find_forward-call_all_from j k (registered pf ∷ rest) r v =
    find_forward-call_all_from j k rest (call (registered pf) r)
      (call-HasOwnAddresses (registered pf) r v)
    ∙ ap (left_by j k rest) (find_forward-register_port_forward pf j k r v)
find_forward-call_all_from j k (unregistered pf ∷ rest) r v =
    find_forward-call_all_from j k rest (call (unregistered pf) r)
      (call-HasOwnAddresses (unregistered pf) r v)
    ∙ ap (left_by j k rest)
        (find_forward-unregister_port_forward (service_key pf) pf.pod_name pf.local_port j k r v)

-- Whatever forwards are registered and unregistered one call after the other, each under its own
-- service's name, the registry finds under any name, pod and port the forward that was registered there
-- last and not unregistered since, and nothing else.
pub find_forward-call_all :
    (j k : Text) (calls : List Call)
    → find_forward j k (call_all calls empty_registry) ≡ left_by j k calls none
unfolding find_forward forward_in lookup
find_forward-call_all j k calls =
    find_forward-call_all_from j k calls empty_registry empty_registry-HasOwnAddresses
