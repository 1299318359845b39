-- ===== src/Fwdmetrics/Services/Lost.antt =====
-- pkg/fwdmetrics/registry.go: a forward that is unregistered while another of the same service is being
-- registered.
use kubefwd.Base.{
  ℕ, ◌≡◌, refl, ap, ◌∙◌, none, some, true, Text, text_key, lookup, erase, lookup-erase, length,
  nat_beq, text_beq_iff, arith,
}
use kubefwd.Fwdmetrics.Forward.{PortForwardMetrics}
use kubefwd.Fwdmetrics.Services.{
  MetricsRegistry, service_at, forward_key, remove_port_forward, obtain_service, add_forward_at,
  remove_forward_at, unregister_port_forward, count,
}
use kubefwd.Fwdmetrics.Services.Found.{forward_in, find_forward, obtain_service-eq_some}

-- `UnregisterPortForward` of another forward, then the forward that is being registered is added.
unfoldable pub add_after :
    Text → PortForwardMetrics → Text → Text → ℕ × MetricsRegistry → MetricsRegistry
add_after key pf pod_name local_port (a, r) =
    add_forward_at a pf (unregister_port_forward key pod_name local_port r)

-- `RegisterPortForward` of `pf`, with an `UnregisterPortForward` after it has let go of the lock.
unfoldable pub register_around :
    Text → PortForwardMetrics → Text → Text → MetricsRegistry → MetricsRegistry
unfolding add_after
register_around key pf pod_name local_port r =
    add_after key pf pod_name local_port (obtain_service key pf r)

lost :
    (key pod_name local_port k : Text) (pf : PortForwardMetrics) (r : MetricsRegistry) (a : ℕ)
    → lookup key r.services ≡ some a
    → length (erase (forward_key pod_name local_port) (service_at a r).port_forwards) ≡ 0
    → find_forward key k (add_after key pf pod_name local_port (a, r)) ≡ none
unfolding add_after find_forward add_forward_at unregister_port_forward remove_forward_at
    remove_port_forward count forward_in
lost key pod_name local_port k pf r a e h =
    let rest = erase (forward_key pod_name local_port) (service_at a r).port_forwards in
    let empty : nat_beq (length rest) 0 ≡ true = ground (arith, h) in
    let gone : lookup key (erase key r.services) ≡ none =
      ground (arith, lookup-erase key key r.services, text_beq_iff key key) in
    rw (e, unregister_port_forward, empty, gone) refl

-- A forward that is registered while the last other one of its service is unregistered is lost: the
-- service is looked up before and is removed before the forward is added, and afterwards nothing is
-- found under its name.
pub register_around-last_one :
    (key pod_name local_port k : Text) (pf : PortForwardMetrics) (r : MetricsRegistry) (a : ℕ)
    → lookup key r.services ≡ some a
    → length (erase (forward_key pod_name local_port) (service_at a r).port_forwards) ≡ 0
    → find_forward key k (register_around key pf pod_name local_port r) ≡ none
unfolding register_around
register_around-last_one key pod_name local_port k pf r a e h =
    ap (λ p. find_forward key k (add_after key pf pod_name local_port p))
      (obtain_service-eq_some key pf r a e)
    ∙ lost key pod_name local_port k pf r a e h
