-- ===== src/Fwdns/Handlers.antt =====
-- The handlers of service events of pkg/fwdns/manager.go.
use kubefwd.Base.{
  ℕ, ◌++◌, List, [], ◌∷◌, none, some, Bool, false, not, ◌&&◌, Text, text_key, ◌==◌, is_blank,
  if◌then◌else◌,
}
use kubefwd.Fwdservice.Types.{ServiceSpec}
use kubefwd.Fwdservice.Reconnect.{Reconnection}
use kubefwd.Fwdsvcregistry.{ServicesRegistry, add_service, remove_by_name, get}
use kubefwd.Fwdns.PortMapping.{parse_port_map}

-- `v1.Service`, as far as it is read; the selector is its text.
pub record Service : Type 0 where
  pub name : Text
  pub namespace : Text
  pub selector : Text
  pub spec : ServiceSpec

-- What an informer hands to a handler: the service, or the tombstone of one whose deletion it missed
-- (`cache.DeletedFinalStateUnknown`).
pub data Object : Type 0 where
  service : Service → Object
  tombstone : Service → Object

-- The settings of `NamespaceManager` that services are made with.
pub record Settings : Type 0 where
  pub port_mapping : List Text
  pub retry_interval : ℕ
  pub auto_reconnect : Bool
  pub label_selector : Text
  pub field_selector : Text

-- `NamespaceWatcher`
pub record NamespaceWatcher : Type 0 where
  pub key : Text
  pub namespace : Text
  pub cluster : Text
  pub cluster_n : ℕ
  pub namespace_n : ℕ
  pub label_selector : Text
  pub field_selector : Text
  pub started_at : ℕ
  pub running : Bool

-- The `ServiceFWD` that `addServiceHandler` and `CreateServiceFWD` make.
unfoldable pub new_service_fwd : Settings → Text → Text → ℕ → ℕ → Service → Reconnection
new_service_fwd c namespace cluster cluster_n namespace_n svc = record {
  auto_reconnect = c.auto_reconnect;
  backoff = 0;
  reconnecting = false;
  done = false;
  attempts = [];
  service = record {
    name = svc.name;
    namespace = namespace;
    cluster = cluster;
    cluster_n = cluster_n;
    namespace_n = namespace_n;
    spec = svc.spec;
    headless = svc.spec.cluster_ip_none;
    updated_spec = none;
    port_map = parse_port_map c.port_mapping;
    retry_interval = c.retry_interval;
    no_pods_logged = false;
    last_synced_at = 0;
    retries = 0;
    port_forwards = [];
    launched = [];
    stopped = [];
    next_identity = 0;
  };
}

-- The registry, and the updates whose goroutines have been started.
pub record Handled : Type 0 where
  pub registry : ServicesRegistry
  pub updates : List (Text × Service)

-- The name of a service in the registry, as the handlers write it.
abbrev pub registry_key : Service → Text → Text
registry_key svc cluster = svc.name ++ b'.' ∷ (svc.namespace ++ b'.' ∷ cluster)

module _ (c : Settings) (w : NamespaceWatcher) where
  unfoldable pub add_service_object : Service → Handled → Handled
  add_service_object svc h = if is_blank svc.selector then h else record h {
    registry =
        add_service (new_service_fwd c w.namespace w.cluster w.cluster_n w.namespace_n svc)
          h.registry;
  }

  -- `addServiceHandler`
  unfoldable pub add_service_handler : Object → Handled → Handled
  unfolding add_service_object
  add_service_handler (tombstone svc) h = h
  add_service_handler (service svc) h = add_service_object svc h

  -- `deleteServiceHandler`
  unfoldable pub delete_service_handler : Object → Handled → Handled
  delete_service_handler (tombstone svc) h = h
  delete_service_handler (service svc) h = record h {
    registry = remove_by_name (registry_key svc w.cluster) h.registry;
  }

  -- `updateServiceHandler` from the comparison of the specs on.
  unfoldable pub update_service_object : Bool → Service → Service → Handled → Handled
  unfolding add_service_object
  update_service_object ports_changed old new h =
      if old.selector == new.selector && not ports_changed
      then h
      else if is_blank new.selector
      then record h { registry = remove_by_name (registry_key new w.cluster) h.registry }
      else if is_blank old.selector
      then add_service_object new h
      else elim (get (registry_key new w.cluster) h.registry) [
        | none ↦ h
        | some svcfwd ↦ record h { updates = h.updates ++ (registry_key new w.cluster, new) ∷ [] }
      ]

  -- `updateServiceHandler`; the first argument is the comparison of the ports by `reflect.DeepEqual`.
  unfoldable pub update_service_handler :
      (Service → Service → Bool) → Object → Object → Handled → Handled
  unfolding update_service_object
  update_service_handler ports_changed (service old) (service new) h =
      update_service_object (ports_changed old new) old new h
  update_service_handler ports_changed (service old) (tombstone new) h = h
  update_service_handler ports_changed (tombstone old) new h = h
