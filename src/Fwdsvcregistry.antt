-- ===== src/Fwdsvcregistry.antt =====
-- pkg/fwdsvcregistry/fwdsvcregistry.go: the services that are forwarded, by name, and their shutdown.
-- A service is held with its reconnection state; closing its `DoneChannel` sets `done`.
pub mod Laws
pub mod Shutdown
mod Tests
use kubefwd.Base.{
  ℕ, ◌++◌, List, [], ◌∷◌, Option, none, some, Bool, true, false, ◌&&◌, Text, text_key, ◌==◌, Dict,
  lookup, insert, erase, values, keys, if◌then◌else◌,
}
use kubefwd.Ring.Filtered.{select}
use kubefwd.Fwdservice.Types.{PortForwardOpts, ServiceFwd}
use kubefwd.Fwdservice.Ports.{service_string}
use kubefwd.Fwdservice.Forwards.{remove_service_pod}
use kubefwd.Fwdservice.Reconnect.{Reconnection}

-- `ServicesRegistry`. `syncs` holds the names whose first synchronisation was started, and `stopped`
-- the services that have been removed, as they are left.
pub record ServicesRegistry : Type 0 where
  pub services : Dict Text Reconnection
  pub shut_down_signal : Bool
  pub done_signal : Bool
  pub syncs : List Text
  pub stopped : List Reconnection

abbrev pub name_of : Reconnection → Text
name_of svc = service_string svc.service

-- `Init`
unfoldable pub init : ServicesRegistry
init = record {
  services = [];
  shut_down_signal = false;
  done_signal = false;
  syncs = [];
  stopped = [];
}

-- `Get`
unfoldable pub get : Text → ServicesRegistry → Option Reconnection
get key r = lookup key r.services

-- `GetAll`
unfoldable pub get_all_services : ServicesRegistry → List Reconnection
get_all_services r = values r.services

abbrev pub is_in : Text → Text → Reconnection → Bool
is_in namespace cluster svc = svc.service.namespace == namespace && svc.service.cluster == cluster

-- `GetByNamespace`
unfoldable pub get_by_namespace : Text → Text → ServicesRegistry → List Reconnection
get_by_namespace namespace cluster r = select (is_in namespace cluster) (values r.services)

-- `Add` once it has looked at the shutdown signal.
unfoldable pub add_checked : Reconnection → ServicesRegistry → ServicesRegistry
add_checked svc r = elim (lookup (name_of svc) r.services) [
  | some found ↦ r
  | none ↦ record r {
    services = insert (name_of svc) svc r.services;
    syncs = r.syncs ++ name_of svc ∷ [];
  }
]

-- `Add`
unfoldable pub add_service : Reconnection → ServicesRegistry → ServicesRegistry
unfolding add_checked
add_service svc r = if r.shut_down_signal then r else add_checked svc r

-- `ServiceFWD.ListServicePodNames`
unfoldable pub list_service_pod_names : ServiceFwd → List Text
list_service_pod_names s = keys s.port_forwards

-- The goroutines of `RemoveByName`, one for each forward.
unfoldable pub remove_pods : List Text → ServiceFwd → ServiceFwd
remove_pods [] s = s
remove_pods (name ∷ rest) s = remove_pods rest (remove_service_pod name s)

-- What `RemoveByName` does to the service once it is out of the registry.
unfoldable pub stop_service : Reconnection → Reconnection
unfolding remove_pods
stop_service svc = record svc {
  done = true;
  service = remove_pods (list_service_pod_names svc.service) svc.service;
}

-- `RemoveByName`
unfoldable pub remove_by_name : Text → ServicesRegistry → ServicesRegistry
remove_by_name name r = elim (lookup name r.services) [
  | none ↦ r
  | some svc ↦ record r { services = erase name r.services; stopped = stop_service svc ∷ r.stopped }
]

-- The loop of `ShutDownAll`.
unfoldable pub remove_names : List Text → ServicesRegistry → ServicesRegistry
remove_names [] r = r
remove_names (name ∷ rest) r = remove_names rest (remove_by_name name r)

-- `ShutDownAll`
unfoldable pub shut_down_all : ServicesRegistry → ServicesRegistry
shut_down_all r = remove_names (keys r.services) r

-- The goroutine of `Init`, once the shutdown signal is given.
unfoldable pub on_shut_down_signal : ServicesRegistry → ServicesRegistry
on_shut_down_signal r = record (shut_down_all (record r { shut_down_signal = true })) {
  done_signal = true;
}
