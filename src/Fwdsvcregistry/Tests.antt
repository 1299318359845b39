-- ===== src/Fwdsvcregistry/Tests.antt =====
-- A registry with one service, and the theorems at inputs that meet their hypotheses.
use kubefwd.Base.{◌≡◌, refl, [], ◌∷◌, none, some, true, false, text_key, ascii, lookup, insert}
use kubefwd.Fwdservice.Types.{PortForwardOpts}
use kubefwd.Fwdservice.Ports.{service_string}
use kubefwd.Fwdservice.Reconnect.{Reconnection}
use kubefwd.Fwdsvcregistry.{
  ServicesRegistry, init, name_of, add_checked, add_service, stop_service, on_shut_down_signal,
}
use kubefwd.Fwdsvcregistry.Shutdown.{
  IsIn, IsShutDown, add_services, shut_down_among, add_services-on_shut_down_signal,
  add_checked-on_shut_down_signal, on_shut_down_signal-stop_service,
}

abbrev pfo : PortForwardOpts
pfo = record {
  identity = 0;
  service = ascii "web";
  namespace = ascii "ns";
  pod_name = ascii "web-0";
  pod_port = ascii "80";
  container_name = [];
  local_ip = none;
  local_port = ascii "80";
}

abbrev web : Reconnection
web = record {
  auto_reconnect = false;
  backoff = 0;
  reconnecting = false;
  done = false;
  attempts = [];
  service = record {
    name = ascii "web";
    namespace = ascii "ns";
    cluster = ascii "ctx";
    cluster_n = 0;
    namespace_n = 0;
    spec = record { ports = []; cluster_ip_none = false };
    headless = false;
    updated_spec = none;
    port_map = none;
    retry_interval = 0;
    no_pods_logged = false;
    last_synced_at = 0;
    retries = 0;
    port_forwards = (ascii "web.web-0.80", pfo) ∷ [];
    launched = [];
    stopped = [];
    next_identity = 1;
  };
}

abbrev with_web : ServicesRegistry
with_web = add_service web init

registered : lookup (ascii "web.ns.ctx") with_web.services ≡ some web
unfolding add_service init lookup insert service_string
registered = refl

add_services-on_shut_down_signal_example :
    (add_services (web ∷ []) (shut_down_among (web ∷ []) ((web ∷ []) ∷ []) with_web)
      ≡ on_shut_down_signal with_web)
    × IsShutDown (on_shut_down_signal with_web)
unfolding add_service init lookup insert service_string
add_services-on_shut_down_signal_example =
    add_services-on_shut_down_signal (web ∷ []) ((web ∷ []) ∷ []) (web ∷ []) with_web tt

add_checked-on_shut_down_signal_example :
    (lookup (name_of web) (add_checked web (on_shut_down_signal with_web)).services ≡ some web)
    × ((add_checked web (on_shut_down_signal with_web)).done_signal ≡ true)
unfolding add_service init lookup insert service_string
add_checked-on_shut_down_signal_example = add_checked-on_shut_down_signal web with_web tt

on_shut_down_signal-stop_service_example :
    IsIn (stop_service web) (on_shut_down_signal with_web).stopped
on_shut_down_signal-stop_service_example =
    on_shut_down_signal-stop_service (ascii "web.ns.ctx") web with_web registered
