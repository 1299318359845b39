-- ===== src/Fwdservice/Tests.antt =====
-- A service with two pods on small inputs, and the theorems at inputs that meet their hypotheses.
use kubefwd.Base.{
  values, text_key, ◌≡◌, refl, List, [], ◌∷◌, Option, none, some, true, false, Text, ascii, lookup,
  insert, erase, itoa, atoi, arith,
}
use kubefwd.Fwdip.Types.{Ip}
use kubefwd.Fwdservice.Types.{
  tcp, udp, ServicePort, Container, running, Pod, PortForwardOpts, ServiceFwd,
}
use kubefwd.Fwdservice.Ports.{
  current_ports, is_headless, get_port_map, parses_as_int32, resolve_port, find_container_for_port,
  port_search, owner, has_port, named_port, mapped_port,
}
use kubefwd.Fwdservice.Forwards.{
  forward_key, key_of, add_service_pod, remove_own_forward, stop_all_port_forwards, start_launched,
  start_each, loop_pods_to_forward, loop_ports, forward_port, forward_name, launch, new_forward,
  stop_each, remove_service_pod,
}
use kubefwd.Fwdservice.Forwards.Replaced.{
  ForwardEvent, registers, exits, removes, apply_events, remove_own_forward-replacement,
}
use kubefwd.Ring.Filtered.{select}
use kubefwd.Fwdservice.Sync.{
  get_pods_for_service, is_pod_ready, is_pod_eligible, pod_still_eligible, get_forward_infos,
  remove_unless, remove_stale_forwards, first_eligible, find_pod_name_to_keep, find_pod,
  forward_kept, sync_normal_service, sync_headless_service, sync_found, do_sync_pods,
}
use kubefwd.Fwdservice.Sync.Launched.{SettledOnOnePod}
use kubefwd.Fwdservice.Sync.Removal.{AllForwards}
use kubefwd.Fwdservice.Sync.Normal.{do_sync_pods-SettledOnOnePod}
use kubefwd.Fwdservice.Sync.Renewal.{IsSince, do_sync_pods-stop_all_port_forwards}
use kubefwd.Fwdservice.Reconnect.{
  Reconnection, waiting, schedule_reconnect, reset_reconnect_backoff, force_reconnect,
}
use kubefwd.Fwdservice.Reconnect.Backoff.{failures, failures-reset_reconnect_backoff}
use kubefwd.Fwdservice.Reconnect.Attempts.{
  here, and_then, failed, IsGuarded, Steps-IsGuarded, schedule_reconnect-force_reconnect,
}

abbrev http : ServicePort
http = record { protocol = tcp; port = 80; target_port = ascii "web" }

abbrev dns : ServicePort
dns = record { protocol = udp; port = 53; target_port = ascii "53" }

abbrev nginx : Container
nginx = record {
  name = ascii "nginx";
  ports = record { name = ascii "web"; container_port = 8080 } ∷ [];
}

abbrev first_pod : Pod
first_pod = record {
  name = ascii "api-0";
  namespace = ascii "ns";
  phase = running;
  deleting = true;
  ready = true ∷ [];
  containers = nginx ∷ [];
}

abbrev second_pod : Pod
second_pod = record first_pod { name = ascii "api-1"; deleting = false }

-- The forward that is registered is one of the pod that is being deleted.
abbrev old_forward : PortForwardOpts
old_forward = record {
  identity = 0;
  service = ascii "api";
  namespace = ascii "ns";
  pod_name = ascii "api-0";
  pod_port = ascii "8080";
  container_name = ascii "nginx";
  local_ip = none;
  local_port = ascii "80";
}

abbrev new_forward_of_api_1 : PortForwardOpts
new_forward_of_api_1 = record old_forward {
  identity = 1;
  pod_name = ascii "api-1";
  pod_port = ascii "web";
}

abbrev api : ServiceFwd
api = record {
  name = ascii "api";
  namespace = ascii "ns";
  cluster = ascii "ctx";
  cluster_n = 0;
  namespace_n = 0;
  spec = record { ports = http ∷ dns ∷ []; cluster_ip_none = false };
  headless = false;
  updated_spec = none;
  port_map = none;
  retry_interval = 0;
  no_pods_logged = false;
  last_synced_at = 0;
  retries = 0;
  port_forwards = (ascii "api.api-0.80", old_forward) ∷ [];
  launched = [];
  stopped = [];
  next_identity = 1;
}

abbrev no_ip : Text → Pod → Option Ip
no_ip service pod = none

evaluation : Unit {0}
unfolding current_ports is_headless get_port_map parses_as_int32 resolve_port port_search owner
    has_port named_port mapped_port find_container_for_port forward_key add_service_pod
    remove_own_forward stop_all_port_forwards start_launched start_each loop_pods_to_forward
    loop_ports forward_port forward_name launch new_forward stop_each values remove_service_pod
    get_pods_for_service is_pod_ready is_pod_eligible pod_still_eligible get_forward_infos
    remove_unless remove_stale_forwards first_eligible find_pod_name_to_keep find_pod forward_kept
    sync_normal_service sync_headless_service sync_found do_sync_pods select lookup insert erase
    itoa atoi
evaluation = tt

-- The pod that is being deleted is replaced, the named port is looked up, and UDP is passed over.
replaced :
    (start_launched (do_sync_pods no_ip (some (first_pod ∷ second_pod ∷ [])) 9 api)).port_forwards
    ≡ (ascii "api.api-1.80", record new_forward_of_api_1 { pod_port = ascii "8080" }) ∷ []
unfolding evaluation
replaced = refl

abbrev listed : Option (List Pod)
listed = some (first_pod ∷ second_pod ∷ [])

do_sync_pods-SettledOnOnePod_example :
    SettledOnOnePod (second_pod ∷ []) api (start_launched (do_sync_pods no_ip listed 9 api))
unfolding get_pods_for_service select is_pod_ready is_headless
do_sync_pods-SettledOnOnePod_example =
    do_sync_pods-SettledOnOnePod no_ip listed 9 api second_pod [] refl refl (refl, tt) refl

do_sync_pods-stop_all_port_forwards_example :
    AllForwards
      (IsSince 1)
      (start_launched (do_sync_pods no_ip listed 9 (stop_all_port_forwards api)))
do_sync_pods-stop_all_port_forwards_example =
    do_sync_pods-stop_all_port_forwards no_ip listed 9 api refl

abbrev replacement : PortForwardOpts
replacement = record old_forward { identity = 7 }

-- A second forward of the old ones ends before the replacement registers, the first one after it.
abbrev earlier : List ForwardEvent
earlier = exits (record old_forward { identity = 5 }) ∷ removes (key_of replacement) ∷ []

abbrev later : List ForwardEvent
later = exits old_forward ∷ registers old_forward ∷ []

remove_own_forward-replacement_example :
    lookup
      (key_of replacement)
      (apply_events later
        (add_service_pod replacement
          (apply_events earlier (stop_all_port_forwards api))).0).port_forwards
    ≡ some replacement
remove_own_forward-replacement_example =
    remove_own_forward-replacement replacement earlier later api (tt, (tt, tt))
      ((λ e. omega arith), (tt, tt))

abbrev failing : Reconnection
failing = record {
  auto_reconnect = true;
  backoff = 8;
  reconnecting = false;
  done = false;
  attempts = [];
  service = api;
}

failures-reset_reconnect_backoff_example :
    (schedule_reconnect (failures 9 (reset_reconnect_backoff failing))).0.attempts
    ≡ waiting 300 ∷ []
failures-reset_reconnect_backoff_example =
    failures-reset_reconnect_backoff 9 failing refl refl refl refl

abbrev twice_failed : Reconnection
twice_failed = (schedule_reconnect (schedule_reconnect failing).0).0

Steps-IsGuarded_example : IsGuarded twice_failed
Steps-IsGuarded_example = Steps-IsGuarded no_ip failing twice_failed refl refl (
    and_then failing (schedule_reconnect failing).0 twice_failed
      (and_then failing failing (schedule_reconnect failing).0 (here failing) (failed failing))
      (failed (schedule_reconnect failing).0))

abbrev asleep : Reconnection
asleep = record failing { reconnecting = true; attempts = waiting 64 ∷ [] }

schedule_reconnect-force_reconnect_example :
    (schedule_reconnect (force_reconnect no_ip listed 9 asleep)).0.attempts
    ≡ waiting 64 ∷ waiting 1 ∷ []
schedule_reconnect-force_reconnect_example =
    schedule_reconnect-force_reconnect no_ip listed 9 asleep refl refl
