-- ===== src/Fwdservice/Forwards.antt =====
-- The forwards of a service: `LoopPodsToForward`, `AddServicePod`, `RemoveServicePod`,
-- `removeOwnForward` and `stopAllPortForwards` of pkg/fwdservice/fwdservice.go. The goroutine of a
-- forward is two later steps: `start` registers it, and `exit` unregisters it.
pub mod Laws
pub mod Launch
pub mod Replaced
use kubefwd.Base.{
  ℕ, ◌+◌, ◌++◌, List, [], ◌∷◌, map, Option, none, some, Bool, true, false, Text, text_key, nat_key,
  ◌==◌, Dict, lookup, insert, erase, values, if◌then◌else◌,
}
use kubefwd.Fwdip.Types.{Ip}
use kubefwd.Fwdservice.Types.{
  Protocol, tcp, udp, sctp, ServicePort, Pod, PortForwardOpts, ServiceFwd,
}
use kubefwd.Fwdservice.Ports.{current_ports, get_port_map, parses_as_int32, resolve_port}

-- The key of a forward: service, pod and local port.
unfoldable pub forward_key : Text → Text → Text → Text
forward_key service pod_name local_port = service ++ b'.' ∷ (pod_name ++ b'.' ∷ local_port)

abbrev pub key_of : PortForwardOpts → Text
key_of pfo = forward_key pfo.service pfo.pod_name pfo.local_port

-- `AddServicePod`: the state, and whether the forward is new.
unfoldable pub add_service_pod : PortForwardOpts → ServiceFwd → ServiceFwd × Bool
add_service_pod pfo s = elim (lookup (key_of pfo) s.port_forwards) [
  | some other ↦ (s, false)
  | none ↦ (record s { port_forwards = insert (key_of pfo) pfo s.port_forwards }, true)
]

-- `removeOwnForward`: the entry goes only if it is this very forward.
unfoldable pub remove_own_forward : PortForwardOpts → ServiceFwd → ServiceFwd
remove_own_forward pfo s = elim (lookup (key_of pfo) s.port_forwards) [
  | none ↦ s
  | some current ↦
      if current.identity == pfo.identity
      then record s { port_forwards = erase (key_of pfo) s.port_forwards }
      else s
]

-- `RemoveServicePod`, at the end of its wait for the forward that it stops.
unfoldable pub remove_service_pod : Text → ServiceFwd → ServiceFwd
remove_service_pod key s = elim (lookup key s.port_forwards) [
  | none ↦ s
  | some pfo ↦ record s { port_forwards = erase key s.port_forwards; stopped = pfo ∷ s.stopped }
]

unfoldable pub stop_each : List PortForwardOpts → List PortForwardOpts → List PortForwardOpts
stop_each [] stopped = stopped
stop_each (pfo ∷ rest) stopped = stop_each rest (pfo ∷ stopped)

-- `stopAllPortForwards`: the map is emptied at once, and every forward is told to stop.
unfoldable pub stop_all_port_forwards : ServiceFwd → ServiceFwd
stop_all_port_forwards s = record s {
  port_forwards = [];
  stopped = stop_each (values s.port_forwards) s.stopped;
}

-- The name that a forward of the pod goes by.
unfoldable pub forward_name : ServiceFwd → Pod → Bool → Text
forward_name s pod include_pod_name = if include_pod_name then pod.name ++ b'.' ∷ s.name else s.name

abbrev pub is_udp : Protocol → Bool
is_udp udp = true
is_udp tcp = false
is_udp sctp = false

-- The parameter is the address that `fwdnet.ReadyInterface` gives the pod under a name, `none` where
-- it fails: the forward is started all the same.
module _ (local_ip : Text → Pod → Option Ip) where
  unfoldable pub new_forward : ServiceFwd → Pod → Text → ServicePort → PortForwardOpts
  new_forward s pod service port = record {
    identity = s.next_identity;
    service = service;
    namespace = pod.namespace;
    pod_name = pod.name;
    pod_port = (resolve_port port.target_port pod.containers).0;
    container_name = (resolve_port port.target_port pod.containers).1;
    local_ip = local_ip service pod;
    local_port = get_port_map s port.port;
  }

  unfoldable pub launch : PortForwardOpts → ServiceFwd → ServiceFwd
  launch pfo s = record s { launched = s.launched ++ pfo ∷ []; next_identity = s.next_identity + 1 }

  -- One round of the inner loop of `LoopPodsToForward`: UDP, a local port that is no number and a
  -- forward that exists are passed over.
  unfoldable pub forward_port : Pod → Text → ServicePort → ServiceFwd → ServiceFwd
  unfolding new_forward launch
  forward_port pod service port s =
      if is_udp port.protocol
      then s
      else if parses_as_int32 (get_port_map s port.port)
      then elim (lookup (forward_key service pod.name (get_port_map s port.port)) s.port_forwards) [
        | some exists ↦ s
        | none ↦ launch (new_forward s pod service port) s
      ]
      else s

  -- The inner loop, over the ports of the service.
  unfoldable pub loop_ports : Pod → Text → List ServicePort → ServiceFwd → ServiceFwd
  loop_ports pod service [] s = s
  loop_ports pod service (port ∷ rest) s =
      loop_ports pod service rest (forward_port pod service port s)

  -- `LoopPodsToForward`
  unfoldable pub loop_pods_to_forward : List Pod → Bool → ServiceFwd → ServiceFwd
  unfolding forward_name loop_ports
  loop_pods_to_forward [] include_pod_name s = s
  loop_pods_to_forward (pod ∷ rest) include_pod_name s =
      loop_pods_to_forward rest include_pod_name
        (loop_ports pod (forward_name s pod include_pod_name) (current_ports s) s)

-- The goroutines that have been started register their forwards, each one once; a duplicate ends.
unfoldable pub start_each : List PortForwardOpts → ServiceFwd → ServiceFwd
start_each [] s = s
start_each (pfo ∷ rest) s = start_each rest (add_service_pod pfo s).0

unfoldable pub start_launched : ServiceFwd → ServiceFwd
start_launched s = start_each s.launched (record s { launched = [] })
