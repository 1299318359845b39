-- ===== src/Fwdservice/Ports.antt =====
-- Ports and names of pkg/fwdservice/fwdservice.go: port maps, container ports, host names.
use kubefwd.Base.{
  ℕ, ◌-◌, ◌^◌, ◌++◌, List, [], ◌∷◌, Option, none, some, Bool, true, false, Text, text_key, nat_key,
  ◌==◌, ℤ, pos, negsuc, atoi, itoa, ltb, if◌then◌else◌,
}
use kubefwd.Fwdservice.Types.{Container, ContainerPort, PortMap, ServiceFwd, ServicePort}

-- `currentPorts`
unfoldable pub current_ports : ServiceFwd → List ServicePort
current_ports s = elim s.updated_spec [ none ↦ s.spec.ports | some spec ↦ spec.ports ]

-- `isHeadless`
unfoldable pub is_headless : ServiceFwd → Bool
is_headless s = elim s.updated_spec [ none ↦ s.headless | some spec ↦ spec.cluster_ip_none ]

-- `String`
unfoldable pub service_string : ServiceFwd → Text
service_string s = s.name ++ b'.' ∷ (s.namespace ++ b'.' ∷ s.cluster)

-- `buildServiceHostname`
unfoldable pub build_service_hostname : Text → Text → Text → ℕ → ℕ → Text
build_service_hostname base namespace ctx namespace_n cluster_n =
    let named = if ltb 0 namespace_n then base ++ b'.' ∷ namespace else base in
    if ltb 0 cluster_n then named ++ b'.' ∷ ctx else named

-- The loop of `getPortMap`.
unfoldable pub mapped_port : Text → List PortMap → Text
mapped_port p [] = p
mapped_port p (m ∷ rest) =
    let later = mapped_port p rest in if p == m.source_port then m.target_port else later

-- `getPortMap`
unfoldable pub get_port_map : ServiceFwd → ℕ → Text
unfolding mapped_port
get_port_map s port = elim s.port_map [ none ↦ itoa port | some ms ↦ mapped_port (itoa port) ms ]

-- `strconv.ParseInt(text, 10, 32)` returns no error.
unfoldable pub parses_as_int32 : Text → Bool
parses_as_int32 t = elim (atoi t) [
  | none ↦ false
  | some (pos n) ↦ ltb n (2 ^ 31)
  | some (negsuc n) ↦ ltb n (2 ^ 31)
]

-- The named port of a container.
unfoldable pub named_port : Text → List ContainerPort → Option Text
named_port name [] = none
named_port name (p ∷ rest) =
    let later = named_port name rest in
    if p.name == name then some (itoa p.container_port) else later

-- `portSearch`: the port's number and its container.
unfoldable pub port_search : Text → List Container → Option (Text × Text)
unfolding named_port
port_search name [] = none
port_search name (c ∷ rest) = elim (named_port name c.ports) [
  | some p ↦ some (p, c.name)
  | none ↦ port_search name rest
]

unfoldable pub has_port : ℕ → List ContainerPort → Bool
has_port port [] = false
has_port port (p ∷ rest) =
    let later = has_port port rest in if p.container_port == port then true else later

-- The loop of `findContainerForPort`.
unfoldable pub owner : ℕ → List Container → Option Text
unfolding has_port
owner port [] = none
owner port (c ∷ rest) =
    let later = owner port rest in if has_port port c.ports then some c.name else later

-- `findContainerForPort`: the owner, or else the first container.
unfoldable pub find_container_for_port : ℤ → List Container → Text
unfolding owner
find_container_for_port port [] = []
find_container_for_port (negsuc n) (c ∷ rest) = c.name
find_container_for_port (pos n) (c ∷ rest) = elim (owner n (c ∷ rest)) [
  | some name ↦ name
  | none ↦ c.name
]

-- The value of `strconv.ParseInt(text, 10, 32)` where `strconv.Atoi` reads the text: out of range it is
-- the nearest bound.
abbrev pub clamp_int32 : ℤ → ℤ
clamp_int32 (pos n) = pos (if ltb n (2 ^ 31) then n else 2 ^ 31 - 1)
clamp_int32 (negsuc n) = negsuc (if ltb n (2 ^ 31) then n else 2 ^ 31 - 1)

-- The port number and the container of a target port.
unfoldable pub resolve_port : Text → List Container → Text × Text
resolve_port target containers = elim (atoi target) [
  | none ↦ elim (port_search target containers) [ none ↦ (target, []) | some found ↦ found ]
  | some n ↦ (target, find_container_for_port (clamp_int32 n) containers)
]
