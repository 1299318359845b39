-- ===== src/Fwdservice/Types.antt =====
-- The state of `ServiceFWD` of pkg/fwdservice/fwdservice.go, and what it reads of the cluster.
use kubefwd.Base.{ℕ, Bool, List, Option, Text, Dict}
use kubefwd.Fwdip.Types.{Ip}

-- `v1.Protocol`
pub data Protocol : Type 0 where
  tcp udp sctp : Protocol

-- `v1.ServicePort`; the target port is its text, a number or a name.
pub record ServicePort : Type 0 where
  pub protocol : Protocol
  pub port : ℕ
  pub target_port : Text

-- `v1.ContainerPort`
pub record ContainerPort : Type 0 where
  pub name : Text
  pub container_port : ℕ

-- `v1.Container`
pub record Container : Type 0 where
  pub name : Text
  pub ports : List ContainerPort

-- `v1.PodPhase`
pub data PodPhase : Type 0 where
  pending running succeeded failed unknown : PodPhase

-- `v1.Pod`: its containers, their readiness, and whether it is marked for deletion.
pub record Pod : Type 0 where
  pub name : Text
  pub namespace : Text
  pub phase : PodPhase
  pub deleting : Bool
  pub ready : List Bool
  pub containers : List Container

pub record PortMap : Type 0 where
  pub source_port : Text
  pub target_port : Text

-- `fwdport.PortForwardOpts`, as far as this file sets and reads it; `identity` stands for the pointer.
pub record PortForwardOpts : Type 0 where
  pub identity : ℕ
  pub service : Text
  pub namespace : Text
  pub pod_name : Text
  pub pod_port : Text
  pub container_name : Text
  pub local_ip : Option Ip
  pub local_port : Text

-- What is read of a `v1.ServiceSpec`: its ports, and whether its cluster address is "None".
pub record ServiceSpec : Type 0 where
  pub ports : List ServicePort
  pub cluster_ip_none : Bool

-- `ServiceFWD`. `launched` holds the forwards whose goroutine has been started and has not registered
-- yet, `stopped` those that were told to stop, `retries` counts the retries that are scheduled.
pub record ServiceFwd : Type 0 where
  pub name : Text
  pub namespace : Text
  pub cluster : Text
  pub cluster_n : ℕ
  pub namespace_n : ℕ
  pub spec : ServiceSpec
  pub headless : Bool
  pub updated_spec : Option ServiceSpec
  pub port_map : Option (List PortMap)
  pub retry_interval : ℕ
  pub no_pods_logged : Bool
  pub last_synced_at : ℕ
  pub retries : ℕ
  pub port_forwards : Dict Text PortForwardOpts
  pub launched : List PortForwardOpts
  pub stopped : List PortForwardOpts
  pub next_identity : ℕ
