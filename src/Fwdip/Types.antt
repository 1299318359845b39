-- ===== src/Fwdip/Types.antt =====
-- The types of pkg/fwdip/fwdIp.go. The indices of clusters and namespaces count from 0.
use kubefwd.Base.{ℕ, List, Text, Dict}

-- `ForwardIPOpts`
pub record ForwardIpOpts : Type 0 where
  pub service_name : Text
  pub pod_name : Text
  pub cluster : Text
  pub cluster_n : ℕ
  pub namespace_n : ℕ
  pub namespace : Text
  pub port : Text
  pub forward_configuration_path : Text
  pub forward_ip_reservations : List Text

-- A `net.IP` of four bytes.
pub record Ip : Type 0 where
  pub octet_a : ℕ
  pub octet_b : ℕ
  pub octet_c : ℕ
  pub octet_d : ℕ

-- The global registry; its mutex makes each call of `GetIP` one step.
pub record Registry : Type 0 where
  pub inc : Dict ℕ (Dict ℕ ℕ)
  pub reg : Dict Text Ip
  pub allocated : List Text
  pub hostnames : List Text

pub record ServiceConfiguration : Type 0 where
  pub name : Text
  pub ip : Text

pub record ForwardConfiguration : Type 0 where
  pub base_unreserved_ip : Text
  pub service_configurations : List ServiceConfiguration
