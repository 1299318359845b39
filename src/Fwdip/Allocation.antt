-- ===== src/Fwdip/Allocation.antt =====
-- `GetIP`, `determineIP` and `addToRegistry` of pkg/fwdip/fwdIp.go. Each call of `GetIP` holds the
-- registry's mutex from its start to its end, so calls are steps that follow one another.
pub mod Counter
pub mod Search
pub mod Grants
pub mod Distinct
pub mod Kept
pub mod History
use kubefwd.Base.{
  ℕ, zero, suc, ◌+◌, ◌%◌, Bool, true, false, ◌||◌, List, [], ◌∷◌, ◌++◌, Option, none, some, Text,
  Dict, lookup, insert, contains, itoa, ltb, text_key, nat_key, if◌then◌else◌,
}
use kubefwd.Fwdip.Types.{ForwardIpOpts, Ip, Registry, ServiceConfiguration, ForwardConfiguration}
use kubefwd.Fwdip.Octets.{ip_string, ip_from_string, ok, err}
use kubefwd.Fwdip.Config.{
  get_forward_configuration, get_configuration_for_service, has_conflicting_reservations,
  Configurations,
}

-- `init`
abbrev pub initial_registry : Registry
initial_registry = record { inc = (0, (0, 0) ∷ []) ∷ []; reg = []; allocated = []; hostnames = [] }

-- `fmt.Sprintf("%d-%d-%s-%s", …)`
unfoldable pub reg_key : ForwardIpOpts → Text
reg_key o =
    itoa o.cluster_n ++ b'-' ∷ (itoa o.namespace_n ++ b'-' ∷ (o.service_name ++ b'-' ∷ o.pod_name))

-- `RegisterHostname`
unfoldable pub register_hostname : Text → Registry → Registry
register_hostname h r = record r { hostnames = r.hostnames ++ h ∷ [] }

-- The entry that `addToRegistry` makes.
abbrev pub enter : Text → Ip → Registry → Registry
enter key ip r = record r { reg = insert key ip r.reg; allocated = ip_string ip ∷ r.allocated }

abbrev pub is_some {ℓ} : {A : Type ℓ} → Option A → Bool
is_some none = false
is_some (some a) = true

-- The address is allocated or reserved for another service: `addToRegistry` returns an error.
unfoldable pub taken : List ServiceConfiguration → ForwardIpOpts → Ip → List Text → Bool
taken confs o ip allocated =
    contains (ip_string ip) allocated
    || is_some (has_conflicting_reservations o (ip_string ip) confs)

-- `addToRegistry`; `none` is its error.
unfoldable pub add_to_registry :
    List ServiceConfiguration → Text → ForwardIpOpts → Ip → Registry → Option Registry
unfolding taken
add_to_registry confs key o ip r =
    if taken confs o ip r.allocated then none else some (enter key ip r)

-- `ipRegistry.inc[opts.ClusterN][opts.NamespaceN]`; a missing entry reads as 0.
abbrev pub or_zero : Option ℕ → ℕ
or_zero none = 0
or_zero (some k) = k

abbrev pub or_empty : Option (Dict ℕ ℕ) → Dict ℕ ℕ
or_empty none = []
or_empty (some m) = m

unfoldable pub offset : ForwardIpOpts → Registry → ℕ
offset o r = or_zero (lookup o.namespace_n (or_empty (lookup o.cluster_n r.inc)))

-- `if ipRegistry.inc[opts.ClusterN] == nil { … }`
unfoldable pub start_cluster : ForwardIpOpts → Registry → Registry
start_cluster o r = elim (lookup o.cluster_n r.inc) [
  | none ↦ record r { inc = insert o.cluster_n ((0, 0) ∷ []) r.inc }
  | some m ↦ r
]

-- `ipRegistry.inc[opts.ClusterN][opts.NamespaceN]++`
unfoldable pub increment : ForwardIpOpts → Registry → Registry
increment o r = record r {
  inc =
      insert o.cluster_n
        (insert o.namespace_n (offset o r + 1) (or_empty (lookup o.cluster_n r.inc))) r.inc;
}

-- `octet += byte(n)`
abbrev pub add_byte : ℕ → ℕ → ℕ
add_byte octet n = (octet + n % 256) % 256

unfoldable pub nth_ip : Ip → ForwardIpOpts → ℕ → Ip
nth_ip base o k = record base {
  octet_b = add_byte base.octet_b o.cluster_n;
  octet_c = add_byte base.octet_c o.namespace_n;
  octet_d = add_byte base.octet_d k;
}

-- What `determineIP` returns: an address or `ErrIPBoundsExceeded`.
pub data Determined : Type 0 where
  got : Ip → Determined
  ip_bounds_exceeded : Determined

-- The reservation of the service, if it has one and its address can be had.
unfoldable pub place_reserved :
    List ServiceConfiguration → Text → ForwardIpOpts → Registry → Option (Ip × Registry)
place_reserved confs key o r = elim (get_configuration_for_service o confs) [
  | none ↦ none
  | some conf ↦ elim (ip_from_string conf.ip) [
    | err e ↦ none
    | ok ip ↦ elim (add_to_registry confs key o ip r) [ none ↦ none | some r' ↦ some (ip, r') ]
  ]
]

unfoldable pub out_of_bounds : ForwardIpOpts → Registry → Bool
out_of_bounds o r = ltb 255 o.cluster_n || ltb 255 o.namespace_n || ltb 255 (offset o r)

-- `determineIP` after `getBaseUnreservedIP`, which reads the same base in every round. Each round
-- takes fuel; `none` is the end of the fuel.
unfoldable pub determine_ip :
    ℕ
    → List ServiceConfiguration
    → Ip
    → Text
    → ForwardIpOpts
    → Registry
    → Option (Determined × Registry)
determine_ip zero confs base key o r = none
determine_ip (suc fuel) confs base key o r = elim (place_reserved confs key o r) [
  | some (ip, r') ↦ some (got ip, r')
  | none ↦
      let r1 = start_cluster o r in
      elim (out_of_bounds o r1) [
        | true ↦ some (ip_bounds_exceeded, r1)
        | false ↦
            let ip = nth_ip base o (offset o r1) in
            let r2 = increment o r1 in
            elim (add_to_registry confs key o ip r2) [
              | some r3 ↦ some (got ip, r3)
              | none ↦ determine_ip fuel confs base key o r2
            ]
      ]
]

-- More rounds than there are offsets.
abbrev pub enough_fuel : ℕ
enough_fuel = 257

-- How `GetIP` ends: it returns, or the process ends in `log.Fatal` or a panic.
pub data Outcome : Type 0 where
  returned : Determined → Registry → Configurations → Outcome
  process_exits : Outcome
  out_of_fuel : Outcome

-- The configuration is read for the base and for the reservations; it is kept by the first reading.
unfoldable pub determine :
    Text → ForwardIpOpts → Registry → ForwardConfiguration → Configurations → Outcome
determine key o r f g = elim (ip_from_string f.base_unreserved_ip) [
  | err e ↦ process_exits
  | ok base ↦ elim (determine_ip enough_fuel f.service_configurations base key o r) [
    | none ↦ out_of_fuel
    | some (d, r') ↦ returned d r' g
  ]
]

-- `GetIP`
module _ (read_file : Text → Option ForwardConfiguration) where
  unfoldable pub get_ip : ForwardIpOpts → Registry → Configurations → Outcome
  unfolding determine
  get_ip o r g = elim (lookup (reg_key o) r.reg) [
    | some ip ↦ returned (got ip) r g
    | none ↦ elim (get_forward_configuration read_file o g) [
      | none ↦ process_exits
      | some (f, g') ↦ determine (reg_key o) o r f g'
    ]
  ]
