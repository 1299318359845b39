-- ===== src/Fwdip/Config.antt =====
-- The forward configuration of pkg/fwdip/fwdIp.go: reservations of the command line, validation, and
-- the configuration that is kept. `log.Fatal` and `panic` end the process.
pub mod Laws
use kubefwd.Base.{
  ◌≡◌, Bool, true, false, ◌||◌, List, [], ◌∷◌, ◌++◌, Option, none, some, Text, ascii, contains, cut,
  nat_beq, text_key, ◌==◌, if◌then◌else◌,
}
use kubefwd.Fwdip.Types.{ForwardIpOpts, Ip, ServiceConfiguration, ForwardConfiguration}
use kubefwd.Fwdip.Octets.{ip_from_string, ok, err, Parsed}
use kubefwd.Fwdip.Matching.{matches, matches_name}

-- `none` is the end of the process.
infixl 5 ◌>>=◌
abbrev pub ◌>>=◌ {ℓ κ} : {A : Type ℓ} {B : Type κ} → Option A → (A → Option B) → Option B
none >>= f = none
some a >>= f = f a

-- `IP.IsLoopback` on four bytes.
abbrev pub is_loopback : Ip → Bool
is_loopback i = nat_beq i.octet_a 127

abbrev pub parses_to_loopback : Text → Bool
parses_to_loopback s = elim (ip_from_string s) [ err e ↦ false | ok i ↦ is_loopback i ]

-- `blockNonLoopbackIPs`, true where it returns.
unfoldable pub all_loopback : List ServiceConfiguration → Bool
all_loopback [] = true
all_loopback (conf ∷ rest) =
    let later = all_loopback rest in if parses_to_loopback conf.ip then later else false

unfoldable pub block_non_loopback_ips : ForwardConfiguration → Bool
unfolding all_loopback
block_non_loopback_ips f =
    if parses_to_loopback f.base_unreserved_ip then all_loopback f.service_configurations else false

-- `notifyOfDuplicateIPReservations`: the loop over the services, with the addresses seen so far.
unfoldable pub no_duplicates : List Text → List ServiceConfiguration → Bool
no_duplicates seen [] = true
no_duplicates seen (conf ∷ rest) =
    let later = no_duplicates (conf.ip ∷ seen) rest in
    if contains conf.ip seen then false else later

unfoldable pub notify_of_duplicate_ip_reservations : ForwardConfiguration → Bool
notify_of_duplicate_ip_reservations f = no_duplicates [] f.service_configurations

-- `validateForwardConfiguration`
unfoldable pub validate_forward_configuration : ForwardConfiguration → Option ForwardConfiguration
validate_forward_configuration f =
    if block_non_loopback_ips f
    then (if notify_of_duplicate_ip_reservations f then some f else none)
    else none

abbrev pub is_empty : Text → Bool
is_empty [] = true
is_empty (c ∷ s) = false

-- `ServiceConfigurationFromReservation`
unfoldable pub service_configuration_from_reservation : Text → Option ServiceConfiguration
service_configuration_from_reservation s = elim (cut b':' s) [
  | none ↦ none
  | some (name, ip) ↦
      if is_empty name || is_empty ip then none else some (record { name = name; ip = ip })
]

-- The loop over the services: the changed list, and `overridden`.
unfoldable pub override :
    ServiceConfiguration → List ServiceConfiguration → List ServiceConfiguration × Bool
override res [] = ([], false)
override res (conf ∷ rest) =
    let (rest', found) = override res rest in
    if matches_name conf res
    then (record conf { ip = res.ip } ∷ rest', true)
    else (conf ∷ rest', found)

unfoldable pub apply_reservation :
    ServiceConfiguration → List ServiceConfiguration → List ServiceConfiguration
apply_reservation res confs =
    let (confs', overridden) = override res confs in
    if overridden then confs' else confs' ++ res ∷ []

-- The loop of `applyCLIPassedReservations`; a malformed reservation is skipped.
unfoldable pub apply_reservations :
    List Text → List ServiceConfiguration → List ServiceConfiguration
apply_reservations [] confs = confs
apply_reservations (s ∷ rest) confs = elim (service_configuration_from_reservation s) [
  | none ↦ apply_reservations rest confs
  | some res ↦ apply_reservations rest (apply_reservation res confs)
]

-- `applyCLIPassedReservations`
unfoldable pub apply_cli_passed_reservations :
    ForwardIpOpts → ForwardConfiguration → Option ForwardConfiguration
apply_cli_passed_reservations o f = validate_forward_configuration (record f {
  service_configurations = apply_reservations o.forward_ip_reservations f.service_configurations;
})

-- The two global pointers. They may name one object: a change through the first shows in the second.
pub record Configurations : Type 0 where
  pub forward_configuration : Option ForwardConfiguration
  pub default_configuration : ForwardConfiguration

abbrev pub default_base_unreserved_ip : Text
default_base_unreserved_ip = ascii "127.1.27.1"

abbrev pub initial_configurations : Configurations
initial_configurations = record {
  forward_configuration = none;
  default_configuration = record {
    base_unreserved_ip = default_base_unreserved_ip;
    service_configurations = [];
  };
}

-- The parameter reads and decodes the configuration file; `none` is an error of either.
module _ (read_file : Text → Option ForwardConfiguration) where
  from_default : ForwardIpOpts → Configurations → Option (ForwardConfiguration × Configurations)
  from_default o g = do
    f ← apply_cli_passed_reservations o g.default_configuration
    some (f, record g { forward_configuration = some f; default_configuration = f })

  from_file :
      ForwardConfiguration
      → ForwardIpOpts
      → Configurations
      → Option (ForwardConfiguration × Configurations)
  from_file conf o g = do
    f ← apply_cli_passed_reservations o conf
    some (f, record g { forward_configuration = some f })

  -- `getForwardConfiguration`
  unfoldable pub get_forward_configuration :
      ForwardIpOpts → Configurations → Option (ForwardConfiguration × Configurations)
  unfolding from_default from_file
  get_forward_configuration o g = elim g.forward_configuration [
    | some f ↦ some (f, g)
    | none ↦
        if is_empty o.forward_configuration_path
        then from_default o g
        else elim (read_file o.forward_configuration_path) [
          | none ↦ from_default o g
          | some conf ↦ from_file conf o g
        ]
  ]

-- `getConfigurationForService`
unfoldable pub get_configuration_for_service :
    ForwardIpOpts → List ServiceConfiguration → Option ServiceConfiguration
get_configuration_for_service o [] = none
get_configuration_for_service o (conf ∷ rest) =
    let later = get_configuration_for_service o rest in if matches conf o then some conf else later

-- `hasConflictingReservations`, the reservation that stands in the way.
unfoldable pub has_conflicting_reservations :
    ForwardIpOpts → Text → List ServiceConfiguration → Option ServiceConfiguration
has_conflicting_reservations o want [] = none
has_conflicting_reservations o want (conf ∷ rest) =
    let later = has_conflicting_reservations o want rest in
    if want == conf.ip then (if matches conf o then later else some conf) else later
