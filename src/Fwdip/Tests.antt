-- ===== src/Fwdip/Tests.antt =====
-- The code on small inputs, and the theorems at inputs that meet their hypotheses.
use kubefwd.Base.{
  ◌≡◌, refl, [], ◌∷◌, Option, none, some, true, Text, ascii, All, arith, lookup, insert, itoa, atoi,
  split, cut, contains,
}
use kubefwd.Fwdip.Types.{ForwardIpOpts, Ip, Registry, ServiceConfiguration, ForwardConfiguration}
use kubefwd.Fwdip.Octets.{ip_string, ip_from_string, ok}
use kubefwd.Fwdip.Octets.RoundTrip.{ip_from_string-ip_string}
use kubefwd.Fwdip.Matching.{matches, match_list}
use kubefwd.Fwdip.Matching.Scope.{matches-nearer}
use kubefwd.Fwdip.Config.{
  Configurations, initial_configurations, get_forward_configuration, apply_reservations,
  has_conflicting_reservations, get_configuration_for_service, validate_forward_configuration,
  apply_cli_passed_reservations, block_non_loopback_ips, service_configuration_from_reservation,
  apply_reservation, override, notify_of_duplicate_ip_reservations, no_duplicates,
}
use kubefwd.Fwdip.Config.Laws.{
  KeepsValidated, IsValidated, get_forward_configuration-again, reserved_ip, requested_ip, or_else,
  reserved_ip-apply_reservations,
}
use kubefwd.Fwdip.Allocation.{
  Determined, got, determine_ip, get_ip, returned, initial_registry, reg_key, enough_fuel, offset,
  place_reserved, add_to_registry, start_cluster, increment, out_of_bounds, nth_ip,
}
use kubefwd.Fwdip.Allocation.Search.{Settled, determine_ip-Settled}
use kubefwd.Fwdip.Allocation.Grants.{IsFree, determine_ip-IsFree, get_ip_shared}
use kubefwd.Fwdip.Allocation.History.{answers, OneAddressForOneKey, get_ips-OneAddressForOneKey}

abbrev base_ip : Ip
base_ip = record { octet_a = 127; octet_b = 1; octet_c = 27; octet_d = 1 }

-- The first pod of a service of the first namespace of the first cluster.
abbrev web : ForwardIpOpts
web = record {
  service_name = ascii "web";
  pod_name = ascii "api-0";
  cluster = ascii "ctx";
  cluster_n = 0;
  namespace_n = 0;
  namespace = ascii "ns";
  port = [];
  forward_configuration_path = [];
  forward_ip_reservations = ascii "db:127.1.27.1" ∷ [];
}

abbrev no_file : Text → Option ForwardConfiguration
no_file path = none

printed : ip_string base_ip ≡ ascii "127.1.27.1"
unfolding ip_string itoa
printed = refl

abbrev db_reservation : ServiceConfiguration
db_reservation = record { name = ascii "db"; ip = ascii "127.1.27.1" }

abbrev configuration : ForwardConfiguration
configuration = record {
  base_unreserved_ip = ascii "127.1.27.1";
  service_configurations = db_reservation ∷ [];
}

abbrev configured : Configurations
configured = record {
  forward_configuration = some configuration;
  default_configuration = configuration;
}

abbrev second_ip : Ip
second_ip = record base_ip { octet_d = 2 }

-- The first address is reserved for `db`, so `web` gets the second.
abbrev after_web : Registry
after_web = record {
  inc = (0, (0, 2) ∷ []) ∷ [];
  reg = (ascii "0-0-web-api-0", second_ip) ∷ [];
  allocated = ascii "127.1.27.2" ∷ [];
  hostnames = [];
}

-- What an evaluation sees through.
evaluation : Unit {0}
unfolding get_ip reg_key get_forward_configuration ip_string lookup insert itoa atoi split cut
    contains apply_cli_passed_reservations apply_reservations validate_forward_configuration
    determine_ip place_reserved add_to_registry start_cluster increment has_conflicting_reservations
    get_configuration_for_service matches match_list ip_from_string offset block_non_loopback_ips
    service_configuration_from_reservation apply_reservation override
    notify_of_duplicate_ip_reservations no_duplicates out_of_bounds nth_ip
evaluation = tt

first_call :
    get_ip no_file web initial_registry initial_configurations
    ≡ returned (got second_ip) after_web configured
unfolding evaluation
first_call = refl

ip_from_string-ip_string_example : ip_from_string (ip_string base_ip) ≡ ok base_ip
ip_from_string-ip_string_example = ip_from_string-ip_string base_ip (omega arith)

-- `web` of another cluster and namespace.
abbrev far_web : ForwardIpOpts
far_web = record web { cluster_n = 1; namespace_n = 2 }

abbrev web_reservation : ServiceConfiguration
web_reservation = record { name = ascii "web.ns.ctx"; ip = ascii "127.3.3.3" }

matches-nearer_example :
    matches web_reservation (record far_web { cluster_n = 0; namespace_n = 1 }) ≡ true
unfolding evaluation
matches-nearer_example =
    matches-nearer web_reservation far_web 0 1 (λ h. omega arith) (λ h. omega arith) refl

get_forward_configuration-again_example :
    IsValidated configuration
    × KeepsValidated configured
    × (get_forward_configuration no_file far_web configured ≡ some (configuration, configured))
unfolding evaluation
get_forward_configuration-again_example =
    get_forward_configuration-again no_file web far_web initial_configurations configured
      configuration (λ f h. cc) refl

reserved_ip-apply_reservations_example :
    reserved_ip
      (ascii "db")
      (apply_reservations (ascii "db:127.1.1.1" ∷ ascii "db" ∷ []) (db_reservation ∷ []))
    ≡ or_else
        (requested_ip (ascii "db") (ascii "db:127.1.1.1" ∷ ascii "db" ∷ []))
        (reserved_ip (ascii "db") (db_reservation ∷ []))
reserved_ip-apply_reservations_example =
    reserved_ip-apply_reservations (ascii "db") (ascii "db:127.1.1.1" ∷ ascii "db" ∷ [])
      (db_reservation ∷ [])

determine_ip-Settled_example :
    (x : Determined × Registry) × (determine_ip enough_fuel
        (db_reservation ∷ [])
        base_ip
        (ascii "key")
        web
        initial_registry
      ≡ some x)
    × Settled (db_reservation ∷ []) base_ip (ascii "key") web initial_registry x
unfolding evaluation
determine_ip-Settled_example =
    determine_ip-Settled (db_reservation ∷ []) base_ip (ascii "key") web enough_fuel
      initial_registry (omega arith) (omega arith) (omega arith) refl

determine_ip-IsFree_example : IsFree (db_reservation ∷ []) web [] second_ip
unfolding evaluation
determine_ip-IsFree_example =
    determine_ip-IsFree enough_fuel (db_reservation ∷ []) base_ip (reg_key web) web initial_registry
      after_web second_ip refl

-- Service `web` with pod `api-0`, then service `web-api` with pod `0`.
get_ip_shared_example :
    get_ip no_file
      (record web { service_name = ascii "web-api"; pod_name = ascii "0" })
      after_web
      configured
    ≡ returned (got second_ip) after_web configured
unfolding evaluation
get_ip_shared_example =
    get_ip_shared no_file web (ascii "web") (ascii "api") (ascii "0") second_ip after_web configured
      refl

get_ips-OneAddressForOneKey_example :
    All
      (λ a. All (λ b. OneAddressForOneKey no_file a b) (answers no_file (web ∷ far_web ∷ web ∷ [])))
      (answers no_file (web ∷ far_web ∷ web ∷ []))
get_ips-OneAddressForOneKey_example = get_ips-OneAddressForOneKey no_file (web ∷ far_web ∷ web ∷ [])

-- A reservation that is not in the printed form keeps nobody else from its address.
loose_reservation :
    has_conflicting_reservations web
      (ascii "127.1.27.1")
      (record { name = ascii "db"; ip = ascii "127.1.27.01" } ∷ [])
    ≡ none
unfolding evaluation
loose_reservation = refl
