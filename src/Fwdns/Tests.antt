-- ===== src/Fwdns/Tests.antt =====
-- The manager of namespaces on small inputs, and the theorems at inputs that meet their hypotheses.
use kubefwd.Base.{
  ℕ, ◌+◌, ◌≡◌, refl, List, [], ◌∷◌, map, none, some, Bool, true, false, Text, text_key, ascii, Dict,
  lookup, insert, erase, itoa, pos,
}
use kubefwd.Fwdservice.Types.{PortMap}
use kubefwd.Fwdservice.Ports.{service_string, get_port_map, mapped_port}
use kubefwd.Fwdservice.Reconnect.{Reconnection}
use kubefwd.Fwdsvcregistry.{init, add_service, add_checked}
use kubefwd.Fwdtui.State.{new_store}
use kubefwd.Fwdns.Indices.{
  get_index, get_indices, OneIndexForOneName, get_indices-OneIndexForOneName,
}
use kubefwd.Fwdns.PortMapping.{
  parse_port_map, split_port_mapping, parse_mappings, written, or_self, targets,
  get_port_map-parse_port_map,
}
use kubefwd.Fwdns.Handlers.{
  Service, service, tombstone, Settings, NamespaceWatcher, Handled, new_service_fwd,
  add_service_handler, delete_service_handler,
}
use kubefwd.Fwdns.View.{
  is_registered, is_selecting, full_name, Shown, nothing, added, Shown-is_registered,
  delete_service_handler-tombstone,
}
use kubefwd.Fwdns.Manager.{NamespaceManager, stop_watcher}
use kubefwd.Fwdns.Stopping.{IsGone, stop_watcher-IsGone}

abbrev names : List Text
names = ascii "prod" ∷ ascii "test" ∷ ascii "prod" ∷ []

indices : (get_indices names []).0 ≡ (ascii "prod", 0) ∷ (ascii "test", 1) ∷ (ascii "prod", 0) ∷ []
unfolding get_indices get_index lookup insert
indices = refl

get_indices-OneIndexForOneName_example : OneIndexForOneName 3 (get_indices names []).0
get_indices-OneIndexForOneName_example = get_indices-OneIndexForOneName names

abbrev settings : Settings
settings = record {
  port_mapping = ascii "80:8080" ∷ ascii "nonsense" ∷ [];
  retry_interval = 0;
  auto_reconnect = false;
  label_selector = [];
  field_selector = [];
}

abbrev watcher : NamespaceWatcher
watcher = record {
  key = ascii "ns.ctx";
  namespace = ascii "ns";
  cluster = ascii "ctx";
  cluster_n = 0;
  namespace_n = 0;
  label_selector = [];
  field_selector = [];
  started_at = 0;
  running = true;
}

abbrev web : Service
web = record {
  name = ascii "web";
  namespace = ascii "ns";
  selector = ascii "app=web";
  spec = record { ports = []; cluster_ip_none = false };
}

abbrev web_fwd : Reconnection
web_fwd = new_service_fwd settings (ascii "ns") (ascii "ctx") 0 0 web

mapped : get_port_map web_fwd.service 80 ≡ ascii "8080"
unfolding get_port_map mapped_port new_service_fwd parse_port_map parse_mappings split_port_mapping
    itoa
mapped = refl

abbrev eighty : PortMap
eighty = record { source_port = ascii "80"; target_port = ascii "8080" }

get_port_map-parse_port_map_example :
    get_port_map
      (record web_fwd.service { port_map = parse_port_map (map written (eighty ∷ [])) })
      80
    ≡ or_self (itoa 80) (lookup (itoa 80) (targets (eighty ∷ [])))
get_port_map-parse_port_map_example =
    get_port_map-parse_port_map (eighty ∷ []) web_fwd.service 80 ((refl, (refl, tt)), tt)

abbrev start : Handled
start = record { registry = init; updates = [] }

abbrev any_change : Service → Service → Bool
any_change old new = true

abbrev seen : Dict Text Service
seen = insert (ascii "web") web []

abbrev after_web : Handled
after_web = add_service_handler settings watcher (service web) start

shown : Shown settings watcher any_change start seen after_web
unfolding lookup
shown = added web [] start refl refl nothing

Shown-is_registered_example :
    is_registered (full_name settings watcher any_change (ascii "web")) after_web.registry
    ≡ is_selecting (lookup (ascii "web") seen)
unfolding init lookup
Shown-is_registered_example =
    Shown-is_registered settings watcher any_change start after_web seen (ascii "web") refl
      (λ n. refl) shown

delete_service_handler-tombstone_example :
    (is_registered
        (full_name settings watcher any_change (ascii "web"))
        (delete_service_handler settings watcher (tombstone web) after_web).registry
      ≡ true)
    × (is_selecting (lookup (ascii "web") (erase (ascii "web") seen)) ≡ false)
unfolding init lookup insert
delete_service_handler-tombstone_example =
    delete_service_handler-tombstone settings watcher any_change start after_web seen web refl
      (λ n. refl) shown refl refl

abbrev manager : NamespaceManager ℕ
manager = record {
  settings = settings;
  watchers = (ascii "ns.ctx", watcher) ∷ [];
  clients = ascii "ctx" ∷ [];
  context_index = (ascii "ctx", 0) ∷ [];
  namespace_index = (ascii "ns.ctx", 0) ∷ [];
  registry = add_service web_fwd init;
  store = some (new_store (pos 5));
}

stop_watcher-IsGone_example :
    IsGone
      (ascii "ns")
      (ascii "ctx")
      0
      (λ a b. a + b)
      (stop_watcher none (λ c. true) (ascii "ctx") (ascii "ns") manager).0
unfolding stop_watcher lookup add_service add_checked init insert new_service_fwd service_string
stop_watcher-IsGone_example =
    stop_watcher-IsGone 0 (λ a b. a + b) none (λ c. true) (ascii "ctx") (ascii "ns") (ascii "ctx")
      manager (refl, tt) refl refl
