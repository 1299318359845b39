-- ===== src/Fwdns/Manager.antt =====
-- `NamespaceManager` of pkg/fwdns/manager.go: watchers of namespaces are started and stopped. The
-- parameters are the current context and whether a client for a context can be made; what the terminal
-- interface shows is `store`, if there is one. A watcher that is stopped has ended when `StopWatcher`
-- goes on.
use kubefwd.Base.{
  ℕ, ◌++◌, List, [], ◌∷◌, map, Option, none, some, Bool, true, Text, text_key, Dict, lookup, insert,
  erase, values, contains, is_blank, length, if◌then◌else◌,
}
use kubefwd.Fwdtui.State.{Store, remove_by_namespace, unblock_namespace}
use kubefwd.Fwdservice.Reconnect.{Reconnection}
use kubefwd.Fwdsvcregistry.{ServicesRegistry, name_of, is_in, get_by_namespace, remove_by_name}
use kubefwd.Fwdns.Indices.{get_index}
use kubefwd.Fwdns.Handlers.{Service, Settings, NamespaceWatcher, new_service_fwd}

-- `WatcherKey`
abbrev pub watcher_key : Text → Text → Text
watcher_key namespace cluster = namespace ++ b'.' ∷ cluster

pub record NamespaceManager (Rate : Type 0) : Type 0 where
  pub settings : Settings
  pub watchers : Dict Text NamespaceWatcher
  pub clients : List Text
  pub context_index : Dict Text ℕ
  pub namespace_index : Dict Text ℕ
  pub registry : ServicesRegistry
  pub store : Option (Store Rate)

pub record NamespaceInfo : Type 0 where
  pub key : Text
  pub namespace : Text
  pub cluster : Text
  pub service_count : ℕ
  pub active_count : ℕ
  pub error_count : ℕ
  pub started_at : ℕ
  pub running : Bool
  pub label_selector : Text
  pub field_selector : Text

pub record WatcherOpts : Type 0 where
  pub label_selector : Text
  pub field_selector : Text

-- `NamespaceWatcher.Info`
unfoldable pub info : ServicesRegistry → NamespaceWatcher → NamespaceInfo
info r w = record {
  key = w.key;
  namespace = w.namespace;
  cluster = w.cluster;
  service_count = length (get_by_namespace w.namespace w.cluster r);
  active_count = length (get_by_namespace w.namespace w.cluster r);
  error_count = 0;
  started_at = w.started_at;
  running = w.running;
  label_selector = w.label_selector;
  field_selector = w.field_selector;
}

-- What `StartWatcher` returns, an error by its place.
pub data Started : Type 0 where
  started : NamespaceInfo → Started
  already_watching : NamespaceInfo → Started
  start_no_context : Started
  start_no_client : Started

pub data Stopped : Type 0 where
  stopped : Stopped
  no_watcher : Stopped
  stop_no_context : Stopped

abbrev pub selector_or : Text → Text → Text
selector_or default_text text = if is_blank text then default_text else text

-- `if existing, ok := m.watchers[key]; ok && existing.Running()`
abbrev pub if_running : Option NamespaceWatcher → Option NamespaceWatcher
if_running none = none
if_running (some w) = if w.running then some w else none

abbrev pub on_store :
    {Rate : Type 0} → (Store Rate → Store Rate) → Option (Store Rate) → Option (Store Rate)
on_store f none = none
on_store f (some s) = some (f s)

-- The context that is meant: the current one where none is given.
abbrev pub resolve : Option Text → Text → Option Text
resolve current_context ctx = if is_blank ctx then current_context else some ctx

-- The loop of `removeNamespaceServices`.
unfoldable pub remove_found : Text → Text → List Reconnection → ServicesRegistry → ServicesRegistry
remove_found namespace cluster [] r = r
remove_found namespace cluster (svc ∷ rest) r =
    remove_found namespace cluster rest
      (if is_in namespace cluster svc then remove_by_name (name_of svc) r else r)

-- `removeNamespaceServices`
unfoldable pub remove_namespace_services : Text → Text → ServicesRegistry → ServicesRegistry
remove_namespace_services namespace cluster r = remove_found namespace cluster (values r.services) r

module _ {Rate : Type 0} where
  -- `GetContextIndex` and `GetNamespaceIndex`
  unfoldable pub take_context_index : Text → NamespaceManager Rate → ℕ × NamespaceManager Rate
  take_context_index ctx m =
      let (idx, next) = get_index ctx m.context_index in (idx, record m { context_index = next })

  unfoldable pub take_namespace_index : Text → NamespaceManager Rate → ℕ × NamespaceManager Rate
  take_namespace_index key m =
      let (idx, next) = get_index key m.namespace_index in
      (idx, record m { namespace_index = next })

  -- The end of `StartWatcher`, once there is a client.
  unfoldable pub create_watcher :
      Text → Text → WatcherOpts → ℕ → NamespaceManager Rate → NamespaceManager Rate × Started
  create_watcher ctx namespace opts now m =
      let key = watcher_key namespace ctx in
      let (cluster_n, m1) = take_context_index ctx m in
      let (namespace_n, m2) = take_namespace_index key m1 in
      let w : NamespaceWatcher = record {
        key = key;
        namespace = namespace;
        cluster = ctx;
        cluster_n = cluster_n;
        namespace_n = namespace_n;
        label_selector = selector_or m.settings.label_selector opts.label_selector;
        field_selector = selector_or m.settings.field_selector opts.field_selector;
        started_at = now;
        running = true;
      } in
      (record m2 { watchers = insert key w m2.watchers }, started (info m2.registry w))

  module _ (current_context : Option Text) (make_client : Text → Bool) where
    -- `getOrCreateClient`; `none` is its error.
    unfoldable pub get_or_create_client :
        Text → NamespaceManager Rate → Option (NamespaceManager Rate)
    get_or_create_client ctx m =
        if contains ctx m.clients
        then some m
        else if make_client ctx
        then some (record m { clients = ctx ∷ m.clients })
        else none

    unfoldable pub start_in :
        Text → Text → WatcherOpts → ℕ → NamespaceManager Rate → NamespaceManager Rate × Started
    unfolding create_watcher
    start_in ctx namespace opts now m =
        let m1 = record m { store = on_store (unblock_namespace namespace ctx) m.store } in
        elim (if_running (lookup (watcher_key namespace ctx) m1.watchers)) [
          | some w ↦ (m1, already_watching (info m1.registry w))
          | none ↦ elim (get_or_create_client ctx m1) [
            | none ↦ (m1, start_no_client)
            | some m2 ↦ create_watcher ctx namespace opts now m2
          ]
        ]

    -- `StartWatcher`
    unfoldable pub start_watcher :
        Text → Text → WatcherOpts → ℕ → NamespaceManager Rate → NamespaceManager Rate × Started
    unfolding start_in
    start_watcher ctx namespace opts now m = elim (resolve current_context ctx) [
      | none ↦ (m, start_no_context)
      | some c ↦ start_in c namespace opts now m
    ]

    -- `StopWatcher` of a watcher that is found.
    unfoldable pub stop_in : Text → Text → NamespaceManager Rate → NamespaceManager Rate
    stop_in ctx namespace m = record m {
      store = on_store (λ s. (remove_by_namespace namespace ctx s).0) m.store;
      registry = remove_namespace_services namespace ctx m.registry;
      watchers = erase (watcher_key namespace ctx) m.watchers;
    }

    -- `StopWatcher`
    unfoldable pub stop_watcher :
        Text → Text → NamespaceManager Rate → NamespaceManager Rate × Stopped
    unfolding stop_in
    stop_watcher ctx namespace m = elim (resolve current_context ctx) [
      | none ↦ (m, stop_no_context)
      | some c ↦ elim (lookup (watcher_key namespace c) m.watchers) [
        | none ↦ (m, no_watcher)
        | some w ↦ (stop_in c namespace m, stopped)
      ]
    ]

    -- `CreateServiceFWD`; `none` is an error.
    unfoldable pub create_service_fwd :
        Text → Text → Service → NamespaceManager Rate → NamespaceManager Rate × Option Reconnection
    create_service_fwd ctx namespace svc m =
        if is_blank svc.selector then (m, none) else elim (resolve current_context ctx) [
          | none ↦ (m, none)
          | some c ↦ elim (get_or_create_client c m) [
            | none ↦ (m, none)
            | some m1 ↦
                let (cluster_n, m2) = take_context_index c m1 in
                let (namespace_n, m3) = take_namespace_index (watcher_key namespace c) m2 in
                (m3, some (new_service_fwd m.settings namespace c cluster_n namespace_n svc))
          ]
        ]

  -- `ListWatchers`
  unfoldable pub list_watchers : NamespaceManager Rate → List NamespaceInfo
  list_watchers m = map (info m.registry) (values m.watchers)
