-- ===== src/Fwdtui/State.antt =====
-- pkg/fwdtui/state/store.go and snapshot.go: the forwards and services that the terminal interface
-- shows. Rates are floating point numbers, a parameter with their sum; times are numbers.
pub mod Erased
pub mod Blocked
pub mod Logs
pub mod Tally
pub mod Tallied
use kubefwd.Base.{
  ℕ, ◌+◌, ◌-◌, ◌%◌, ◌^◌, ◌≤◌, ◌++◌, List, [], ◌∷◌, Option, none, some, Bool, true, false, ◌&&◌,
  ◌||◌, Text, text_key, ◌==◌, Dict, lookup, insert, erase, values, contains, ℤ, pos, negsuc, length,
  nat_beq, last, ltb, if◌then◌else◌,
}
use kubefwd.Ring.{bounded_size}
use kubefwd.Ring.Filtered.{select}

pub data ForwardStatus : Type 0 where
  pending connecting active error stopping : ForwardStatus

pub record ForwardSnapshot (Rate : Type 0) : Type 0 where
  pub key : Text
  pub service_key : Text
  pub registry_key : Text
  pub service_name : Text
  pub namespace : Text
  pub cluster : Text
  pub headless : Bool
  pub pod_name : Text
  pub container_name : Text
  pub local_ip : Text
  pub local_port : Text
  pub pod_port : Text
  pub hostnames : List Text
  pub status : ForwardStatus
  pub error_text : Text
  pub started_at : ℕ
  pub last_active : ℕ
  pub bytes_in : ℕ
  pub bytes_out : ℕ
  pub rate_in : Rate
  pub rate_out : Rate
  pub avg_rate_in : Rate
  pub avg_rate_out : Rate

pub record ServiceSnapshot (Rate : Type 0) : Type 0 where
  pub key : Text
  pub service_name : Text
  pub namespace : Text
  pub cluster : Text
  pub headless : Bool
  pub total_bytes_in : ℕ
  pub total_bytes_out : ℕ
  pub total_rate_in : Rate
  pub total_rate_out : Rate
  pub active_count : ℕ
  pub error_count : ℕ
  pub port_forwards : List (ForwardSnapshot Rate)

pub record LogEntry : Type 0 where
  pub timestamp : ℕ
  pub level : Text
  pub message : Text
  pub color : Text

-- `Store`, less the display options.
pub record Store (Rate : Type 0) : Type 0 where
  pub forwards : Dict Text (ForwardSnapshot Rate)
  pub services : Dict Text (ServiceSnapshot Rate)
  pub blocked_namespaces : List Text
  pub logs : List LogEntry
  pub max_log_size : ℕ

abbrev pub max_logs_allocation : ℕ
max_logs_allocation = 10000

-- `NewStore`
unfoldable pub new_store : {Rate : Type 0} → ℤ → Store Rate
new_store size = record {
  forwards = [];
  services = [];
  blocked_namespaces = [];
  logs = [];
  max_log_size = elim size [ negsuc n ↦ 1000 | pos n ↦ if nat_beq n 0 then 1000 else n ];
}

-- The key of a namespace among the blocked ones.
abbrev pub namespace_key : Text → Text → Text
namespace_key namespace cluster = namespace ++ b'.' ∷ cluster

abbrev pub is_active : ForwardStatus → Bool
is_active active = true
is_active _ = false

abbrev pub is_error : ForwardStatus → Bool
is_error error = true
is_error _ = false

-- `a + b` on `uint64`
abbrev pub add64 : ℕ → ℕ → ℕ
add64 a b = (a + b) % 2 ^ 64

-- What `UpdateMetrics` is given, with the time of the call.
pub record Metrics (Rate : Type 0) : Type 0 where
  pub bytes_in : ℕ
  pub bytes_out : ℕ
  pub rate_in : Rate
  pub rate_out : Rate
  pub avg_rate_in : Rate
  pub avg_rate_out : Rate
  pub now : ℕ

module _ {Rate : Type 0} (no_rate : Rate) (add_rate : Rate → Rate → Rate) where
  -- One round of the loop of `updateServiceAggregate`.
  unfoldable pub count_forward : ForwardSnapshot Rate → ServiceSnapshot Rate → ServiceSnapshot Rate
  count_forward fwd svc =
      if fwd.service_key == svc.key
      then record svc {
        port_forwards = svc.port_forwards ++ fwd ∷ [];
        total_bytes_in = add64 svc.total_bytes_in fwd.bytes_in;
        total_bytes_out = add64 svc.total_bytes_out fwd.bytes_out;
        total_rate_in = add_rate svc.total_rate_in fwd.rate_in;
        total_rate_out = add_rate svc.total_rate_out fwd.rate_out;
        active_count = if is_active fwd.status then svc.active_count + 1 else svc.active_count;
        error_count = if is_error fwd.status then svc.error_count + 1 else svc.error_count;
      }
      else svc

  unfoldable pub count_forwards :
      List (ForwardSnapshot Rate) → ServiceSnapshot Rate → ServiceSnapshot Rate
  count_forwards [] svc = svc
  count_forwards (fwd ∷ rest) svc = count_forwards rest (count_forward fwd svc)

  -- `updateServiceAggregate`, on the forwards of the store.
  unfoldable pub update_service_aggregate :
      Dict Text (ForwardSnapshot Rate) → ServiceSnapshot Rate → ServiceSnapshot Rate
  update_service_aggregate forwards svc = count_forwards (values forwards) (record svc {
    port_forwards = [];
    total_bytes_in = 0;
    total_bytes_out = 0;
    total_rate_in = no_rate;
    total_rate_out = no_rate;
    active_count = 0;
    error_count = 0;
  })

  -- The service of a first forward, before its sums are made.
  abbrev pub new_service : ForwardSnapshot Rate → ServiceSnapshot Rate
  new_service snapshot = record {
    key = snapshot.service_key;
    service_name = snapshot.service_name;
    namespace = snapshot.namespace;
    cluster = snapshot.cluster;
    headless = snapshot.headless;
    total_bytes_in = 0;
    total_bytes_out = 0;
    total_rate_in = no_rate;
    total_rate_out = no_rate;
    active_count = 0;
    error_count = 0;
    port_forwards = [];
  }

  abbrev pub or_else : ServiceSnapshot Rate → Option (ServiceSnapshot Rate) → ServiceSnapshot Rate
  or_else fallback none = fallback
  or_else fallback (some svc) = svc

  -- `AddForward`
  unfoldable pub add_forward : ForwardSnapshot Rate → Store Rate → Store Rate
  add_forward snapshot s =
      let forwards = insert snapshot.key snapshot s.forwards in
      let svc = or_else (new_service snapshot) (lookup snapshot.service_key s.services) in
      if contains (namespace_key snapshot.namespace snapshot.cluster) s.blocked_namespaces
      then s
      else record s {
        forwards = forwards;
        services = insert snapshot.service_key (update_service_aggregate forwards svc) s.services;
      }

  -- The sums of one service are made again, where it is known.
  unfoldable pub refresh : Text → Store Rate → Store Rate
  refresh service_key s = elim (lookup service_key s.services) [
    | none ↦ s
    | some svc ↦ record s {
      services = insert service_key (update_service_aggregate s.forwards svc) s.services;
    }
  ]

  abbrev pub is_empty : List (ForwardSnapshot Rate) → Bool
  is_empty [] = true
  is_empty (fwd ∷ rest) = false

  -- The end of `RemoveForward`: the service goes with its last forward.
  unfoldable pub drop_if_empty : Text → Store Rate → Store Rate
  drop_if_empty service_key s = elim (lookup service_key s.services) [
    | none ↦ s
    | some svc ↦
        if is_empty svc.port_forwards
        then record s { services = erase service_key s.services }
        else s
  ]

  -- `RemoveForward`
  unfoldable pub remove_forward : Text → Store Rate → Store Rate
  unfolding refresh drop_if_empty
  remove_forward key s = elim (lookup key s.forwards) [
    | none ↦ s
    | some fwd ↦
        drop_if_empty fwd.service_key
          (refresh fwd.service_key (record s { forwards = erase key s.forwards }))
  ]

  -- `UpdateMetrics`
  unfoldable pub update_metrics : Text → Metrics Rate → Store Rate → Store Rate
  unfolding refresh
  update_metrics key m s = elim (lookup key s.forwards) [
    | none ↦ s
    | some fwd ↦ refresh fwd.service_key (record s {
      forwards =
          insert key
            (record fwd {
              bytes_in = m.bytes_in;
              bytes_out = m.bytes_out;
              rate_in = m.rate_in;
              rate_out = m.rate_out;
              avg_rate_in = m.avg_rate_in;
              avg_rate_out = m.avg_rate_out;
              last_active = m.now;
            })
            s.forwards;
    })
  ]

  -- `UpdateStatus`
  unfoldable pub update_status : Text → ForwardStatus → Text → Store Rate → Store Rate
  unfolding refresh
  update_status key status message s = elim (lookup key s.forwards) [
    | none ↦ s
    | some fwd ↦ refresh fwd.service_key (record s {
      forwards = insert key (record fwd { status = status; error_text = message }) s.forwards;
    })
  ]

-- The loops of `RemoveByNamespace` that collect keys.
unfoldable pub keys_where {ℓ} : {V : Type ℓ} → (V → Bool) → Dict Text V → List Text
keys_where p [] = []
keys_where p ((k, v) ∷ rest) = let ks = keys_where p rest in if p v then k ∷ ks else ks

-- The loops of `RemoveByNamespace` that delete.
unfoldable pub erase_each {ℓ} : {V : Type ℓ} → List Text → Dict Text V → Dict Text V
erase_each [] d = d
erase_each (k ∷ ks) d = erase_each ks (erase k d)

module _ {Rate : Type 0} where
  -- `UpdateHostnames`
  unfoldable pub update_hostnames : Text → List Text → Store Rate → Store Rate
  update_hostnames key hostnames s = elim (lookup key s.forwards) [
    | none ↦ s
    | some fwd ↦ record s {
      forwards = insert key (record fwd { hostnames = hostnames }) s.forwards;
    }
  ]

  abbrev pub is_of : Text → Text → ForwardSnapshot Rate → Bool
  is_of namespace cluster fwd = fwd.namespace == namespace && fwd.cluster == cluster

  abbrev pub is_service_of : Text → Text → ServiceSnapshot Rate → Bool
  is_service_of namespace cluster svc = svc.namespace == namespace && svc.cluster == cluster

  -- `RemoveByNamespace`: the state, and how many forwards were removed.
  unfoldable pub remove_by_namespace : Text → Text → Store Rate → Store Rate × ℕ
  remove_by_namespace namespace cluster s =
      let removed = keys_where (is_of namespace cluster) s.forwards in
      (
        record s {
          blocked_namespaces = namespace_key namespace cluster ∷ s.blocked_namespaces;
          forwards = erase_each removed s.forwards;
          services =
              erase_each (keys_where (is_service_of namespace cluster) s.services) s.services;
        },
        length removed,
      )

  -- `UnblockNamespace`
  unfoldable pub unblock_namespace : Text → Text → Store Rate → Store Rate
  unblock_namespace namespace cluster s = record s {
    blocked_namespaces = without (namespace_key namespace cluster) s.blocked_namespaces;
  }
    where
      without : Text → List Text → List Text
      without key [] = []
      without key (k ∷ ks) = let rest = without key ks in if k == key then rest else k ∷ rest

  -- `AddLog`
  unfoldable pub add_log : LogEntry → Store Rate → Store Rate
  add_log entry s = record s {
    logs =
        if ltb s.max_log_size (length (s.logs ++ entry ∷ []))
        then last s.max_log_size (s.logs ++ entry ∷ [])
        else s.logs ++ entry ∷ [];
  }

  -- `GetLogs`
  unfoldable pub get_logs : ℤ → Store Rate → List LogEntry
  get_logs count s = last (bounded_size (pos (wanted count)) max_logs_allocation) s.logs
    where
      wanted : ℤ → ℕ
      wanted (negsuc n) = length s.logs
      wanted (pos n) =
          if nat_beq n 0 then length s.logs else if ltb (length s.logs) n then length s.logs else n
