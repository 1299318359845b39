-- ===== src/Fwdapi/History.antt =====
-- pkg/fwdapi/history/store.go: events, errors and reconnections in three ring buffers. Numbers of
-- records do not wrap; the data of an event is carried and never looked at.
pub mod Records
pub mod Latest
pub mod Errors
use kubefwd.Base.{
  is_blank, ℕ, ◌+◌, List, [], ◌∷◌, Option, none, some, Bool, true, false, not, ◌&&◌, ◌||◌, Text,
  text_key, ◌==◌, ℤ, pos, negsuc, ltb, nat_beq, nat_key, if◌then◌else◌,
}
use kubefwd.Ring.{Ring, fresh, put, newest, bounded_size}
use kubefwd.Ring.Filtered.{select, scan}
use kubefwd.Fwdapi.History.Records.{
  EventData, Event, ErrorRecord, ReconnectRecord, no_event, no_error, no_reconnect,
}

-- `Store`; the maximum of each kind is the size of its ring.
pub record Store : Type 0 where
  pub events : Ring Event
  pub event_next_id : ℕ
  pub errors : Ring ErrorRecord
  pub error_next_id : ℕ
  pub reconnects : Ring ReconnectRecord
  pub reconnect_next_id : ℕ

pub record Config : Type 0 where
  pub max_events : ℤ
  pub max_errors : ℤ
  pub max_reconnects : ℤ

abbrev pub default_config : Config
default_config = record { max_events = pos 1000; max_errors = pos 500; max_reconnects = pos 200 }

abbrev pub max_errors_limit : ℕ
max_errors_limit = 5000

-- `if max <= 0 { max = … }`
unfoldable pub positive_or : ℤ → ℕ → ℕ
positive_or (negsuc n) fallback = fallback
positive_or (pos n) fallback = if nat_beq n 0 then fallback else n

-- `NewStore`
unfoldable pub new_store : Config → Store
new_store c = record {
  events = fresh no_event (positive_or c.max_events 1000);
  event_next_id = 1;
  errors = fresh no_error (positive_or c.max_errors 500);
  error_next_id = 1;
  reconnects = fresh no_reconnect (positive_or c.max_reconnects 200);
  reconnect_next_id = 1;
}

-- The arguments of `RecordEvent`, with the time at which it is called.
pub record EventArgs : Type 0 where
  pub type : Text
  pub service_key : Text
  pub forward_key : Text
  pub pod_name : Text
  pub message : Text
  pub values : EventData
  pub now : ℕ

abbrev pub new_event : ℕ → EventArgs → Event
new_event id a = record {
  id = id;
  type = a.type;
  timestamp = a.now;
  service_key = a.service_key;
  forward_key = a.forward_key;
  pod_name = a.pod_name;
  message = a.message;
  values = a.values;
}

-- `RecordEvent`; `none` is the panic of an index out of range.
unfoldable pub record_event : EventArgs → Store → Option (ℕ × Store)
record_event a s = elim (put (new_event s.event_next_id a) s.events) [
  | none ↦ none
  | some r ↦ some (s.event_next_id, record s { events = r; event_next_id = s.event_next_id + 1 })
]

pub record ErrorArgs : Type 0 where
  pub service_key : Text
  pub forward_key : Text
  pub pod_name : Text
  pub error_type : Text
  pub message : Text
  pub now : ℕ

abbrev pub new_error : ℕ → ErrorArgs → ErrorRecord
new_error id a = record {
  id = id;
  timestamp = a.now;
  service_key = a.service_key;
  forward_key = a.forward_key;
  pod_name = a.pod_name;
  error_type = a.error_type;
  message = a.message;
  resolved = false;
  resolved_at = 0;
}

-- `RecordError`
unfoldable pub record_error : ErrorArgs → Store → Option (ℕ × Store)
record_error a s = elim (put (new_error s.error_next_id a) s.errors) [
  | none ↦ none
  | some r ↦ some (s.error_next_id, record s { errors = r; error_next_id = s.error_next_id + 1 })
]

pub record ReconnectArgs : Type 0 where
  pub service_key : Text
  pub trigger : Text
  pub attempt_count : ℕ
  pub success : Bool
  pub duration : ℕ
  pub error : Text
  pub now : ℕ

abbrev pub new_reconnect : ℕ → ReconnectArgs → ReconnectRecord
new_reconnect id a = record {
  id = id;
  timestamp = a.now;
  service_key = a.service_key;
  trigger = a.trigger;
  attempt_count = a.attempt_count;
  success = a.success;
  duration = a.duration;
  error = a.error;
}

-- `RecordReconnect`
unfoldable pub record_reconnect : ReconnectArgs → Store → Option (ℕ × Store)
record_reconnect a s = elim (put (new_reconnect s.reconnect_next_id a) s.reconnects) [
  | none ↦ none
  | some r ↦ some (
    s.reconnect_next_id,
    record s { reconnects = r; reconnect_next_id = s.reconnect_next_id + 1 },
  )
]

-- Neither of the loop's two `continue`s.
abbrev pub keeps_event : Text → Event → Bool
keeps_event type e = not (nat_beq e.id 0) && (is_blank type || e.type == type)

abbrev pub keeps_reconnect : Text → ReconnectRecord → Bool
keeps_reconnect service_key r =
    not (nat_beq r.id 0) && (is_blank service_key || r.service_key == service_key)

-- `if count > stored { count = stored }`
abbrev pub at_most : ℕ → ℕ → ℕ
at_most stored n = if ltb stored n then stored else n

-- `GetEvents`
unfoldable pub get_events : ℤ → Text → Store → List Event
get_events (negsuc n) type s = []
get_events (pos n) type s =
    if nat_beq n 0 || nat_beq s.events.count 0
    then []
    else scan no_event (keeps_event type) s.events 0 s.events.count (at_most s.events.count n)

-- `GetErrors`; the bound on the allocation is one of capacity, and cuts nothing.
unfoldable pub get_errors : ℤ → Store → List ErrorRecord
get_errors (negsuc n) s = []
get_errors (pos n) s =
    if nat_beq n 0 || nat_beq s.errors.count 0
    then []
    else (let n' = at_most s.errors.count n in
        if nat_beq (bounded_size (pos n') max_errors_limit) 0
        then []
        else select (λ e. not (nat_beq e.id 0)) (newest no_error s.errors 0 n'))

-- `GetReconnects`
unfoldable pub get_reconnects : ℤ → Text → Store → List ReconnectRecord
get_reconnects (negsuc n) service_key s = []
get_reconnects (pos n) service_key s =
    if nat_beq n 0 || nat_beq s.reconnects.count 0
    then []
    else scan no_reconnect (keeps_reconnect service_key) s.reconnects 0 s.reconnects.count
        (at_most s.reconnects.count n)

pub record HistoryStats : Type 0 where
  pub total_events : ℕ
  pub total_errors : ℕ
  pub total_reconnects : ℕ
  pub max_events : ℕ
  pub max_errors : ℕ
  pub max_reconnects : ℕ

-- `GetStats`
unfoldable pub get_stats : Store → HistoryStats
get_stats s = record {
  total_events = s.events.count;
  total_errors = s.errors.count;
  total_reconnects = s.reconnects.count;
  max_events = s.events.size;
  max_errors = s.errors.size;
  max_reconnects = s.reconnects.size;
}

-- `Clear`: the rings are made anew, and the numbers go on.
unfoldable pub clear : Store → Store
clear s = record s {
  events = fresh no_event s.events.size;
  errors = fresh no_error s.errors.size;
  reconnects = fresh no_reconnect s.reconnects.size;
}
