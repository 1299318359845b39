-- ===== src/Fwdapi/History/Records.antt =====
-- The records of pkg/fwdapi/history/store.go, and the zero values that fill a fresh ring.
use kubefwd.Base.{ℕ, List, [], Bool, false, Text}

-- The stored data of an event: the names and, as texts, the values.
abbrev pub EventData : Type 0
EventData = List (Text × Text)

pub record Event : Type 0 where
  pub id : ℕ
  pub type : Text
  pub timestamp : ℕ
  pub service_key : Text
  pub forward_key : Text
  pub pod_name : Text
  pub message : Text
  pub values : EventData

pub record ErrorRecord : Type 0 where
  pub id : ℕ
  pub timestamp : ℕ
  pub service_key : Text
  pub forward_key : Text
  pub pod_name : Text
  pub error_type : Text
  pub message : Text
  pub resolved : Bool
  pub resolved_at : ℕ

pub record ReconnectRecord : Type 0 where
  pub id : ℕ
  pub timestamp : ℕ
  pub service_key : Text
  pub trigger : Text
  pub attempt_count : ℕ
  pub success : Bool
  pub duration : ℕ
  pub error : Text

abbrev pub no_event : Event
no_event = record {
  id = 0;
  type = [];
  timestamp = 0;
  service_key = [];
  forward_key = [];
  pod_name = [];
  message = [];
  values = [];
}

abbrev pub no_error : ErrorRecord
no_error = record {
  id = 0;
  timestamp = 0;
  service_key = [];
  forward_key = [];
  pod_name = [];
  error_type = [];
  message = [];
  resolved = false;
  resolved_at = 0;
}

abbrev pub no_reconnect : ReconnectRecord
no_reconnect = record {
  id = 0;
  timestamp = 0;
  service_key = [];
  trigger = [];
  attempt_count = 0;
  success = false;
  duration = 0;
  error = [];
}
