-- ===== src/Fwdapi/Tests.antt =====
-- The rings of the API on small inputs.
use kubefwd.Base.{ℕ, ◌≡◌, List, [], ◌∷◌, reverse, some, Text, ascii, pos, negsuc, take, min, arith}
use kubefwd.Fwdapi.LogBuffer.{
  LogBuffer, LogBufferEntry, no_entry, new_log_buffer, add_all, get_last, max_log_buffer_size,
  get_last-add_all,
}
use kubefwd.Ring.Filtered.{select}
use kubefwd.Fwdapi.History.{Store, Config, new_store, positive_or, EventArgs, new_event, get_events}
use kubefwd.Fwdapi.History.Latest.{numbered, record_events, is_of_type, get_events-record_events}
use kubefwd.Fwdapi.History.{ErrorArgs, new_error, get_errors}
use kubefwd.Fwdapi.History.Errors.{record_errors, get_errors-record_errors}

abbrev said : Text → LogBufferEntry
said text = record no_entry { message = text }

abbrev three_entries : List LogBufferEntry
three_entries = said (ascii "a") ∷ said (ascii "b") ∷ said (ascii "c") ∷ []

get_last-add_all_example :
    (b : LogBuffer) × (add_all three_entries (new_log_buffer 2) ≡ some b)
    × ((n : ℕ)
        → get_last b (pos n) ≡ take (min n max_log_buffer_size) (take 2 (reverse three_entries)))
get_last-add_all_example = get_last-add_all 2 three_entries (omega arith)

abbrev two_event_slots : Config
two_event_slots = record { max_events = pos 2; max_errors = pos 0; max_reconnects = negsuc 0 }

abbrev happened : Text → EventArgs
happened type = record {
  type = type;
  service_key = [];
  forward_key = [];
  pod_name = [];
  message = [];
  values = [];
  now = 5;
}

abbrev three_events : List EventArgs
three_events =
    happened (ascii "pod.added") ∷ happened (ascii "error") ∷ happened (ascii "pod.added") ∷ []

get_events-record_events_example :
    (s : Store) × (record_events three_events (new_store two_event_slots) ≡ some s)
    × (s.errors ≡ (new_store two_event_slots).errors)
    × (s.reconnects ≡ (new_store two_event_slots).reconnects)
    × ((n : ℕ) (type : Text)
        → get_events (pos n) type s
          ≡ take n (
              select (is_of_type type) (
                take
                  (positive_or two_event_slots.max_events 1000)
                  (reverse (numbered new_event 1 three_events)))))
get_events-record_events_example = get_events-record_events two_event_slots three_events

abbrev failed : Text → ErrorArgs
failed message = record {
  service_key = [];
  forward_key = [];
  pod_name = [];
  error_type = [];
  message = message;
  now = 5;
}

abbrev two_errors : List ErrorArgs
two_errors = failed (ascii "refused") ∷ failed (ascii "timeout") ∷ []

get_errors-record_errors_example :
    (s : Store) × (record_errors two_errors (new_store two_event_slots) ≡ some s)
    × (s.events ≡ (new_store two_event_slots).events)
    × (s.reconnects ≡ (new_store two_event_slots).reconnects)
    × ((n : ℕ)
        → get_errors (pos n) s
          ≡ take n (
              take
                (positive_or two_event_slots.max_errors 500)
                (reverse (numbered new_error 1 two_errors))))
get_errors-record_errors_example = get_errors-record_errors two_event_slots two_errors
