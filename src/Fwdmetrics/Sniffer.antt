-- ===== src/Fwdmetrics/Sniffer.antt =====
-- pkg/fwdmetrics/httpsniff.go: requests and responses are found in the bytes that pass, and logged in
-- a ring. The regular expressions are parameters: the method and path that the first finds in a line,
-- the status that the second does, the length that the third finds in the bytes read. Each call has
-- the time at which it reads the clock.
pub mod Conversation
pub mod Stuck
use kubefwd.Base.{
  ℕ, zero, suc, ◌+◌, ◌-◌, ◌%◌, List, [], ◌∷◌, ◌++◌, Option, none, some, Bool, true, false, not,
  ◌&&◌, ◌||◌, Text, is_blank, ℤ, pos, negsuc, atoi, ltb, nat_beq, length, take, get_or, replicate,
  if◌then◌else◌,
}
use mathlib.Core.Option
use kubefwd.Ring.{Ring, fresh, put}

-- `HTTPLogEntry`; times and durations are in nanoseconds.
pub record HttpLogEntry : Type 0 where
  pub timestamp : ℕ
  pub method : Text
  pub path : Text
  pub status_code : ℤ
  pub duration : ℕ
  pub size : ℤ

abbrev pub no_http_log : HttpLogEntry
no_http_log = record {
  timestamp = 0;
  method = [];
  path = [];
  status_code = pos 0;
  duration = 0;
  size = pos 0;
}

pub record HttpRequest : Type 0 where
  pub method : Text
  pub path : Text
  pub start_time : ℕ

-- `HTTPSniffer`; the ring holds logs, logIndex, logCount and maxLogs.
pub record HttpSniffer : Type 0 where
  pub req_buffer : Text
  pub res_buffer : Text
  pub current_req : Option HttpRequest
  pub logs : Ring HttpLogEntry
  pub enabled : Bool

unfoldable pub max_http_logs : ℤ → ℕ
max_http_logs (negsuc n) = 50
max_http_logs (pos n) = if nat_beq n 0 then 50 else n

-- `NewHTTPSniffer`
unfoldable pub new_http_sniffer : ℤ → HttpSniffer
new_http_sniffer max_logs = record {
  req_buffer = [];
  res_buffer = [];
  current_req = none;
  logs = fresh no_http_log (max_http_logs max_logs);
  enabled = true;
}

-- `SetEnabled`
unfoldable pub set_enabled : Bool → HttpSniffer → HttpSniffer
set_enabled true s = record s { enabled = true }
set_enabled false s = record s {
  req_buffer = [];
  res_buffer = [];
  current_req = none;
  enabled = false;
}

-- The text begins with the pattern.
unfoldable pub starts_with : Text → Text → Bool
starts_with [] text = true
starts_with (p ∷ pattern) [] = false
starts_with (p ∷ pattern) (c ∷ text) = nat_beq p c && starts_with pattern text

-- `bytes.Index` of a pattern that is not empty; `none` is -1.
unfoldable pub index_of : Text → Text → Option ℕ
unfolding starts_with
index_of pattern [] = none
index_of pattern (c ∷ text) =
    let rest = Option.map suc (index_of pattern text) in
    if starts_with pattern (c ∷ text) then some 0 else rest

unfoldable pub line_end : Text → Option ℕ
unfolding index_of
line_end buffer = elim (index_of (13 ∷ 10 ∷ []) buffer) [
  | some i ↦ some i
  | none ↦ index_of (10 ∷ []) buffer
]

-- The first line, where its end is found and it is not empty: `if idx > 0`.
unfoldable pub first_line : Text → Option Text
unfolding line_end
first_line buffer = elim (line_end buffer) [
  | none ↦ none
  | some zero ↦ none
  | some (suc i) ↦ some (take (suc i) buffer)
]

-- A buffer whose first line is not what is looked for.
unfoldable pub keep_or_reset : Text → Text
keep_or_reset buffer = if ltb 256 (length buffer) then [] else buffer

-- The buffer after a write, cut at 512 bytes.
unfoldable pub buffered : Text → Text → Text
buffered buffer bytes = take 512 (buffer ++ bytes)

-- `addLog`; `none` is the panic of an index out of range.
unfoldable pub add_http_log : HttpLogEntry → HttpSniffer → Option HttpSniffer
add_http_log entry s =
    Option.map (λ (r : Ring HttpLogEntry). record s { logs = r }) (put entry s.logs)

-- The loop of `GetLogs` and of `GetAllLogs`: `left` rounds are left.
unfoldable pub read_logs : Ring HttpLogEntry → ℕ → ℕ → List HttpLogEntry
read_logs r i zero = []
read_logs r i (suc left) = get_or r.slots (i % r.size) no_http_log ∷ read_logs r (suc i) left

-- The end of `GetLogs` and of `GetAllLogs`: the latest `count` entries, oldest first.
unfoldable pub read_latest : Ring HttpLogEntry → ℕ → List HttpLogEntry
unfolding read_logs
read_latest r count =
    if nat_beq count 0 then [] else read_logs r ((r.head + r.size - count) % r.size) count

-- `GetAllLogs`
unfoldable pub get_all_http_logs : HttpSniffer → List HttpLogEntry
unfolding read_latest
get_all_http_logs s = read_latest s.logs s.logs.count

-- `GetLogs`
unfoldable pub get_http_logs : ℤ → HttpSniffer → List HttpLogEntry
unfolding read_latest
get_http_logs (negsuc n) s = read_latest s.logs s.logs.count
get_http_logs (pos n) s =
    read_latest s.logs (if nat_beq n 0 || ltb s.logs.count n then s.logs.count else n)

-- `ClearLogs`
unfoldable pub clear_logs : HttpSniffer → HttpSniffer
clear_logs s = record s {
  logs = record s.logs { slots = replicate (length s.logs.slots) no_http_log; head = 0; count = 0 };
}

-- `parsed` where it is a number, or 0.
abbrev pub number_or_zero : Option ℤ → ℤ
number_or_zero none = pos 0
number_or_zero (some n) = n

module _ (match_request : Text → Option (Text × Text)) where
  -- `SniffRequest` once the data is buffered.
  unfoldable pub look_for_request : ℕ → Text → HttpSniffer → HttpSniffer
  look_for_request now buffer s = elim (first_line buffer) [
    | none ↦ record s { req_buffer = buffer }
    | some line ↦ elim (match_request line) [
      | none ↦ record s { req_buffer = keep_or_reset buffer }
      | some (method, path) ↦ record s {
        req_buffer = [];
        current_req = some (record { method = method; path = path; start_time = now });
      }
    ]
  ]

  -- `SniffRequest`
  unfoldable pub sniff_request : ℕ → Text → HttpSniffer → HttpSniffer
  unfolding look_for_request
  sniff_request now bytes s =
      if not s.enabled || is_blank bytes
      then s
      else look_for_request now (buffered s.req_buffer bytes) s

-- The entry of a response, paired with the request that is pending.
unfoldable pub response_entry : ℕ → ℤ → ℤ → Option HttpRequest → HttpLogEntry
response_entry now status size none = record no_http_log {
  timestamp = now;
  status_code = status;
  size = size;
}
response_entry now status size (some request) = record {
  timestamp = now;
  method = request.method;
  path = request.path;
  status_code = status;
  duration = now - request.start_time;
  size = size;
}

-- The length that the headers read so far give, or 0.
unfoldable pub content_length : (Text → Option Text) → Text → ℤ
content_length match_length buffer = elim (match_length buffer) [
  | none ↦ pos 0
  | some n ↦ number_or_zero (atoi n)
]

module _ (match_status match_length : Text → Option Text) where
  -- `SniffResponse` once the data is buffered.
  unfoldable pub look_for_response : ℕ → Text → HttpSniffer → Option HttpSniffer
  unfolding add_http_log content_length
  look_for_response now buffer s = elim (first_line buffer) [
    | none ↦ some (record s { res_buffer = buffer })
    | some line ↦ elim (match_status line) [
      | none ↦ some (record s { res_buffer = keep_or_reset buffer })
      | some code ↦
          add_http_log
            (response_entry now (number_or_zero (atoi code)) (content_length match_length buffer)
              s.current_req)
            (record s { res_buffer = []; current_req = none })
    ]
  ]

  -- `SniffResponse`
  unfoldable pub sniff_response : ℕ → Text → HttpSniffer → Option HttpSniffer
  unfolding look_for_response
  sniff_response now bytes s =
      if not s.enabled || is_blank bytes
      then some s
      else look_for_response now (buffered s.res_buffer bytes) s
