-- ===== src/Fwdmetrics/Sniffer/Conversation.antt =====
-- pkg/fwdmetrics/httpsniff.go over a row of requests that are each followed by their response.
use native.Mathlib.Nat.{mod-add-mod}
use mathlib.Core.Path.{ap₂}
use kubefwd.Base.{
  ℕ, zero, suc, ◌+◌, ◌-◌, ◌%◌, ◌<◌, ◌≤◌, ◌≡◌, refl, sym, ap, ◌∙◌, List, [], ◌∷◌, map, reverse,
  Option, none, some, true, false, Text, is_blank, ℤ, pos, negsuc, atoi, take, get_or, last, min,
  nat_beq, arith, inl, inr, Bool-cases, All,
}
use mathlib.Core.Option
use kubefwd.Ring.{Ring, fresh, back, newest, contents, put, IsValid}
use kubefwd.Ring.Contents.{put_all, put_all-fresh, take-contents, newest-none}
use kubefwd.Ring.Oldest.{reverse-take-reverse, reverse-last, reverse-newest}
use kubefwd.Fwdmetrics.Sniffer.{
  HttpLogEntry, HttpSniffer, no_http_log, max_http_logs, new_http_sniffer, first_line, buffered,
  add_http_log, read_logs, read_latest, get_http_logs, number_or_zero, response_entry,
  content_length, look_for_request, look_for_response, sniff_request, sniff_response,
}

read_logs-newest :
    (r : Ring HttpLogEntry) (count left i : ℕ)
    → r.head < r.size
    → count ≤ r.size
    → left ≤ count
    → i ≡ (r.head + r.size - count) % r.size + (count - left)
    → read_logs r i left ≡ reverse (newest no_http_log r 0 left)
unfolding read_logs newest back
read_logs-newest r count zero i h le lt e = refl
read_logs-newest r count (suc left) i h le lt e =
    ap₂ ◌∷◌
      (ap (λ (k : ℕ). get_or r.slots k no_http_log)
        (ap (λ (k : ℕ). k % r.size) e
          ∙ mod-add-mod (r.head + r.size - count) r.size (count - suc left)
          ∙ ap (λ (k : ℕ). k % r.size) {y = r.head + r.size - (1 + (0 + left))} (omega arith)))
      (read_logs-newest r count left (suc i) h le (omega arith) (omega arith))
    ∙ sym (reverse-newest no_http_log r 0 left)

read_latest-newest :
    (r : Ring HttpLogEntry) (count : ℕ)
    → IsValid r
    → count ≤ r.size
    → read_latest r count ≡ reverse (newest no_http_log r 0 count)
unfolding read_latest
read_latest-newest r count v le = elim (Bool-cases (nat_beq count 0)) [
  | inl zero_count ↦
      let e : count ≡ 0 = ground arith in
      rw (zero_count) (sym (ap reverse (newest-none no_http_log r 0 count e)))
  | inr more ↦ rw more (
      read_logs-newest r count count ((r.head + r.size - count) % r.size) v.head_within le
        (omega arith) (omega arith))
]

pub max_http_logs-positive : (n : ℤ) → 0 < max_http_logs n
unfolding max_http_logs
max_http_logs-positive (negsuc n) = omega arith
max_http_logs-positive (pos n) = ground arith

-- `GetLogs` for a positive count.
get_http_logs-newest :
    (s : HttpSniffer) (n : ℕ)
    → 0 < n
    → IsValid s.logs
    → get_http_logs (pos n) s ≡ reverse (take n (contents no_http_log s.logs))
unfolding get_http_logs
get_http_logs-newest s n h v =
    ap (read_latest s.logs) {y = min n s.logs.count} (ground arith)
    ∙ read_latest-newest s.logs (min n s.logs.count) v (omega (arith, v.count_within))
    ∙ sym (ap reverse (take-contents no_http_log s.logs n))

-- A request and its response, each passed in one piece.
pub record Exchange : Type 0 where
  pub request : Text
  pub requested_at : ℕ
  pub response : Text
  pub answered_at : ℕ
  pub method : Text
  pub path : Text
  pub status : Text
  pub request_line : Text
  pub status_line : Text

module _ (match_request : Text → Option (Text × Text))
    (match_status match_length : Text → Option Text) where
  -- Both begin, within their first 512 bytes, with a line in which the expressions find the method, the
  -- path and the status.
  pub record IsHttp (e : Exchange) : Type 0 where
    pub request_some : is_blank e.request ≡ false
    pub response_some : is_blank e.response ≡ false
    pub request_first : first_line (take 512 e.request) ≡ some e.request_line
    pub response_first : first_line (take 512 e.response) ≡ some e.status_line
    pub request_match : match_request e.request_line ≡ some (e.method, e.path)
    pub status_match : match_status e.status_line ≡ some e.status

  -- What is to be logged of an exchange.
  pub logged : Exchange → HttpLogEntry
  logged e = record {
    timestamp = e.answered_at;
    method = e.method;
    path = e.path;
    status_code = number_or_zero (atoi e.status);
    duration = e.answered_at - e.requested_at;
    size = content_length match_length (take 512 e.response);
  }

  -- The request passes, then the response; `none` is a panic.
  pub converse : List Exchange → HttpSniffer → Option HttpSniffer
  converse [] s = some s
  converse (e ∷ rest) s =
      Option.bind
        (sniff_response match_status match_length e.answered_at e.response
          (sniff_request match_request e.requested_at e.request s))
        (converse rest)

  -- Nothing is pending, and the buffers are empty.
  abbrev idle : Ring HttpLogEntry → HttpSniffer
  idle r = record { req_buffer = []; res_buffer = []; current_req = none; logs = r; enabled = true }

  -- The request of an exchange is pending.
  abbrev waiting : Exchange → Ring HttpLogEntry → HttpSniffer
  waiting e r = record (idle r) {
    current_req = some (record { method = e.method; path = e.path; start_time = e.requested_at });
  }

  sniff_request-waiting :
      (e : Exchange) (r : Ring HttpLogEntry)
      → IsHttp e
      → sniff_request match_request e.requested_at e.request (idle r) ≡ waiting e r
  unfolding sniff_request look_for_request buffered
  sniff_request-waiting e r h =
      rw (h.request_some, h.request_first, look_for_request, h.request_match) refl

  sniff_response-waiting :
      (e : Exchange) (r : Ring HttpLogEntry)
      → IsHttp e
      → sniff_response match_status match_length e.answered_at e.response (waiting e r)
        ≡ Option.map idle (put (logged e) r)
  unfolding logged sniff_response look_for_response buffered add_http_log response_entry
      content_length
  sniff_response-waiting e r h =
      rw (h.response_some, h.response_first, look_for_response, h.status_match) refl

  converse-put_all :
      (exchanges : List Exchange) (r : Ring HttpLogEntry)
      → All IsHttp exchanges
      → converse exchanges (idle r) ≡ Option.map idle (put_all no_http_log (map logged exchanges) r)
  unfolding converse put_all Option.bind
  converse-put_all [] r all = refl
  converse-put_all (e ∷ rest) r all =
      ap
        (λ (s : HttpSniffer).
          Option.bind (sniff_response match_status match_length e.answered_at e.response s)
            (converse rest))
        (sniff_request-waiting e r all.0)
      ∙ ap (λ (o : Option HttpSniffer). Option.bind o (converse rest))
          (sniff_response-waiting e r all.0)
      ∙ next (put (logged e) r) (λ r'. converse-put_all rest r' all.1)
    where
      next :
          (o : Option (Ring HttpLogEntry))
          → ((r' : Ring HttpLogEntry)
              → converse rest (idle r')
                ≡ Option.map idle (put_all no_http_log (map logged rest) r'))
          → Option.bind (Option.map idle o) (converse rest)
            ≡ Option.map idle (elim o as (λ x. Option (Ring HttpLogEntry)) [
              | none ↦ none
              | some r' ↦ put_all no_http_log (map logged rest) r'
            ])
      next none ih = refl
      next (some r') ih = ih r'

  -- After a row of HTTP requests that are each followed by their response, all of them passed in one
  -- piece, a new sniffer has not panicked, and `GetLogs` for a positive count returns the latest
  -- exchanges in their order, as many as are asked for and at most the capacity: each with the method
  -- and path of its request, the status and length of its response, and the time between them.
  pub get_http_logs-converse :
      (capacity : ℤ) (exchanges : List Exchange)
      → All IsHttp exchanges
      → (s : HttpSniffer) × (converse exchanges (new_http_sniffer capacity) ≡ some s)
        × ((n : ℕ)
            → 0 < n
            → get_http_logs (pos n) s
              ≡ last n (last (max_http_logs capacity) (map logged exchanges)))
  unfolding new_http_sniffer
  get_http_logs-converse capacity exchanges all =
      let size = max_http_logs capacity in
      let (r, e, v, _, held) =
        put_all-fresh no_http_log (map logged exchanges) size (max_http_logs-positive capacity) in
      (
        idle r,
        converse-put_all exchanges (fresh no_http_log size) all ∙ ap (Option.map idle) e,
        λ n h.
            get_http_logs-newest (idle r) n h v
            ∙ ap (λ (l : List HttpLogEntry). reverse (take n l))
                (held ∙ sym (reverse-last size (map logged exchanges)))
            ∙ reverse-take-reverse n (last size (map logged exchanges)),
      )
