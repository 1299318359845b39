-- ===== src/Fwdmetrics/Forward/Counted.antt =====
-- What the streams of pkg/fwdmetrics/stream.go have counted after a row of reads and writes.
use native.Mathlib.Nat.{mod-add-mod}
use mathlib.Core.Option
use kubefwd.Base.{
  ℕ, ◌+◌, ◌%◌, ◌^◌, ◌≡◌, refl, ap, ◌∙◌, List, [], ◌∷◌, Option, none, some, not, ◌||◌, Text,
  is_blank, length, Bool-cases, true, ℤ, Option-cases, inl, inr, atoi, arith,
}
use kubefwd.Ring.{IsValid}
use kubefwd.Ring.Contents.{put-IsValid, fresh-IsValid}
use kubefwd.Fwdmetrics.Sniffer.{
  HttpSniffer, new_http_sniffer, max_http_logs, sniff_request, sniff_response, look_for_request,
  look_for_response, first_line, buffered, add_http_log, no_http_log, keep_or_reset, response_entry,
  content_length, number_or_zero,
}
use kubefwd.Fwdmetrics.Forward.{
  PortForwardMetrics, enable_http_sniffing, add_bytes_in, add_bytes_out, sniff_read, sniff_written,
  stream_read, stream_write,
}
use kubefwd.Fwdmetrics.Sniffer.Conversation.{max_http_logs-positive}

-- What passes through a stream, with the time.
pub data Transfer : Type 0 where
  received : ℕ → Text → Transfer
  sent : ℕ → Text → Transfer

-- The lengths of what is received, and of what is sent.
unfoldable pub total_in : List Transfer → ℕ
total_in [] = 0
total_in (received now bytes ∷ rest) = length bytes + total_in rest
total_in (sent now bytes ∷ rest) = total_in rest

unfoldable pub total_out : List Transfer → ℕ
total_out [] = 0
total_out (received now bytes ∷ rest) = total_out rest
total_out (sent now bytes ∷ rest) = length bytes + total_out rest

module _ (match_request : Text → Option (Text × Text))
    (match_status match_length : Text → Option Text) where
  sniff_request-logs :
      (now : ℕ) (bytes : Text) (s : HttpSniffer)
      → (sniff_request match_request now bytes s).logs ≡ s.logs
  unfolding sniff_request look_for_request
  sniff_request-logs now bytes s = elim (Bool-cases (not s.enabled || is_blank bytes)) [
    | inl skip ↦ rw skip refl
    | inr look ↦ rw look (elim (Option-cases (first_line (buffered s.req_buffer bytes))) [
      | inl e ↦ rw (e, look_for_request) refl
      | inr (line, e) ↦ elim (Option-cases (match_request line)) [
        | inl d ↦ rw (e, look_for_request, d) refl
        | inr (p, d) ↦ rw (e, look_for_request, d) refl
      ]
    ])
  ]

  sniff_response-IsValid :
      (now : ℕ) (bytes : Text) (s : HttpSniffer)
      → IsValid s.logs
      → (s' : HttpSniffer) × (sniff_response match_status match_length now bytes s ≡ some s')
        × IsValid s'.logs
  unfolding sniff_response look_for_response add_http_log
  sniff_response-IsValid now bytes s v = elim (Bool-cases (not s.enabled || is_blank bytes)) [
    | inl skip ↦ (s, rw skip refl, v)
    | inr look ↦ elim (Option-cases (first_line (buffered s.res_buffer bytes))) [
      | inl e ↦ (
        record s { res_buffer = buffered s.res_buffer bytes },
        rw (look, e, look_for_response) refl,
        v,
      )
      | inr (line, e) ↦ elim (Option-cases (match_status line)) [
        | inl d ↦ (
          record s { res_buffer = keep_or_reset (buffered s.res_buffer bytes) },
          rw (look, e, look_for_response, d) refl,
          v,
        )
        | inr (code, d) ↦
            let entry =
              response_entry now (number_or_zero (atoi code))
                (content_length match_length (buffered s.res_buffer bytes)) s.current_req in
            let (r, p, w) = put-IsValid no_http_log entry s.logs v in
            (
              record s { res_buffer = []; current_req = none; logs = r },
              rw (look, e, look_for_response, d, p) refl,
              w,
            )
      ]
    ]
  ]

  -- A sniffer, if there is one, takes any entry.
  abbrev IsReady : Option HttpSniffer → Type 0
  IsReady none = Unit
  IsReady (some s) = IsValid s.logs

  sniff_read-IsReady :
      (now : ℕ) (bytes : Text) (o : Option HttpSniffer)
      → IsReady o
      → (o' : Option HttpSniffer) × (sniff_read match_request match_status match_length now bytes o
          ≡ some o')
        × IsReady o'
  unfolding sniff_read
  sniff_read-IsReady now bytes none v = (none, refl, tt)
  sniff_read-IsReady now bytes (some s) v =
      let (s', e, w) = sniff_response-IsValid now bytes s v in (some s', rw e refl, w)

  sniff_written-IsReady :
      (now : ℕ) (bytes : Text) (o : Option HttpSniffer)
      → IsReady o
      → IsReady (sniff_written match_request match_status match_length now bytes o)
  unfolding sniff_written
  sniff_written-IsReady now bytes none v = tt
  sniff_written-IsReady now bytes (some s) v = rw (sniff_request-logs now bytes s) v

  -- The counters are these totals modulo 2^64, and the sniffer is ready.
  record IsCounted (i o : ℕ) (m : PortForwardMetrics) : Type 0 where
    ins : m.bytes_in ≡ i % 2 ^ 64
    outs : m.bytes_out ≡ o % 2 ^ 64
    ready : IsReady m.http_sniffer

  IsCounted-eq :
      {i i' o o' : ℕ} {m : PortForwardMetrics}
      → i ≡ i'
      → o ≡ o'
      → IsCounted i o m
      → IsCounted i' o' m
  IsCounted-eq e f c = record {
    ins = c.ins ∙ ap (λ (k : ℕ). k % 2 ^ 64) e;
    outs = c.outs ∙ ap (λ (k : ℕ). k % 2 ^ 64) f;
    ready = c.ready;
  }

  unchanged-IsCounted :
      (i o : ℕ) (bytes : Text) (m : PortForwardMetrics)
      → is_blank bytes ≡ true
      → IsCounted i o m
      → IsCounted (i + length bytes) o m × IsCounted i (o + length bytes) m
  unchanged-IsCounted i o [] m e c =
      (IsCounted-eq (omega arith) refl c, IsCounted-eq refl (omega arith) c)
  unchanged-IsCounted i o (b ∷ bytes) m e c = absurd (ground (arith, e))

  more : {total : ℕ} (n k : ℕ) → total ≡ n % 2 ^ 64 → (total + k) % 2 ^ 64 ≡ (n + k) % 2 ^ 64
  more n k e = ap (λ (t : ℕ). (t + k) % 2 ^ 64) e ∙ mod-add-mod n (2 ^ 64) k

  stream_read-IsCounted :
      (now i o : ℕ) (bytes : Text) (m : PortForwardMetrics)
      → IsCounted i o m
      → (m' : PortForwardMetrics) × (stream_read match_request match_status match_length now bytes m
          ≡ some m')
        × IsCounted (i + length bytes) o m'
  unfolding stream_read add_bytes_in
  stream_read-IsCounted now i o bytes m c = elim (Bool-cases (is_blank bytes)) [
    | inl e ↦ (m, rw e refl, (unchanged-IsCounted i o bytes m e c).0)
    | inr e ↦
        let (s, f, v) = sniff_read-IsReady now bytes m.http_sniffer c.ready in
        (
          record (add_bytes_in now (length bytes) m) { http_sniffer = s },
          rw (e, f) refl,
          record { ins = more i (length bytes) c.ins; outs = c.outs; ready = v },
        )
  ]

  stream_write-IsCounted :
      (now i o : ℕ) (bytes : Text) (m : PortForwardMetrics)
      → IsCounted i o m
      → (m' : PortForwardMetrics) × (stream_write match_request match_status match_length now bytes
            m
          ≡ some m')
        × IsCounted i (o + length bytes) m'
  unfolding stream_write add_bytes_out
  stream_write-IsCounted now i o bytes m c = elim (Bool-cases (is_blank bytes)) [
    | inl e ↦ (m, rw e refl, (unchanged-IsCounted i o bytes m e c).1)
    | inr e ↦ (
      record (add_bytes_out now (length bytes) m) {
        http_sniffer =
            sniff_written match_request match_status match_length now bytes m.http_sniffer;
      },
      rw e refl,
      record {
        ins = c.ins;
        outs = more o (length bytes) c.outs;
        ready = sniff_written-IsReady now bytes m.http_sniffer c.ready;
      },
    )
  ]

  -- A row of reads and writes; `none` is a panic.
  unfoldable pub transfer_all : List Transfer → PortForwardMetrics → Option PortForwardMetrics
  transfer_all [] m = some m
  transfer_all (received now bytes ∷ rest) m =
      Option.bind (stream_read match_request match_status match_length now bytes m)
        (transfer_all rest)
  transfer_all (sent now bytes ∷ rest) m =
      Option.bind (stream_write match_request match_status match_length now bytes m)
        (transfer_all rest)

  transfer_all-IsCounted :
      (transfers : List Transfer) (i o : ℕ) (m : PortForwardMetrics)
      → IsCounted i o m
      → (m' : PortForwardMetrics) × (transfer_all transfers m ≡ some m')
        × IsCounted (i + total_in transfers) (o + total_out transfers) m'
  unfolding transfer_all total_in total_out Option.bind
  transfer_all-IsCounted [] i o m c = (m, refl, IsCounted-eq (omega arith) (omega arith) c)
  transfer_all-IsCounted (received now bytes ∷ rest) i o m c =
      let (m1, e, c1) = stream_read-IsCounted now i o bytes m c in
      let (m2, f, c2) = transfer_all-IsCounted rest (i + length bytes) o m1 c1 in
      (m2, rw e f, IsCounted-eq (omega arith) refl c2)
  transfer_all-IsCounted (sent now bytes ∷ rest) i o m c =
      let (m1, e, c1) = stream_write-IsCounted now i o bytes m c in
      let (m2, f, c2) = transfer_all-IsCounted rest i (o + length bytes) m1 c1 in
      (m2, rw e f, IsCounted-eq refl (omega arith) c2)

  -- Whatever is read and written through a new forward with sniffing enabled, no stream panics, and
  -- the counters are the lengths of all that was read and of all that was written, modulo 2^64.
  pub bytes_in-transfer_all :
      (m : PortForwardMetrics) (max_logs : ℤ) (transfers : List Transfer)
      → m.bytes_in ≡ 0
      → m.bytes_out ≡ 0
      → (m' : PortForwardMetrics) × (transfer_all transfers (enable_http_sniffing max_logs m)
          ≡ some m')
        × (m'.bytes_in ≡ total_in transfers % 2 ^ 64)
        × (m'.bytes_out ≡ total_out transfers % 2 ^ 64)
  unfolding enable_http_sniffing new_http_sniffer
  bytes_in-transfer_all m max_logs transfers h k =
      let start : IsCounted 0 0 (enable_http_sniffing max_logs m) = record {
        ins = h;
        outs = k;
        ready =
            fresh-IsValid no_http_log (max_http_logs max_logs) (max_http_logs-positive max_logs);
      } in
      let (m', e, c) =
        transfer_all-IsCounted transfers 0 0 (enable_http_sniffing max_logs m) start in
      (
        m',
        e,
        c.ins ∙ ap (λ (n : ℕ). n % 2 ^ 64) (omega arith),
        c.outs ∙ ap (λ (n : ℕ). n % 2 ^ 64) (omega arith),
      )
