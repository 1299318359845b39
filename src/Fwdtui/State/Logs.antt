-- ===== src/Fwdtui/State/Logs.antt =====
-- The log of pkg/fwdtui/state/store.go: which entries it keeps and returns.
use mathlib.Core.List.{append-nil, append_assoc}
use kubefwd.Base.{
  ℕ, ◌<◌, ◌≤◌, ◌≡◌, refl, sym, ap, ◌∙◌, ◌++◌, List, [], ◌∷◌, pos, length, ltb, min, inl, last,
  last-ge, length-last, last-append, last-min, inr, Bool-cases, arith,
}
use kubefwd.Ring.{bounded_size}
use kubefwd.Fwdtui.State.{Store, LogEntry, new_store, add_log, get_logs, max_logs_allocation}

module _ {Rate : Type 0} where
  add_log-logs :
      (entry : LogEntry) (s : Store Rate)
      → (add_log entry s).logs ≡ last s.max_log_size (s.logs ++ entry ∷ [])
  unfolding add_log
  add_log-logs entry s = elim (Bool-cases (ltb s.max_log_size (length (s.logs ++ entry ∷ [])))) [
    | inl h ↦ rw h refl
    | inr h ↦ rw h (sym (last-ge s.max_log_size (s.logs ++ entry ∷ []) (ground arith)))
  ]

  -- A row of calls of `AddLog`.
  pub add_logs : List LogEntry → Store Rate → Store Rate
  add_logs [] s = s
  add_logs (entry ∷ rest) s = add_logs rest (add_log entry s)

  add_logs-logs :
      (entries : List LogEntry) (s : Store Rate)
      → length s.logs ≤ s.max_log_size
      → (add_logs entries s).logs ≡ last s.max_log_size (s.logs ++ entries)
  unfolding add_logs add_log
  add_logs-logs [] s h =
      sym (last-ge s.max_log_size (s.logs ++ []) (rw (append-nil s.logs) h) ∙ append-nil s.logs)
  add_logs-logs (entry ∷ rest) s h =
      let e = add_log-logs entry s in
      add_logs-logs rest (add_log entry s)
        (rw e (omega (arith, length-last s.max_log_size (s.logs ++ entry ∷ []))))
      ∙ ap (λ (l : List LogEntry). last s.max_log_size (l ++ rest)) e
      ∙ last-append s.max_log_size (s.logs ++ entry ∷ []) rest
      ∙ ap (last s.max_log_size) (append_assoc s.logs (entry ∷ []) rest)

  get_logs-last :
      (n : ℕ) (s : Store Rate)
      → 0 < n
      → get_logs (pos n) s ≡ last (min n max_logs_allocation) s.logs
  unfolding get_logs bounded_size
  get_logs-last n s h =
      ap (λ (k : ℕ). last k s.logs) (ground arith) ∙ last-min (min n max_logs_allocation) s.logs

-- After any entries have been logged in a new store of positive size, `GetLogs` for a positive count
-- returns the latest of them in their order: as many as are asked for, but at most ten thousand and
-- at most the size.
pub get_logs-add_logs :
    (Rate : Type 0) (size n : ℕ) (entries : List LogEntry)
    → 0 < size
    → 0 < n
    → get_logs (pos n) (add_logs entries (new_store {Rate = Rate} (pos size)))
      ≡ last (min n max_logs_allocation) (last size entries)
unfolding new_store
get_logs-add_logs Rate size n entries h k =
    get_logs-last n (add_logs entries (new_store {Rate = Rate} (pos size))) k
    ∙ ap (last (min n max_logs_allocation)) (
        add_logs-logs entries (new_store {Rate = Rate} (pos size)) (omega arith)
        ∙ ap (λ (m : ℕ). last m entries) (ground arith))
