-- ===== src/Fwdtui/Tests.antt =====
-- The state of the terminal interface on small inputs; rates are counted in whole bytes here.
use kubefwd.Base.{
  last, ℕ, ◌+◌, ◌≡◌, refl, List, [], ◌∷◌, some, false, Text, text_key, ascii, pos, min, arith,
  lookup, insert, contains,
}
use kubefwd.Base.{values}
use kubefwd.Fwdtui.Events.{new_bus, dispatch}
use kubefwd.Fwdtui.Events.Times.{times}
use kubefwd.Fwdtui.Events.Calls.{
  Op, on, on_all, off, once_if, is_on, is_on_all, apply_ops, subscriptions, dispatch-apply_ops,
}
use kubefwd.Fwdtui.State.{
  ServiceSnapshot, update_hostnames, update_service_aggregate, count_forwards, count_forward,
  active, error, ForwardSnapshot, Store, LogEntry, new_store, add_forward, remove_by_namespace,
  get_logs, max_logs_allocation,
}
use kubefwd.Fwdtui.State.Logs.{add_logs, get_logs-add_logs}
use kubefwd.Fwdtui.State.Tallied.{started, added, Changes-recount}
use kubefwd.Fwdtui.State.Blocked.{
  Update, forward_added, status_updated, IsRemoved, apply_all, apply_all-remove_by_namespace,
}

abbrev web : ForwardSnapshot ℕ
web = record {
  key = ascii "web.ns.ctx.web-0.80";
  service_key = ascii "web.ns.ctx";
  registry_key = ascii "web.ns.ctx";
  service_name = ascii "web";
  namespace = ascii "ns";
  cluster = ascii "ctx";
  headless = false;
  pod_name = ascii "web-0";
  container_name = ascii "nginx";
  local_ip = ascii "127.1.27.1";
  local_port = ascii "80";
  pod_port = ascii "8080";
  hostnames = [];
  status = active;
  error_text = [];
  started_at = 0;
  last_active = 0;
  bytes_in = 5;
  bytes_out = 7;
  rate_in = 0;
  rate_out = 0;
  avg_rate_in = 0;
  avg_rate_out = 0;
}

abbrev with_web : Store ℕ
with_web = add_forward 0 (λ a b. a + b) web (new_store (pos 2))

shown : lookup (ascii "web.ns.ctx.web-0.80") with_web.forwards ≡ some web
unfolding add_forward new_store lookup insert contains
shown = refl

abbrev late : List (Update 0 (λ (a b : ℕ). a + b) (ascii "ns") (ascii "ctx"))
late = forward_added web ∷ status_updated (ascii "web.ns.ctx.web-0.80") error [] ∷ []

apply_all-remove_by_namespace_example :
    IsRemoved 0
      (λ (a b : ℕ). a + b)
      (ascii "ns")
      (ascii "ctx")
      (apply_all 0
        (λ (a b : ℕ). a + b)
        (ascii "ns")
        (ascii "ctx")
        late
        (remove_by_namespace (ascii "ns") (ascii "ctx") with_web).0)
apply_all-remove_by_namespace_example =
    apply_all-remove_by_namespace 0 (λ a b. a + b) (ascii "ns") (ascii "ctx") late with_web

abbrev said : Text → LogEntry
said text = record { timestamp = 0; level = []; message = text; color = [] }

abbrev three_entries : List LogEntry
three_entries = said (ascii "a") ∷ said (ascii "b") ∷ said (ascii "c") ∷ []

get_logs-add_logs_example :
    get_logs (pos 5) (add_logs three_entries (new_store {Rate = ℕ} (pos 2)))
    ≡ last (min 5 max_logs_allocation) (last 2 three_entries)
get_logs-add_logs_example = get_logs-add_logs ℕ 2 5 three_entries (omega arith) (omega arith)

abbrev service_of : Text → Text
service_of key = ascii "web.ns.ctx"

abbrev web_service : ServiceSnapshot ℕ
web_service = record {
  key = ascii "web.ns.ctx";
  service_name = ascii "web";
  namespace = ascii "ns";
  cluster = ascii "ctx";
  headless = false;
  total_bytes_in = 5;
  total_bytes_out = 7;
  total_rate_in = 0;
  total_rate_out = 0;
  active_count = 1;
  error_count = 0;
  port_forwards = web ∷ [];
}

Changes-recount_example :
    (web_service.key ≡ ascii "web.ns.ctx")
    × (update_service_aggregate 0 (λ a b. a + b) with_web.forwards web_service ≡ web_service)
unfolding add_forward new_store lookup insert contains update_service_aggregate count_forwards
    count_forward values
Changes-recount_example =
    Changes-recount 0 (λ a b. a + b) service_of with_web (ascii "web.ns.ctx") web_service
      (added web (new_store (pos 2)) refl (started (pos 2))) refl

-- The copy of the forward that its service holds does not get the host names.
stale_hostnames :
    lookup
      (ascii "web.ns.ctx")
      (update_hostnames (ascii "web.ns.ctx.web-0.80") (ascii "web" ∷ []) with_web).services
    ≡ some web_service
unfolding add_forward new_store lookup insert contains update_service_aggregate count_forwards
    count_forward values update_hostnames
stale_hostnames = refl

abbrev three_ops : List Op
three_ops = on 3 7 ∷ on_all 8 ∷ off 3 0 ∷ []

dispatch-apply_ops_example :
    times 1
      (dispatch (record { event_type = 3; payload = 0 }) (apply_ops three_ops (new_bus (pos 10))))
    ≡ once_if (is_on 1 3 0 three_ops false) + once_if (is_on_all 1 0 three_ops false)
unfolding subscriptions
dispatch-apply_ops_example =
    dispatch-apply_ops (pos 10) three_ops (record { event_type = 3; payload = 0 }) 1 (omega arith)
