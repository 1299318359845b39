-- ===== src/Fwdservice/Reconnect.antt =====
-- Reconnection in pkg/fwdservice/fwdservice.go: `scheduleReconnect`, `ResetReconnectBackoff`,
-- `ForceReconnect` and `UpdateService`. Durations are whole seconds.
pub mod Backoff
pub mod Attempts
use kubefwd.Base.{
  ℕ, ◌+◌, ◌*◌, List, [], ◌∷◌, ◌++◌, Option, none, some, Bool, true, false, not, Text, nat_beq, ltb,
  if◌then◌else◌,
}
use kubefwd.Fwdip.Types.{Ip}
use kubefwd.Fwdservice.Types.{Pod, ServiceSpec, ServiceFwd}
use kubefwd.Fwdservice.Forwards.{stop_all_port_forwards}
use kubefwd.Fwdservice.Sync.{do_sync_pods}

abbrev pub initial_reconnect_backoff : ℕ
initial_reconnect_backoff = 1

abbrev pub max_reconnect_backoff : ℕ
max_reconnect_backoff = 300

-- The goroutine of `scheduleReconnect`: it waits, and then synchronises.
pub data Attempt : Type 0 where
  waiting : ℕ → Attempt
  syncing : Attempt

-- The reconnection state of a service: `done` is a closed `DoneChannel`, and `attempts` are the
-- goroutines that have not ended.
pub record Reconnection : Type 0 where
  pub auto_reconnect : Bool
  pub backoff : ℕ
  pub reconnecting : Bool
  pub done : Bool
  pub attempts : List Attempt
  pub service : ServiceFwd

-- The wait that `scheduleReconnect` takes.
abbrev pub next_wait : Reconnection → ℕ
next_wait r = if nat_beq r.backoff 0 then initial_reconnect_backoff else r.backoff

abbrev pub capped : ℕ → ℕ
capped d = if ltb max_reconnect_backoff d then max_reconnect_backoff else d

-- `scheduleReconnect`: the state, and whether a reconnection was scheduled.
unfoldable pub schedule_reconnect : Reconnection → Reconnection × Bool
schedule_reconnect r =
    if not r.auto_reconnect
    then (r, false)
    else if r.done
    then (r, false)
    else if r.reconnecting
    then (r, false)
    else (
      record r {
        reconnecting = true;
        backoff = capped (next_wait r * 2);
        attempts = r.attempts ++ waiting (next_wait r) ∷ [];
      },
      true,
    )

-- `ResetReconnectBackoff`
unfoldable pub reset_reconnect_backoff : Reconnection → Reconnection
reset_reconnect_backoff r = if not (nat_beq r.backoff 0) then record r { backoff = 0 } else r

-- The end of a goroutine: its deferred function, with the other goroutines that are left.
unfoldable pub finish : List Attempt → Reconnection → Reconnection
finish others r = record r { attempts = others; reconnecting = false }

module _ (local_ip : Text → Pod → Option Ip) (listed : Option (List Pod)) (now : ℕ) where
  -- `SyncPodForwards(true)`
  unfoldable pub sync_forced : Reconnection → Reconnection
  sync_forced r = record r { service = do_sync_pods local_ip listed now r.service }

  -- `ForceReconnect`
  unfoldable pub force_reconnect : Reconnection → Reconnection
  unfolding sync_forced
  force_reconnect r =
      sync_forced
        (record r { backoff = 0; reconnecting = false; service = stop_all_port_forwards r.service })

  -- `UpdateService`; the wait for the stopped forwards ends by their end or by its limit.
  unfoldable pub update_service : ServiceSpec → Reconnection → Reconnection
  unfolding sync_forced
  update_service spec r =
      let stopped = record r {
        service = stop_all_port_forwards (record r.service { updated_spec = some spec });
      } in
      if r.done then stopped else sync_forced stopped
