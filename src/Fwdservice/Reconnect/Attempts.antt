-- ===== src/Fwdservice/Reconnect/Attempts.antt =====
-- How many reconnections of pkg/fwdservice/fwdservice.go are under way at once.
use kubefwd.Base.{
  ℕ, ◌*◌, ◌≡◌, ◌⊎◌, inl, inr, refl, sym, ◌∙◌, List, [], ◌∷◌, ◌++◌, Option, true, false, Text, arith,
}
use kubefwd.Fwdip.Types.{Ip}
use kubefwd.Fwdservice.Types.{Pod, ServiceSpec}
use kubefwd.Fwdservice.Reconnect.{
  Attempt, waiting, syncing, Reconnection, next_wait, capped, schedule_reconnect, finish,
  reset_reconnect_backoff, sync_forced, force_reconnect, update_service,
}

-- What can happen to a service while nobody forces a reconnection: a failure, a success, an update of
-- its spec, the shutdown, and the progress of a goroutine.
pub data Step (local_ip : Text → Pod → Option Ip) : Reconnection → Reconnection → Type 0 where
  failed : (r : Reconnection) → Step local_ip r (schedule_reconnect r).0
  connected : (r : Reconnection) → Step local_ip r (reset_reconnect_backoff r)
  updated :
      (listed : Option (List Pod)) (now : ℕ) (spec : ServiceSpec) (r : Reconnection)
      → Step local_ip r (update_service local_ip listed now spec r)
  shut_down : (r : Reconnection) → Step local_ip r (record r { done = true })
  due :
      (listed : Option (List Pod)) (now wait : ℕ) (before after : List Attempt) (r : Reconnection)
      → r.attempts ≡ before ++ waiting wait ∷ after
      → r.done ≡ false
      → Step local_ip r
          (sync_forced local_ip listed now (record r { attempts = before ++ syncing ∷ after }))
  abandoned :
      (wait : ℕ) (before after : List Attempt) (r : Reconnection)
      → r.attempts ≡ before ++ waiting wait ∷ after
      → r.done ≡ true
      → Step local_ip r (finish (before ++ after) r)
  synced :
      (before after : List Attempt) (r : Reconnection)
      → r.attempts ≡ before ++ syncing ∷ after
      → Step local_ip r (finish (before ++ after) r)

pub data Steps (local_ip : Text → Pod → Option Ip) : Reconnection → Reconnection → Type 0 where
  here : (r : Reconnection) → Steps local_ip r r
  and_then : (r s t : Reconnection) → Steps local_ip r s → Step local_ip s t → Steps local_ip r t

-- `reconnecting` is set exactly while one goroutine is under way, and there is never another.
unfoldable pub IsGuarded : Reconnection → Type 0
IsGuarded r =
    ((r.attempts ≡ []) × (r.reconnecting ≡ false))
    ⊎ ((a : Attempt) × (r.attempts ≡ a ∷ []) × (r.reconnecting ≡ true))

middle :
    (a b : Attempt) (before after : List Attempt)
    → a ∷ [] ≡ before ++ b ∷ after
    → (before ≡ []) × (after ≡ [])
middle a b [] [] e = (refl, refl)
middle a b [] (c ∷ after) e = ground arith
middle a b (c ∷ []) after e = ground arith
middle a b (c ∷ d ∷ before) after e = ground arith

empty-middle : (b : Attempt) (before after : List Attempt) → [] ≡ before ++ b ∷ after → ⊥
empty-middle b [] after e = ground arith
empty-middle b (c ∷ before) after e = ground arith

-- The only goroutine is the one at the place that the step names.
only :
    (r : Reconnection) (b : Attempt) (before after : List Attempt)
    → IsGuarded r
    → r.attempts ≡ before ++ b ∷ after
    → (before ≡ []) × (after ≡ []) × (r.reconnecting ≡ true)
unfolding IsGuarded
only r b before after (inl h) e = absurd (empty-middle b before after (sym h.0 ∙ e))
only r b before after (inr h) e = let m = middle h.0 b before after (sym h.1 ∙ e) in (m.0, m.1, h.2)

-- The guard reads two fields.
IsGuarded-subst :
    (r s : Reconnection)
    → s.attempts ≡ r.attempts
    → s.reconnecting ≡ r.reconnecting
    → IsGuarded r
    → IsGuarded s
unfolding IsGuarded
IsGuarded-subst r s e f (inl h) = inl (e ∙ h.0, f ∙ h.1)
IsGuarded-subst r s e f (inr h) = inr (h.0, e ∙ h.1, f ∙ h.2)

abbrev scheduled : Reconnection → Reconnection
scheduled r = record r {
  reconnecting = true;
  backoff = capped (next_wait r * 2);
  attempts = r.attempts ++ waiting (next_wait r) ∷ [];
}

schedule_reconnect-cases :
    (r : Reconnection)
    → ((schedule_reconnect r).0 ≡ r)
      ⊎ ((r.reconnecting ≡ false) × ((schedule_reconnect r).0 ≡ scheduled r))
unfolding schedule_reconnect
schedule_reconnect-cases r = ground arith

scheduled-IsGuarded :
    (r : Reconnection) → r.reconnecting ≡ false → IsGuarded r → IsGuarded (scheduled r)
unfolding IsGuarded
scheduled-IsGuarded r idle (inl h) = inr (waiting (next_wait r), rw h.0 refl, refl)
scheduled-IsGuarded r idle (inr h) = ground arith

Step-IsGuarded :
    (local_ip : Text → Pod → Option Ip) (r s : Reconnection)
    → Step local_ip r s
    → IsGuarded r
    → IsGuarded s
unfolding IsGuarded schedule_reconnect reset_reconnect_backoff update_service finish sync_forced
Step-IsGuarded local_ip r s (failed _) h = elim (schedule_reconnect-cases r) [
  | inl e ↦ rw e h
  | inr (idle, e) ↦ rw e (scheduled-IsGuarded r idle h)
]
Step-IsGuarded local_ip r s (connected _) h =
    IsGuarded-subst r (reset_reconnect_backoff r) (ground arith) (ground arith) h
Step-IsGuarded local_ip r s (updated listed now spec _) h =
    IsGuarded-subst r (update_service local_ip listed now spec r) (ground arith) (ground arith) h
Step-IsGuarded local_ip r s (shut_down _) h = h
Step-IsGuarded local_ip r s (due listed now wait before after _ e up) h =
    let o = only r (waiting wait) before after h e in inr (syncing, rw (o.0, o.1) refl, o.2)
Step-IsGuarded local_ip r s (abandoned wait before after _ e down) h =
    let o = only r (waiting wait) before after h e in inl (rw (o.0, o.1) refl, refl)
Step-IsGuarded local_ip r s (synced before after _ e) h =
    let o = only r syncing before after h e in inl (rw (o.0, o.1) refl, refl)

-- From a service with no reconnection under way, whatever happens short of `ForceReconnect`, at most
-- one reconnection is under way, and `reconnecting` is set exactly while one is.
pub Steps-IsGuarded :
    (local_ip : Text → Pod → Option Ip) (r s : Reconnection)
    → r.attempts ≡ []
    → r.reconnecting ≡ false
    → Steps local_ip r s
    → IsGuarded s
unfolding IsGuarded
Steps-IsGuarded local_ip r s none_left idle (here _) = inl (none_left, idle)
Steps-IsGuarded local_ip r t none_left idle (and_then _ s _ before last) =
    Step-IsGuarded local_ip s t last (Steps-IsGuarded local_ip r s none_left idle before)

-- With automatic reconnection on, for a service that is not shut down, a failure after `ForceReconnect`
-- schedules one more reconnection, however many are under way.
pub schedule_reconnect-force_reconnect :
    (local_ip : Text → Pod → Option Ip) (listed : Option (List Pod)) (now : ℕ) (r : Reconnection)
    → r.auto_reconnect ≡ true
    → r.done ≡ false
    → (schedule_reconnect (force_reconnect local_ip listed now r)).0.attempts
      ≡ r.attempts ++ waiting 1 ∷ []
unfolding schedule_reconnect force_reconnect
schedule_reconnect-force_reconnect local_ip listed now r auto up = rw (auto, up) refl
