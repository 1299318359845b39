-- ===== src/Fwdsvcregistry/Shutdown.antt =====
-- The shutdown of the registry of pkg/fwdsvcregistry/fwdsvcregistry.go.
use kubefwd.Base.{
  ◌≡◌, ◌⊎◌, inl, inr, refl, ap, ◌∙◌, List, [], ◌∷◌, none, some, true, false, Text, text_key,
  text_beq_iff, ◌==◌, Dict, lookup, insert, keys, lookup-insert_self, lookup-erase, contains, All,
  arith, Bool-cases, Option-cases,
}
use kubefwd.Fwdservice.Reconnect.{Reconnection}
use kubefwd.Fwdsvcregistry.{
  ServicesRegistry, name_of, add_checked, add_service, stop_service, remove_by_name, remove_names,
  shut_down_all, on_shut_down_signal,
}
use kubefwd.Fwdsvcregistry.Laws.{
  KeysIn, keys-KeysIn, erase-KeysIn, absent-KeysIn, KeysIn-none, IsStopped, stop_service-IsStopped,
}

-- What is left once the names have been gone through.
record Removing (ks : List Text) (r : ServicesRegistry) : Type 0 where
  within : KeysIn ks r.services
  stopped : All IsStopped r.stopped
  signal : r.shut_down_signal ≡ true

remove_by_name-Removing :
    (k : Text) (ks : List Text) (r : ServicesRegistry)
    → Removing (k ∷ ks) r
    → Removing ks (remove_by_name k r)
unfolding remove_by_name
remove_by_name-Removing k ks r h = elim (Option-cases (lookup k r.services)) [
  | inl e ↦
      rw (e, remove_by_name)
        (record {
          within = absent-KeysIn k ks r.services e h.within;
          stopped = h.stopped;
          signal = h.signal;
        })
  | inr (svc, e) ↦
      rw (e, remove_by_name)
        (record {
          within = erase-KeysIn k ks r.services h.within;
          stopped = (stop_service-IsStopped svc, h.stopped);
          signal = h.signal;
        })
]

remove_names-Removing :
    (ks : List Text) (r : ServicesRegistry) → Removing ks r → Removing [] (remove_names ks r)
unfolding remove_names
remove_names-Removing [] r h = h
remove_names-Removing (k ∷ ks) r h =
    remove_names-Removing ks (remove_by_name k r) (remove_by_name-Removing k ks r h)

-- Services that are added one after the other.
unfoldable pub add_services : List Reconnection → ServicesRegistry → ServicesRegistry
add_services [] r = r
add_services (svc ∷ rest) r = add_services rest (add_service svc r)

add_services-late :
    (svcs : List Reconnection) (r : ServicesRegistry)
    → r.shut_down_signal ≡ true
    → add_services svcs r ≡ r
unfolding add_services add_service
add_services-late [] r e = refl
add_services-late (svc ∷ rest) r e =
    ap (add_services rest) (same svc e) ∙ add_services-late rest r e
  where
    same : (svc : Reconnection) → r.shut_down_signal ≡ true → add_service svc r ≡ r
    same svc e = ground arith

-- Nothing is registered, every service that was removed is stopped, and the shutdown is announced.
pub record IsShutDown (r : ServicesRegistry) : Type 0 where
  pub empty : r.services ≡ []
  pub stopped : All IsStopped r.stopped
  pub announced : r.done_signal ≡ true

-- The names are gone through while services are added: each row before one removal.
unfoldable pub remove_names_among :
    List Text → List (List Reconnection) → ServicesRegistry → ServicesRegistry
remove_names_among [] rows r = r
remove_names_among (k ∷ ks) [] r = remove_names_among ks [] (remove_by_name k r)
remove_names_among (k ∷ ks) (svcs ∷ rows) r =
    remove_names_among ks rows (remove_by_name k (add_services svcs r))

-- The shutdown with additions: `first` once the signal is given and before the names are read, `rows`
-- between the removals.
unfoldable pub shut_down_among :
    List Reconnection → List (List Reconnection) → ServicesRegistry → ServicesRegistry
shut_down_among first rows r =
    let signalled = add_services first (record r { shut_down_signal = true }) in
    record (remove_names_among (keys signalled.services) rows signalled) { done_signal = true }

remove_by_name-shut_down_signal :
    (k : Text) (r : ServicesRegistry)
    → r.shut_down_signal ≡ true
    → (remove_by_name k r).shut_down_signal ≡ true
unfolding remove_by_name
remove_by_name-shut_down_signal k r e = ground arith

remove_names_among-late :
    (ks : List Text) (rows : List (List Reconnection)) (r : ServicesRegistry)
    → r.shut_down_signal ≡ true
    → remove_names_among ks rows r ≡ remove_names ks r
unfolding remove_names_among remove_names
remove_names_among-late [] rows r e = refl
remove_names_among-late (k ∷ ks) [] r e =
    remove_names_among-late ks [] (remove_by_name k r) (remove_by_name-shut_down_signal k r e)
remove_names_among-late (k ∷ ks) (svcs ∷ rows) r e =
    ap (λ (s : ServicesRegistry). remove_names_among ks rows (remove_by_name k s))
      (add_services-late svcs r e)
    ∙ remove_names_among-late ks rows (remove_by_name k r) (remove_by_name-shut_down_signal k r e)

shut_down_among-late :
    (first : List Reconnection) (rows : List (List Reconnection)) (r : ServicesRegistry)
    → shut_down_among first rows r ≡ on_shut_down_signal r
unfolding shut_down_among on_shut_down_signal shut_down_all
shut_down_among-late first rows r =
    let signalled : ServicesRegistry = record r { shut_down_signal = true } in
    ap
      (λ (s : ServicesRegistry). record (remove_names_among (keys s.services) rows s) {
        done_signal = true;
      })
      (add_services-late first signalled refl)
    ∙ ap (λ (s : ServicesRegistry). record s { done_signal = true })
        (remove_names_among-late (keys r.services) rows signalled refl)

on_shut_down_signal-Removing :
    (r : ServicesRegistry) → All IsStopped r.stopped → Removing [] (on_shut_down_signal r)
unfolding on_shut_down_signal shut_down_all
on_shut_down_signal-Removing r h =
    let left =
      remove_names-Removing (keys r.services) (record r { shut_down_signal = true })
        (record { within = keys-KeysIn r.services; stopped = h; signal = refl }) in
    record { within = left.within; stopped = left.stopped; signal = left.signal }

-- From a registry whose removed services are stopped, services that are added after the signal, be it
-- before the shutdown reads the names, between any two removals or after its end, change nothing, the
-- synchronisations that have begun included: the registry is the one that the shutdown alone leaves. In
-- it no service is registered, every service that was removed is stopped, and the end is announced.
pub add_services-on_shut_down_signal :
    (first : List Reconnection) (rows : List (List Reconnection)) (after : List Reconnection)
    (r : ServicesRegistry)
    → All IsStopped r.stopped
    → (add_services after (shut_down_among first rows r) ≡ on_shut_down_signal r)
      × IsShutDown (on_shut_down_signal r)
unfolding on_shut_down_signal
add_services-on_shut_down_signal first rows after r h =
    let left = on_shut_down_signal-Removing r h in
    (
      ap (add_services after) (shut_down_among-late first rows r)
          ∙ add_services-late after (on_shut_down_signal r) left.signal,
      record { empty = KeysIn-none _ left.within; stopped = left.stopped; announced = refl },
    )

-- An `Add` that has looked at the signal before it was given, and goes on after the shutdown of the
-- registry has ended, registers its service all the same.
pub add_checked-on_shut_down_signal :
    (svc : Reconnection) (r : ServicesRegistry)
    → All IsStopped r.stopped
    → (lookup (name_of svc) (add_checked svc (on_shut_down_signal r)).services ≡ some svc)
      × ((add_checked svc (on_shut_down_signal r)).done_signal ≡ true)
unfolding add_checked lookup insert
add_checked-on_shut_down_signal svc r h =
    let (alone, down) = add_services-on_shut_down_signal [] [] [] r h in
    let e : lookup (name_of svc) (on_shut_down_signal r).services ≡ none = rw (down.empty) refl in
    (
      rw (e, add_checked) (lookup-insert_self (name_of svc) svc (on_shut_down_signal r).services),
      rw (e, add_checked) down.announced,
    )

abbrev pub IsIn : {A : Type 0} → A → List A → Type 0
IsIn x [] = ⊥
IsIn x (y ∷ ys) = (x ≡ y) ⊎ IsIn x ys

remove_by_name-IsIn :
    (x : Reconnection) (k : Text) (r : ServicesRegistry)
    → IsIn x r.stopped
    → IsIn x (remove_by_name k r).stopped
unfolding remove_by_name
remove_by_name-IsIn x k r h = elim (Option-cases (lookup k r.services)) [
  | inl e ↦ rw (e, remove_by_name) h
  | inr (svc, e) ↦ rw (e, remove_by_name) (inr h)
]

remove_names-IsIn :
    (x : Reconnection) (ks : List Text) (r : ServicesRegistry)
    → IsIn x r.stopped
    → IsIn x (remove_names ks r).stopped
unfolding remove_names
remove_names-IsIn x [] r h = h
remove_names-IsIn x (k ∷ ks) r h =
    remove_names-IsIn x ks (remove_by_name k r) (remove_by_name-IsIn x k r h)

remove_by_name-lookup :
    (k j : Text) (r : ServicesRegistry)
    → (k == j) ≡ false
    → lookup j (remove_by_name k r).services ≡ lookup j r.services
unfolding remove_by_name
remove_by_name-lookup k j r ne = ground (arith, lookup-erase k j r.services)

removed-IsIn :
    (ks : List Text) (j : Text) (svc : Reconnection) (r : ServicesRegistry)
    → contains j ks ≡ true
    → lookup j r.services ≡ some svc
    → IsIn (stop_service svc) (remove_names ks r).stopped
unfolding remove_names contains remove_by_name
removed-IsIn [] j svc r c e = ground arith
removed-IsIn (k ∷ ks) j svc r c e = elim (Bool-cases (k == j)) [
  | inl same ↦
      remove_names-IsIn (stop_service svc) ks (remove_by_name k r)
        (stopped_now ((text_beq_iff k j).0 same))
  | inr other ↦
      removed-IsIn ks j svc (remove_by_name k r) (ground (arith, text_beq_iff k j))
        (remove_by_name-lookup k j r other ∙ e)
]
  where
    stopped_now : k ≡ j → IsIn (stop_service svc) (remove_by_name k r).stopped
    stopped_now same =
        let found : lookup k r.services ≡ some svc =
          ap (λ (n : Text). lookup n r.services) same ∙ e in
        rw (found, remove_by_name) (inl refl)

lookup-contains {ℓ} :
    {V : Type ℓ} (j : Text) (v : V) (d : Dict Text V)
    → lookup j d ≡ some v
    → contains j (keys d) ≡ true
unfolding lookup contains keys
lookup-contains j v [] e = ground arith
lookup-contains j v ((k, w) ∷ rest) e =
    ground (arith, text_beq_iff j k, text_beq_iff k j, lookup-contains j v rest)

-- A service that is registered when the shutdown signal is given is among the stopped ones after the
-- shutdown, as `RemoveByName` leaves it.
pub on_shut_down_signal-stop_service :
    (name : Text) (svc : Reconnection) (r : ServicesRegistry)
    → lookup name r.services ≡ some svc
    → IsIn (stop_service svc) (on_shut_down_signal r).stopped
unfolding on_shut_down_signal shut_down_all
on_shut_down_signal-stop_service name svc r e =
    removed-IsIn (keys r.services) name svc (record r { shut_down_signal = true })
      (lookup-contains name svc r.services e) e
