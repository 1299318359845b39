-- ===== src/Fwdns/Stopping.antt =====
-- What is left of a namespace when its watcher has been stopped, in pkg/fwdns/manager.go.
use kubefwd.Base.{
  ◌≡◌, inl, inr, refl, sym, ap, subst, ◌∙◌, List, [], ◌∷◌, Option, none, some, Bool, true, false,
  Text, text_key, text_beq_iff, Dict, lookup, erase, values, lookup-erase, All, arith,
  if◌then◌else◌, Option-cases,
}
use kubefwd.Ring.Filtered.{select}
use kubefwd.Fwdservice.Reconnect.{Reconnection}
use kubefwd.Fwdtui.State.{Store, keys_where, erase_each, remove_by_namespace}
use kubefwd.Fwdtui.State.Erased.{keys_where-Waiting, erase_each-All}
use kubefwd.Fwdtui.State.Blocked.{IsRemoved, remove_by_namespace-IsRemoved}
use kubefwd.Fwdsvcregistry.{ServicesRegistry, name_of, is_in, get_by_namespace, remove_by_name}
use kubefwd.Fwdns.Manager.{
  NamespaceManager, watcher_key, on_store, remove_found, remove_namespace_services, stop_in,
  stop_watcher, resolve, stopped, no_watcher,
}

-- Every service is registered under its own name.
abbrev pub IsNamed : ServicesRegistry → Type 0
IsNamed r = All (λ (e : Text × Reconnection). e.0 ≡ name_of e.1) r.services

erase-absent {ℓ} : {V : Type ℓ} (k : Text) (d : Dict Text V) → lookup k d ≡ none → erase k d ≡ d
unfolding lookup erase
erase-absent k [] e = refl
erase-absent k ((j, v) ∷ rest) e = ground (arith, erase-absent k rest)

remove_by_name-services :
    (k : Text) (r : ServicesRegistry) → (remove_by_name k r).services ≡ erase k r.services
unfolding remove_by_name
remove_by_name-services k r = elim (Option-cases (lookup k r.services)) [
  | inl e ↦ rw (e, remove_by_name) (sym (erase-absent k r.services e))
  | inr (svc, e) ↦ rw (e, remove_by_name) refl
]

module _ (namespace cluster : Text) where
  -- The names that the loop over services removes.
  found_names : List Reconnection → List Text
  found_names [] = []
  found_names (svc ∷ rest) =
      let names = found_names rest in
      if is_in namespace cluster svc then name_of svc ∷ names else names

  remove_found-services :
      (svcs : List Reconnection) (r : ServicesRegistry)
      → (remove_found namespace cluster svcs r).services ≡ erase_each (found_names svcs) r.services
  unfolding remove_found erase_each found_names
  remove_found-services [] r = refl
  remove_found-services (svc ∷ rest) r =
      of_test (is_in namespace cluster svc) (remove_found-services rest)
    where
      of_test :
          (b : Bool)
          → ((t : ServicesRegistry)
              → (remove_found namespace cluster rest t).services
                ≡ erase_each (found_names rest) t.services)
          → (remove_found namespace cluster rest
              (if b then remove_by_name (name_of svc) r else r)).services
            ≡ erase_each (if b then name_of svc ∷ found_names rest else found_names rest) r.services
      of_test true ih =
          ih (remove_by_name (name_of svc) r)
          ∙ ap (erase_each (found_names rest)) (remove_by_name-services (name_of svc) r)
      of_test false ih = ih r

  found_names-keys_where :
      (d : Dict Text Reconnection)
      → All (λ (e : Text × Reconnection). e.0 ≡ name_of e.1) d
      → found_names (values d) ≡ keys_where (is_in namespace cluster) d
  unfolding found_names values keys_where
  found_names-keys_where [] h = refl
  found_names-keys_where ((k, svc) ∷ rest) h = ground (arith, found_names-keys_where rest h.1, h.0)

  select-none :
      (d : Dict Text Reconnection)
      → All (λ (e : Text × Reconnection). is_in namespace cluster e.1 ≡ false) d
      → select (is_in namespace cluster) (values d) ≡ []
  unfolding select values
  select-none [] h = refl
  select-none ((k, svc) ∷ rest) h = rw (h.0, select-none rest h.1) refl

  remove_namespace_services-none :
      (r : ServicesRegistry)
      → IsNamed r
      → get_by_namespace namespace cluster (remove_namespace_services namespace cluster r) ≡ []
  unfolding get_by_namespace remove_namespace_services
  remove_namespace_services-none r h = select-none _ (
      subst (All (λ (e : Text × Reconnection). is_in namespace cluster e.1 ≡ false))
        (sym (
          remove_found-services (values r.services) r
          ∙ ap (λ (ks : List Text). erase_each ks r.services)
              (found_names-keys_where r.services h)))
        (erase_each-All (is_in namespace cluster) (keys_where (is_in namespace cluster) r.services)
          r.services (keys_where-Waiting (is_in namespace cluster) r.services)))

  abbrev IsHidden : {Rate : Type 0} → Rate → (Rate → Rate → Rate) → Option (Store Rate) → Type 0
  IsHidden no_rate add_rate none = Unit {0}
  IsHidden no_rate add_rate (some s) = IsRemoved no_rate add_rate namespace cluster s

  on_store-IsHidden :
      {Rate : Type 0} (no_rate : Rate) (add_rate : Rate → Rate → Rate) (o : Option (Store Rate))
      → IsHidden no_rate add_rate (on_store (λ s. (remove_by_namespace namespace cluster s).0) o)
  on_store-IsHidden no_rate add_rate none = tt
  on_store-IsHidden no_rate add_rate (some s) =
      remove_by_namespace-IsRemoved no_rate add_rate namespace cluster s

  -- Nothing of the namespace is watched or registered, and the terminal interface shows nothing of it.
  pub record IsGone {Rate : Type 0} (no_rate : Rate) (add_rate : Rate → Rate → Rate)
      (m : NamespaceManager Rate) : Type 0 where
    pub unwatched : lookup (watcher_key namespace cluster) m.watchers ≡ none
    pub unregistered : get_by_namespace namespace cluster m.registry ≡ []
    pub unshown : IsHidden no_rate add_rate m.store

module _ {Rate : Type 0} (no_rate : Rate) (add_rate : Rate → Rate → Rate)
    (current_context : Option Text) (make_client : Text → Bool) where
  -- When `StopWatcher` succeeds, where every service is registered under its own name: the namespace
  -- has no watcher, none of its services is registered, and the state of the terminal interface, if
  -- there is one, has the namespace blocked and no forward of it.
  pub stop_watcher-IsGone :
      (ctx namespace cluster : Text) (m : NamespaceManager Rate)
      → IsNamed m.registry
      → resolve current_context ctx ≡ some cluster
      → (stop_watcher current_context make_client ctx namespace m).1 ≡ stopped
      → IsGone namespace cluster no_rate add_rate
          (stop_watcher current_context make_client ctx namespace m).0
  unfolding stop_watcher stop_in
  stop_watcher-IsGone ctx namespace cluster m named e success =
      elim (Option-cases (lookup (watcher_key namespace cluster) m.watchers)) [
        | inl f ↦ absurd (missing f)
        | inr (w, f) ↦
            rw (e, f, stop_watcher)
              (record {
                unwatched = ground (
                  arith,
                  lookup-erase (watcher_key namespace cluster) (watcher_key namespace cluster)
                      m.watchers,
                  text_beq_iff (watcher_key namespace cluster) (watcher_key namespace cluster),
                );
                unregistered = remove_namespace_services-none namespace cluster m.registry named;
                unshown = on_store-IsHidden namespace cluster no_rate add_rate m.store;
              })
      ]
    where
      missing : lookup (watcher_key namespace cluster) m.watchers ≡ none → ⊥
      missing f =
          let failed : (stop_watcher current_context make_client ctx namespace m).1 ≡ no_watcher =
            rw (e, f, stop_watcher) refl in
          cc
