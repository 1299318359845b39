-- ===== src/Fwdtui/State/Tallied.antt =====
-- The operations of pkg/fwdtui/state/store.go, and the sums of the services after them.
use kubefwd.Base.{
  ◌≡◌, ◌≢◌, inl, inr, refl, sym, ap, subst, ◌∙◌, [], ◌∷◌, Option, none, some, Text, text_key,
  text_beq_iff, ◌==◌, Dict, lookup, insert, erase, contains, lookup-insert, lookup-erase,
  Bool-cases, Option-cases, arith, ℤ,
}
use kubefwd.Fwdtui.State.{
  ForwardStatus, ForwardSnapshot, ServiceSnapshot, Store, LogEntry, Metrics,
  update_service_aggregate, add_forward, refresh, drop_if_empty, remove_forward, update_metrics,
  update_status, add_log, new_service, or_else, namespace_key, is_empty, new_store,
  unblock_namespace,
}
use kubefwd.Fwdtui.State.Tally.{
  recount, recount-recount, recount-key, Keyed, count_forwards-insert, count_forwards-erase,
}

module _ {Rate : Type 0} (no_rate : Rate) (add_rate : Rate → Rate → Rate)
    (service_of : Text → Text) where
  -- Every service is known by its key, and its sums are those of the forwards.
  record Tallied (s : Store Rate) : Type 0 where
    keyed : Keyed no_rate add_rate service_of s.forwards
    services :
        (key : Text) (svc : ServiceSnapshot Rate)
        → lookup key s.services ≡ some svc
        → (svc.key ≡ key) × (recount no_rate add_rate s.forwards svc ≡ svc)

  -- The forwards of all other services are as before.
  abbrev SameElsewhere :
      Text → Dict Text (ForwardSnapshot Rate) → Dict Text (ForwardSnapshot Rate) → Type 0
  SameElsewhere service_key d d' =
      (svc : ServiceSnapshot Rate)
      → service_key ≢ svc.key
      → recount no_rate add_rate d' svc ≡ recount no_rate add_rate d svc

  module _ (sk : Text) (s : Store Rate) (d' : Dict Text (ForwardSnapshot Rate)) where
    elsewhere :
        Tallied s
        → SameElsewhere sk s.forwards d'
        → (key : Text) (svc : ServiceSnapshot Rate) → lookup key s.services ≡ some svc
        → sk ≢ key
        → (svc.key ≡ key) × (recount no_rate add_rate d' svc ≡ svc)
    elsewhere h same key svc e ne =
        let t = h.services key svc e in (t.0, same svc (λ k. ne (k ∙ t.0)) ∙ t.1)

    recounted-Tallied :
        (svc0 : ServiceSnapshot Rate)
        → svc0.key ≡ sk
        → Tallied s
        → Keyed no_rate add_rate service_of d'
        → SameElsewhere sk s.forwards d'
        → Tallied (record s {
          forwards = d';
          services = insert sk (recount no_rate add_rate d' svc0) s.services;
        })
    recounted-Tallied svc0 k h keyed same = record {
      keyed = keyed;
      services = λ key svc e. elim (Bool-cases (sk == key)) [
        | inl at ↦
            let found : recount no_rate add_rate d' svc0 ≡ svc =
              ground (arith, lookup-insert sk key (recount no_rate add_rate d' svc0) s.services) in
            (
              ap (λ (v : ServiceSnapshot Rate). v.key) (sym found)
                  ∙ recount-key no_rate add_rate d' svc0
                  ∙ k
                  ∙ (text_beq_iff sk key).0 at,
              subst (λ (v : ServiceSnapshot Rate). recount no_rate add_rate d' v ≡ v) found
                  (recount-recount no_rate add_rate d' svc0),
            )
        | inr other ↦
            let old : lookup key s.services ≡ some svc =
              ground (arith, lookup-insert sk key (recount no_rate add_rate d' svc0) s.services) in
            elsewhere h same key svc old (λ eq. ground (arith, text_beq_iff sk key))
      ];
    }

    unknown-Tallied :
        lookup sk s.services ≡ none
        → Tallied s
        → Keyed no_rate add_rate service_of d'
        → SameElsewhere sk s.forwards d'
        → Tallied (record s { forwards = d' })
    unknown-Tallied absent h keyed same = record {
      keyed = keyed;
      services = λ key svc e.
          elsewhere h same key svc e
            (λ eq. cc (ap (λ (k : Text). lookup k s.services) eq, absent, e));
    }

    refresh-Tallied :
        Tallied s
        → Keyed no_rate add_rate service_of d'
        → SameElsewhere sk s.forwards d'
        → Tallied (refresh no_rate add_rate sk (record s { forwards = d' }))
    unfolding refresh
    refresh-Tallied h keyed same = elim (Option-cases (lookup sk s.services)) [
      | inl e ↦ rw (e, refresh) (unknown-Tallied e h keyed same)
      | inr (svc, e) ↦ rw (e, refresh) (recounted-Tallied svc (h.services sk svc e).0 h keyed same)
    ]

  drop_if_empty-Tallied :
      (sk : Text) (s : Store Rate) → Tallied s → Tallied (drop_if_empty no_rate add_rate sk s)
  unfolding drop_if_empty
  drop_if_empty-Tallied sk s h = elim (Option-cases (lookup sk s.services)) [
    | inl e ↦ rw (e, drop_if_empty) h
    | inr (svc, e) ↦ elim (Bool-cases (is_empty no_rate add_rate svc.port_forwards)) [
      | inl b ↦
          rw (e, b, drop_if_empty)
            (record {
              keyed = h.keyed;
              services =
                  λ key v f. h.services key v (ground (arith, lookup-erase sk key s.services));
            })
      | inr b ↦ rw (e, b, drop_if_empty) h
    ]
  ]

  insert-Keyed :
      (key : Text) (fwd : ForwardSnapshot Rate) (d : Dict Text (ForwardSnapshot Rate))
      → fwd.service_key ≡ service_of key
      → Keyed no_rate add_rate service_of d
      → Keyed no_rate add_rate service_of (insert key fwd d)
  unfolding insert
  insert-Keyed key fwd [] h all = (h, tt)
  insert-Keyed key fwd ((k, v) ∷ rest) h all = elim (Bool-cases (key == k)) [
    | inl same ↦ rw same (h ∙ ap service_of ((text_beq_iff key k).0 same), all.1)
    | inr other ↦ rw other (all.0, insert-Keyed key fwd rest h all.1)
  ]

  erase-Keyed :
      (key : Text) (d : Dict Text (ForwardSnapshot Rate))
      → Keyed no_rate add_rate service_of d
      → Keyed no_rate add_rate service_of (erase key d)
  unfolding erase
  erase-Keyed key [] all = tt
  erase-Keyed key ((k, v) ∷ rest) all = elim (Bool-cases (key == k)) [
    | inl same ↦ rw same (erase-Keyed key rest all.1)
    | inr other ↦ rw other (all.0, erase-Keyed key rest all.1)
  ]

  lookup-Keyed :
      (key : Text) (fwd : ForwardSnapshot Rate) (d : Dict Text (ForwardSnapshot Rate))
      → Keyed no_rate add_rate service_of d
      → lookup key d ≡ some fwd
      → fwd.service_key ≡ service_of key
  unfolding lookup
  lookup-Keyed key fwd [] all h = ground arith
  lookup-Keyed key fwd ((k, v) ∷ rest) all h = elim (Bool-cases (key == k)) [
    | inl same ↦ found (ground arith) all.0 ((text_beq_iff key k).0 same)
    | inr other ↦ lookup-Keyed key fwd rest all.1 (ground arith)
  ]
    where
      found : v ≡ fwd → v.service_key ≡ service_of k → key ≡ k → fwd.service_key ≡ service_of key
      found e h same =
          ap (λ (f : ForwardSnapshot Rate). f.service_key) (sym e) ∙ h ∙ ap service_of (sym same)

  insert-SameElsewhere :
      (key : Text) (fwd : ForwardSnapshot Rate) (d : Dict Text (ForwardSnapshot Rate))
      → Keyed no_rate add_rate service_of d
      → fwd.service_key ≡ service_of key
      → SameElsewhere fwd.service_key d (insert key fwd d)
  unfolding update_service_aggregate
  insert-SameElsewhere key fwd d keyed h svc ne =
      count_forwards-insert no_rate add_rate service_of key fwd d _ keyed h (λ e. ne (h ∙ e))

  erase-SameElsewhere :
      (key : Text) (d : Dict Text (ForwardSnapshot Rate))
      → Keyed no_rate add_rate service_of d
      → SameElsewhere (service_of key) d (erase key d)
  unfolding update_service_aggregate
  erase-SameElsewhere key d keyed svc ne =
      count_forwards-erase no_rate add_rate service_of key d _ keyed ne

  -- A forward is written at its key, and its service is counted again.
  written-Tallied :
      (key : Text) (fwd : ForwardSnapshot Rate) (s : Store Rate)
      → Tallied s
      → fwd.service_key ≡ service_of key
      → Tallied (
          refresh no_rate add_rate fwd.service_key
            (record s { forwards = insert key fwd s.forwards }))
  written-Tallied key fwd s h e =
      refresh-Tallied fwd.service_key s (insert key fwd s.forwards) h
        (insert-Keyed key fwd s.forwards e h.keyed)
        (insert-SameElsewhere key fwd s.forwards h.keyed e)

  add_forward-Tallied :
      (snapshot : ForwardSnapshot Rate) (s : Store Rate)
      → snapshot.service_key ≡ service_of snapshot.key
      → Tallied s
      → Tallied (add_forward no_rate add_rate snapshot s)
  unfolding add_forward
  add_forward-Tallied snapshot s e h =
      elim (Bool-cases
        (contains (namespace_key snapshot.namespace snapshot.cluster) s.blocked_namespaces)) [
          | inl b ↦ rw b h
          | inr b ↦ rw b (
              recounted-Tallied snapshot.service_key s (insert snapshot.key snapshot s.forwards)
                (or_else no_rate add_rate (new_service no_rate add_rate snapshot)
                  (lookup snapshot.service_key s.services))
                (known (lookup snapshot.service_key s.services) refl) h
                (insert-Keyed snapshot.key snapshot s.forwards e h.keyed)
                (insert-SameElsewhere snapshot.key snapshot s.forwards h.keyed e))
        ]
    where
      known :
          (found : Option (ServiceSnapshot Rate))
          → lookup snapshot.service_key s.services ≡ found
          → (or_else no_rate add_rate (new_service no_rate add_rate snapshot) found).key
            ≡ snapshot.service_key
      known none f = refl
      known (some svc) f = (h.services snapshot.service_key svc f).0

  remove_forward-Tallied :
      (key : Text) (s : Store Rate) → Tallied s → Tallied (remove_forward no_rate add_rate key s)
  unfolding remove_forward
  remove_forward-Tallied key s h = elim (Option-cases (lookup key s.forwards)) [
    | inl e ↦ rw (e, remove_forward) h
    | inr (fwd, e) ↦
        rw (e, remove_forward)
          (drop_if_empty-Tallied fwd.service_key _ (
            refresh-Tallied fwd.service_key s (erase key s.forwards) h
              (erase-Keyed key s.forwards h.keyed)
              (subst (λ (k : Text). SameElsewhere k s.forwards (erase key s.forwards))
                (sym (lookup-Keyed key fwd s.forwards h.keyed e))
                (erase-SameElsewhere key s.forwards h.keyed))))
  ]

  update_metrics-Tallied :
      (key : Text) (m : Metrics Rate) (s : Store Rate)
      → Tallied s
      → Tallied (update_metrics no_rate add_rate key m s)
  unfolding update_metrics
  update_metrics-Tallied key m s h = elim (Option-cases (lookup key s.forwards)) [
    | inl e ↦ rw (e, update_metrics) h
    | inr (fwd, e) ↦
        rw (e, update_metrics)
          (written-Tallied key _ s h (lookup-Keyed key fwd s.forwards h.keyed e))
  ]

  update_status-Tallied :
      (key : Text) (status : ForwardStatus) (message : Text) (s : Store Rate)
      → Tallied s
      → Tallied (update_status no_rate add_rate key status message s)
  unfolding update_status
  update_status-Tallied key status message s h = elim (Option-cases (lookup key s.forwards)) [
    | inl e ↦ rw (e, update_status) h
    | inr (fwd, e) ↦
        rw (e, update_status)
          (written-Tallied key _ s h (lookup-Keyed key fwd s.forwards h.keyed e))
  ]

  -- What happens to a store; the key of a forward that is added says of which service it is.
  pub data Changes : Store Rate → Type 0 where
    started : (size : ℤ) → Changes (new_store size)
    added :
        (snapshot : ForwardSnapshot Rate) (s : Store Rate)
        → snapshot.service_key ≡ service_of snapshot.key
        → Changes s
        → Changes (add_forward no_rate add_rate snapshot s)
    removed :
        (key : Text) (s : Store Rate) → Changes s → Changes (remove_forward no_rate add_rate key s)
    measured :
        (key : Text) (m : Metrics Rate) (s : Store Rate)
        → Changes s
        → Changes (update_metrics no_rate add_rate key m s)
    marked :
        (key : Text) (status : ForwardStatus) (message : Text) (s : Store Rate)
        → Changes s
        → Changes (update_status no_rate add_rate key status message s)
    logged : (entry : LogEntry) (s : Store Rate) → Changes s → Changes (add_log entry s)
    unblocked :
        (namespace cluster : Text) (s : Store Rate)
        → Changes s
        → Changes (unblock_namespace namespace cluster s)

  Changes-Tallied : (s : Store Rate) → Changes s → Tallied s
  unfolding new_store add_log unblock_namespace lookup
  Changes-Tallied s (started size) = record { keyed = tt; services = λ key svc e. ground arith }
  Changes-Tallied s (added snapshot t e c) = add_forward-Tallied snapshot t e (Changes-Tallied t c)
  Changes-Tallied s (removed key t c) = remove_forward-Tallied key t (Changes-Tallied t c)
  Changes-Tallied s (measured key m t c) = update_metrics-Tallied key m t (Changes-Tallied t c)
  Changes-Tallied s (marked key status message t c) =
      update_status-Tallied key status message t (Changes-Tallied t c)
  Changes-Tallied s (logged entry t c) =
      let h = Changes-Tallied t c in record { keyed = h.keyed; services = h.services }
  Changes-Tallied s (unblocked n k t c) =
      let h = Changes-Tallied t c in record { keyed = h.keyed; services = h.services }

  -- In every store that came about by adding and removing forwards, by updates of metrics and status,
  -- by logging and by unblocking, where a forward's key says of which service it is: the entry of a
  -- service has its key, and its forwards, sums and counts are those of a recount over all forwards
  -- that the store holds.
  pub Changes-recount :
      (s : Store Rate) (key : Text) (svc : ServiceSnapshot Rate)
      → Changes s
      → lookup key s.services ≡ some svc
      → (svc.key ≡ key) × (update_service_aggregate no_rate add_rate s.forwards svc ≡ svc)
  Changes-recount s key svc c e = Tallied.services (Changes-Tallied s c) key svc e
