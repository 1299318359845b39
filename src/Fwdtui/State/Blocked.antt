-- ===== src/Fwdtui/State/Blocked.antt =====
-- Removed namespaces of pkg/fwdtui/state/store.go, and what reaches the store after the removal.
use kubefwd.Base.{
  ap, ◌∙◌, ◌≡◌, subst, inl, inr, refl, List, [], ◌∷◌, some, true, false, Text, text_key,
  text_beq_iff, ◌==◌, Dict, lookup, insert, erase, contains, All, Bool-cases, Option-cases, arith,
}
use kubefwd.Fwdtui.State.{
  ForwardStatus, ForwardSnapshot, Store, LogEntry, namespace_key, is_of, keys_where, erase_each,
  Metrics, add_forward, refresh, drop_if_empty, remove_forward, update_metrics, update_status,
  update_hostnames, remove_by_namespace, add_log,
}
use kubefwd.Fwdtui.State.Erased.{keys_where-Waiting, erase_each-All}

module _ {Rate : Type 0} (no_rate : Rate) (add_rate : Rate → Rate → Rate)
    (namespace cluster : Text) where
  -- The namespace is blocked, and no forward of it is left.
  pub record IsRemoved (s : Store Rate) : Type 0 where
    pub blocked : contains (namespace_key namespace cluster) s.blocked_namespaces ≡ true
    pub none_left :
        All (λ (e : Text × ForwardSnapshot Rate). is_of namespace cluster e.1 ≡ false) s.forwards

  pub remove_by_namespace-IsRemoved :
      (s : Store Rate) → IsRemoved (remove_by_namespace namespace cluster s).0
  unfolding remove_by_namespace contains
  remove_by_namespace-IsRemoved s = record {
    blocked =
        let same =
          text_beq_iff (namespace_key namespace cluster) (namespace_key namespace cluster) in
        ground arith;
    none_left =
        erase_each-All (is_of namespace cluster) (keys_where (is_of namespace cluster) s.forwards)
          s.forwards (keys_where-Waiting (is_of namespace cluster) s.forwards);
  }

  -- What reaches the store after the removal.
  pub data Update : Type 0 where
    forward_added : ForwardSnapshot Rate → Update
    forward_removed : Text → Update
    metrics_updated : Text → Metrics Rate → Update
    status_updated : Text → ForwardStatus → Text → Update
    hostnames_updated : Text → List Text → Update
    namespace_removed : Text → Text → Update
    logged : LogEntry → Update

  unfoldable pub apply : Update → Store Rate → Store Rate
  apply (forward_added snapshot) s = add_forward no_rate add_rate snapshot s
  apply (forward_removed key) s = remove_forward no_rate add_rate key s
  apply (metrics_updated key m) s = update_metrics no_rate add_rate key m s
  apply (status_updated key status message) s = update_status no_rate add_rate key status message s
  apply (hostnames_updated key hostnames) s = update_hostnames key hostnames s
  apply (namespace_removed n c) s = (remove_by_namespace n c s).0
  apply (logged entry) s = add_log entry s

  unfoldable pub apply_all : List Update → Store Rate → Store Rate
  apply_all [] s = s
  apply_all (u ∷ rest) s = apply_all rest (apply u s)

  abbrev Kept : Dict Text (ForwardSnapshot Rate) → Type 0
  Kept d = All (λ (e : Text × ForwardSnapshot Rate). is_of namespace cluster e.1 ≡ false) d

  insert-Kept :
      (key : Text) (fwd : ForwardSnapshot Rate) (d : Dict Text (ForwardSnapshot Rate))
      → is_of namespace cluster fwd ≡ false
      → Kept d
      → Kept (insert key fwd d)
  unfolding insert
  insert-Kept key fwd [] h all = (h, tt)
  insert-Kept key fwd ((k, v) ∷ rest) h all = elim (Bool-cases (key == k)) [
    | inl same ↦ rw same (h, all.1)
    | inr other ↦ rw other (all.0, insert-Kept key fwd rest h all.1)
  ]

  erase-Kept : (key : Text) (d : Dict Text (ForwardSnapshot Rate)) → Kept d → Kept (erase key d)
  unfolding erase
  erase-Kept key [] all = tt
  erase-Kept key ((k, v) ∷ rest) all = elim (Bool-cases (key == k)) [
    | inl same ↦ rw same (erase-Kept key rest all.1)
    | inr other ↦ rw other (all.0, erase-Kept key rest all.1)
  ]

  erase_each-Kept :
      (keys : List Text) (d : Dict Text (ForwardSnapshot Rate)) → Kept d → Kept (erase_each keys d)
  unfolding erase_each
  erase_each-Kept [] d all = all
  erase_each-Kept (key ∷ keys) d all = erase_each-Kept keys (erase key d) (erase-Kept key d all)

  -- The forward that an update finds is not of the namespace.
  lookup-Kept :
      (key : Text) (fwd : ForwardSnapshot Rate) (d : Dict Text (ForwardSnapshot Rate))
      → Kept d
      → lookup key d ≡ some fwd
      → is_of namespace cluster fwd ≡ false
  unfolding lookup
  lookup-Kept key fwd [] all h = ground arith
  lookup-Kept key fwd ((k, v) ∷ rest) all h = elim (Bool-cases (key == k)) [
    | inl same ↦ found all.0 (ground arith)
    | inr other ↦ lookup-Kept key fwd rest all.1 (ground arith)
  ]
    where
      found : is_of namespace cluster v ≡ false → v ≡ fwd → is_of namespace cluster fwd ≡ false
      found h e = subst (λ (f : ForwardSnapshot Rate). is_of namespace cluster f ≡ false) e h

  -- The services do not matter.
  record SameForwards (s s' : Store Rate) : Type 0 where
    forwards : s'.forwards ≡ s.forwards
    blocked : s'.blocked_namespaces ≡ s.blocked_namespaces

  SameForwards-IsRemoved : (s s' : Store Rate) → SameForwards s s' → IsRemoved s → IsRemoved s'
  SameForwards-IsRemoved s s' e h = record {
    blocked = rw e.blocked h.blocked;
    none_left = rw e.forwards h.none_left;
  }

  refresh-SameForwards :
      (key : Text) (s : Store Rate) → SameForwards s (refresh no_rate add_rate key s)
  unfolding refresh
  refresh-SameForwards key s = record { forwards = ground arith; blocked = ground arith }

  drop_if_empty-SameForwards :
      (key : Text) (s : Store Rate) → SameForwards s (drop_if_empty no_rate add_rate key s)
  unfolding drop_if_empty
  drop_if_empty-SameForwards key s = record { forwards = ground arith; blocked = ground arith }

  add_forward-IsRemoved :
      (snapshot : ForwardSnapshot Rate) (s : Store Rate)
      → IsRemoved s
      → IsRemoved (add_forward no_rate add_rate snapshot s)
  unfolding add_forward
  add_forward-IsRemoved snapshot s h =
      elim (Bool-cases
        (contains (namespace_key snapshot.namespace snapshot.cluster) s.blocked_namespaces)) [
          | inl e ↦ rw e h
          | inr e ↦ rw e (record {
            blocked = h.blocked;
            none_left = insert-Kept snapshot.key snapshot s.forwards (other e) h.none_left;
          })
        ]
    where
      same_key :
          snapshot.namespace ≡ namespace
          → snapshot.cluster ≡ cluster
          → contains (namespace_key snapshot.namespace snapshot.cluster) s.blocked_namespaces
            ≡ false
          → ⊥
      same_key n c e =
          let same : namespace_key snapshot.namespace snapshot.cluster
              ≡ namespace_key namespace cluster =
            cc in
          let held = h.blocked in cc (ap (λ (key : Text). contains key s.blocked_namespaces) same)

      other :
          contains (namespace_key snapshot.namespace snapshot.cluster) s.blocked_namespaces ≡ false
          → is_of namespace cluster snapshot ≡ false
      other e = elim (Bool-cases (is_of namespace cluster snapshot)) [
        | inr miss ↦ miss
        | inl hit ↦ absurd (
            same_key ((text_beq_iff snapshot.namespace namespace).0 (ground arith))
              ((text_beq_iff snapshot.cluster cluster).0 (ground arith)) e)
      ]

  -- A forward that is found is written back with its namespace.
  written-IsRemoved :
      (key : Text) (fwd fwd' : ForwardSnapshot Rate) (s : Store Rate)
      → IsRemoved s
      → lookup key s.forwards ≡ some fwd
      → is_of namespace cluster fwd' ≡ is_of namespace cluster fwd
      → IsRemoved (record s { forwards = insert key fwd' s.forwards })
  written-IsRemoved key fwd fwd' s h e same = record {
    blocked = h.blocked;
    none_left =
        insert-Kept key fwd' s.forwards (same ∙ lookup-Kept key fwd s.forwards h.none_left e)
          h.none_left;
  }

  refresh-IsRemoved :
      (key : Text) (s : Store Rate) → IsRemoved s → IsRemoved (refresh no_rate add_rate key s)
  refresh-IsRemoved key s h = SameForwards-IsRemoved s _ (refresh-SameForwards key s) h

  remove_forward-IsRemoved :
      (key : Text) (s : Store Rate)
      → IsRemoved s
      → IsRemoved (remove_forward no_rate add_rate key s)
  unfolding remove_forward
  remove_forward-IsRemoved key s h = elim (Option-cases (lookup key s.forwards)) [
    | inl e ↦ rw (e, remove_forward) h
    | inr (fwd, e) ↦
        let erased : IsRemoved (record s { forwards = erase key s.forwards }) = record {
          blocked = h.blocked;
          none_left = erase-Kept key s.forwards h.none_left;
        } in
        rw (e, remove_forward)
          (SameForwards-IsRemoved _ _ (drop_if_empty-SameForwards fwd.service_key _)
            (refresh-IsRemoved fwd.service_key _ erased))
  ]

  update_metrics-IsRemoved :
      (key : Text) (m : Metrics Rate) (s : Store Rate)
      → IsRemoved s
      → IsRemoved (update_metrics no_rate add_rate key m s)
  unfolding update_metrics
  update_metrics-IsRemoved key m s h = elim (Option-cases (lookup key s.forwards)) [
    | inl e ↦ rw (e, update_metrics) h
    | inr (fwd, e) ↦
        rw (e, update_metrics)
          (refresh-IsRemoved fwd.service_key _ (written-IsRemoved key fwd _ s h e refl))
  ]

  update_status-IsRemoved :
      (key : Text) (status : ForwardStatus) (message : Text) (s : Store Rate)
      → IsRemoved s
      → IsRemoved (update_status no_rate add_rate key status message s)
  unfolding update_status
  update_status-IsRemoved key status message s h = elim (Option-cases (lookup key s.forwards)) [
    | inl e ↦ rw (e, update_status) h
    | inr (fwd, e) ↦
        rw (e, update_status)
          (refresh-IsRemoved fwd.service_key _ (written-IsRemoved key fwd _ s h e refl))
  ]

  update_hostnames-IsRemoved :
      (key : Text) (hostnames : List Text) (s : Store Rate)
      → IsRemoved s
      → IsRemoved (update_hostnames key hostnames s)
  unfolding update_hostnames
  update_hostnames-IsRemoved key hostnames s h = elim (Option-cases (lookup key s.forwards)) [
    | inl e ↦ rw (e, update_hostnames) h
    | inr (fwd, e) ↦ rw (e, update_hostnames) (written-IsRemoved key fwd _ s h e refl)
  ]

  apply-IsRemoved : (u : Update) (s : Store Rate) → IsRemoved s → IsRemoved (apply u s)
  unfolding apply add_log remove_by_namespace contains
  apply-IsRemoved (forward_added snapshot) s h = add_forward-IsRemoved snapshot s h
  apply-IsRemoved (forward_removed key) s h = remove_forward-IsRemoved key s h
  apply-IsRemoved (metrics_updated key m) s h = update_metrics-IsRemoved key m s h
  apply-IsRemoved (status_updated key status message) s h =
      update_status-IsRemoved key status message s h
  apply-IsRemoved (hostnames_updated key hostnames) s h =
      update_hostnames-IsRemoved key hostnames s h
  apply-IsRemoved (namespace_removed n c) s h = record {
    blocked = let held = h.blocked in ground arith;
    none_left = erase_each-Kept (keys_where (is_of n c) s.forwards) s.forwards h.none_left;
  }
  apply-IsRemoved (logged entry) s h = record { blocked = h.blocked; none_left = h.none_left }

  apply_all-IsRemoved :
      (us : List Update) (s : Store Rate) → IsRemoved s → IsRemoved (apply_all us s)
  unfolding apply_all
  apply_all-IsRemoved [] s h = h
  apply_all-IsRemoved (u ∷ rest) s h = apply_all-IsRemoved rest (apply u s) (apply-IsRemoved u s h)

  -- After `RemoveByNamespace`, whatever reaches the store, in any order and number, short of
  -- `UnblockNamespace`: the namespace stays blocked, and the store has no forward of it.
  pub apply_all-remove_by_namespace :
      (us : List Update) (s : Store Rate)
      → IsRemoved (apply_all us (remove_by_namespace namespace cluster s).0)
  apply_all-remove_by_namespace us s = apply_all-IsRemoved us _ (remove_by_namespace-IsRemoved s)
