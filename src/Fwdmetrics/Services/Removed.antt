-- ===== src/Fwdmetrics/Services/Removed.antt =====
-- What `UnregisterPortForward` of pkg/fwdmetrics/registry.go leaves, and that services keep addresses
-- of their own.
use kubefwd.Base.{
  ℕ, ◌≡◌, ◌⊎◌, refl, sym, ◌∙◌, List, [], ◌∷◌, Option, none, some, Bool, true, false, ◌&&◌, Text,
  text_key, text_beq_iff, ◌==◌, Dict, lookup, insert, erase, lookup-insert-eq-some, lookup-erase,
  length, length-append, length-set, set, nat_beq, inl, inr, Bool-cases, Option-cases, arith,
  if◌then◌else◌,
}
use kubefwd.Fwdmetrics.Forward.{PortForwardMetrics, service_key}
use kubefwd.Fwdmetrics.Services.{
  ServiceMetrics, MetricsRegistry, empty_registry, forward_key, remove_port_forward, service_at,
  register_service, new_service_metrics, metrics_key, add_forward_at, register_port_forward,
  remove_forward_at, unregister_port_forward, count,
}
use kubefwd.Fwdmetrics.Services.Found.{
  forward_in, find_forward, HasOwnAddresses, forward_in-set, register_port_forward-added,
  obtain_service-eq_some, obtain_service-eq_none,
}

-- A write in the heap leaves the addresses.
HasOwnAddresses-set :
    (r : MetricsRegistry) (a : ℕ) (s : ServiceMetrics)
    → HasOwnAddresses r
    → HasOwnAddresses (record r { heap = set r.heap a s })
HasOwnAddresses-set r a s v = record {
  within = λ j b e. omega (arith, v.within j b e, length-set r.heap a s);
  distinct = v.distinct;
}

HasOwnAddresses-erase :
    (r : MetricsRegistry) (key : Text)
    → HasOwnAddresses r
    → HasOwnAddresses (record r { services = erase key r.services })
HasOwnAddresses-erase r key v = record {
  within = λ j a e. v.within j a (kept j a e);
  distinct = λ j k a e f. v.distinct j k a (kept j a e) (kept k a f);
}
  where
    kept :
        (j : Text) (a : ℕ) → lookup j (erase key r.services) ≡ some a → lookup j r.services ≡ some a
    kept j a e = ground (arith, lookup-erase key j r.services, e)

HasOwnAddresses-new :
    (r : MetricsRegistry) (s : ServiceMetrics)
    → HasOwnAddresses r
    → HasOwnAddresses (register_service s r)
unfolding register_service
HasOwnAddresses-new r s v = record {
  within = λ j a e. elim (found j a e) [
    | inl (h, f) ↦ omega (arith, length-append r.heap (s ∷ []))
    | inr f ↦ omega (arith, v.within j a f, length-append r.heap (s ∷ []))
  ];
  distinct = λ j k a e f. elim (found j a e) [
    | inl (h, d) ↦ elim (found k a f) [
      | inl (h', d') ↦ h ∙ sym h'
      | inr g ↦ absurd (omega (arith, v.within k a g))
    ]
    | inr d ↦ elim (found k a f) [
      | inl (h', d') ↦ absurd (omega (arith, v.within j a d))
      | inr g ↦ v.distinct j k a d g
    ]
  ];
}
  where
    found :
        (j : Text) (a : ℕ)
        → lookup j (insert (metrics_key s) (length r.heap) r.services) ≡ some a
        → ((j ≡ metrics_key s) × (a ≡ length r.heap)) ⊎ (lookup j r.services ≡ some a)
    found j a e = lookup-insert-eq-some (metrics_key s) j (length r.heap) a r.services e

register_port_forward-HasOwnAddresses :
    (key : Text) (pf : PortForwardMetrics) (r : MetricsRegistry)
    → HasOwnAddresses r
    → HasOwnAddresses (register_port_forward key pf r)
unfolding add_forward_at
register_port_forward-HasOwnAddresses key pf r v =
    rw (register_port_forward-added key pf r) (elim (Option-cases (lookup key r.services)) [
      | inr (a, e) ↦ rw (obtain_service-eq_some key pf r a e) (HasOwnAddresses-set r a _ v)
      | inl e ↦ rw (obtain_service-eq_none key pf r e) (
          HasOwnAddresses-set _ (length r.heap) _
            (HasOwnAddresses-new r (new_service_metrics pf.service_name pf.namespace pf.context) v))
    ])

unregister_port_forward-HasOwnAddresses :
    (key pod_name local_port : Text) (r : MetricsRegistry)
    → HasOwnAddresses r
    → HasOwnAddresses (unregister_port_forward key pod_name local_port r)
unfolding unregister_port_forward remove_forward_at
unregister_port_forward-HasOwnAddresses key pod_name local_port r v =
    elim (Option-cases (lookup key r.services)) [
      | inl e ↦ rw (e, unregister_port_forward) v
      | inr (a, e) ↦
          rw (e, unregister_port_forward)
            (let s = remove_port_forward pod_name local_port (service_at a r) in
              let w = HasOwnAddresses-set r a s v in
              elim (Bool-cases (nat_beq (count s) 0)) [
                | inl h ↦ rw h (HasOwnAddresses-erase (record r { heap = set r.heap a s }) key w)
                | inr h ↦ rw h w
              ])
    ]

-- The calls that the forwards make, each under its own service's name.
pub data Call : Type 0 where
  registered : PortForwardMetrics → Call
  unregistered : PortForwardMetrics → Call

unfoldable pub call : Call → MetricsRegistry → MetricsRegistry
call (registered pf) r = register_port_forward (service_key pf) pf r
call (unregistered pf) r = unregister_port_forward (service_key pf) pf.pod_name pf.local_port r

unfoldable pub call_all : List Call → MetricsRegistry → MetricsRegistry
unfolding call
call_all [] r = r
call_all (c ∷ rest) r = call_all rest (call c r)

pub call-HasOwnAddresses :
    (c : Call) (r : MetricsRegistry) → HasOwnAddresses r → HasOwnAddresses (call c r)
unfolding call
call-HasOwnAddresses (registered pf) r v =
    register_port_forward-HasOwnAddresses (service_key pf) pf r v
call-HasOwnAddresses (unregistered pf) r v =
    unregister_port_forward-HasOwnAddresses (service_key pf) pf.pod_name pf.local_port r v

pub empty_registry-HasOwnAddresses : HasOwnAddresses empty_registry
unfolding lookup
empty_registry-HasOwnAddresses = record {
  within = λ j a e. ground (arith, e);
  distinct = λ j k a e f. ground (arith, e);
}

-- A map without elements finds nothing.
lookup-empty : (k : Text) (d : Dict Text PortForwardMetrics) → length d ≡ 0 → lookup k d ≡ none
unfolding lookup
lookup-empty k [] h = refl
lookup-empty k (p ∷ d) h = absurd (omega arith)

-- What a name finds after the named service has lost a forward.
found-removed :
    (key j k gone : Text) (r : MetricsRegistry) (a : ℕ)
    → lookup key r.services ≡ some a
    → (if key == j
        then lookup k (erase gone (service_at a r).port_forwards)
        else find_forward j k r)
      ≡ (if (key == j) && (gone == k) then none else find_forward j k r)
unfolding find_forward forward_in service_at
found-removed key j k gone r a e = elim (Bool-cases (key == j)) [
  | inr other ↦ rw other refl
  | inl same ↦
      let d : lookup j r.services ≡ some a = ground (arith, e, text_beq_iff key j) in
      rw (same, d) (lookup-erase gone k (service_at a r).port_forwards)
]

found-last :
    (key j k gone : Text) (r : MetricsRegistry) (a : ℕ) (heap : List ServiceMetrics)
    → lookup key r.services ≡ some a
    → length (erase gone (service_at a r).port_forwards) ≡ 0
    → (key == j ≡ true)
    → forward_in k heap (if key == j then none else lookup j r.services)
      ≡ (if (key == j) && (gone == k) then none else find_forward j k r)
unfolding forward_in
found-last key j k gone r a heap e h same =
    let left : Option PortForwardMetrics = lookup k (erase gone (service_at a r).port_forwards) in
    let f : forward_in k heap (if key == j then none else lookup j r.services) ≡ none =
      rw same refl in
    let g : left ≡ (if key == j then left else find_forward j k r) = rw same refl in
    f
    ∙ sym (lookup-empty k (erase gone (service_at a r).port_forwards) h)
    ∙ g
    ∙ found-removed key j k gone r a e

removed-at :
    (key pod_name local_port j k : Text) (r : MetricsRegistry) (a : ℕ)
    → HasOwnAddresses r
    → lookup key r.services ≡ some a
    → find_forward j k (remove_forward_at key a pod_name local_port r)
      ≡ (if (key == j) && (forward_key pod_name local_port == k) then none else find_forward j k r)
unfolding remove_forward_at find_forward remove_port_forward count
removed-at key pod_name local_port j k r a v e =
    let gone = forward_key pod_name local_port in
    let s = remove_port_forward pod_name local_port (service_at a r) in
    let kept = forward_in-set r key j k a s v e ∙ found-removed key j k gone r a e in
    elim (Bool-cases (nat_beq (length s.port_forwards) 0)) [
      | inr more ↦ rw more kept
      | inl last_one ↦
          rw (last_one, lookup-erase key j r.services)
            (elim (Bool-cases (key == j)) [
              | inl same ↦
                  found-last key j k gone r a (set r.heap a s) e (ground (arith, last_one)) same
              | inr other ↦
                  let f : forward_in k (set r.heap a s)
                        (if key == j then none else lookup j r.services)
                      ≡ forward_in k (set r.heap a s) (lookup j r.services) =
                    rw other refl in
                  f ∙ kept
            ])
    ]

not_found :
    (key j k gone : Text) (r : MetricsRegistry)
    → lookup key r.services ≡ none
    → (key == j ≡ true)
    → find_forward j k r ≡ (if (key == j) && (gone == k) then none else find_forward j k r)
unfolding find_forward forward_in
not_found key j k gone r e same =
    let d : lookup j r.services ≡ none = ground (arith, e, text_beq_iff key j) in
    let f : find_forward j k r ≡ none = rw (d, find_forward) refl in
    f ∙ sym (all_none ((key == j) && (gone == k)) (find_forward j k r) f)
  where
    all_none :
        (b : Bool) (o : Option PortForwardMetrics) → o ≡ none → (if b then none else o) ≡ none
    all_none true o f = refl
    all_none false o f = f

-- A forward that is unregistered is not found, and every other place is as before.
pub find_forward-unregister_port_forward :
    (key pod_name local_port j k : Text) (r : MetricsRegistry)
    → HasOwnAddresses r
    → find_forward j k (unregister_port_forward key pod_name local_port r)
      ≡ (if (key == j) && (forward_key pod_name local_port == k) then none else find_forward j k r)
unfolding unregister_port_forward
find_forward-unregister_port_forward key pod_name local_port j k r v =
    elim (Option-cases (lookup key r.services)) [
      | inr (a, e) ↦
          rw (e, unregister_port_forward) (removed-at key pod_name local_port j k r a v e)
      | inl e ↦
          rw (e, unregister_port_forward)
            (elim (Bool-cases (key == j)) [
              | inr other ↦ rw other refl
              | inl same ↦ not_found key j k (forward_key pod_name local_port) r e same
            ])
    ]
