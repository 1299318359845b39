-- ===== src/Fwdmetrics/Services/Found.antt =====
-- Which forwards the registry of pkg/fwdmetrics/registry.go holds.
use kubefwd.Base.{
  ℕ, ◌-◌, ◌<◌, ◌≡◌, ◌≢◌, refl, sym, ap, ◌∙◌, List, [], ◌∷◌, ◌++◌, Option, none, some, ◌&&◌, Text,
  text_key, text_beq_iff, ◌==◌, Dict, lookup, insert, lookup-insert, length, get_or, set,
  length-append, get_or-set_self, get_or-set_ne, get_or-append_left, get_or-append_right, inl, inr,
  subst, Bool-cases, Option-cases, arith, if◌then◌else◌,
}
use kubefwd.Fwdmetrics.Forward.{PortForwardMetrics, service_key}
use kubefwd.Fwdmetrics.Services.{
  ServiceMetrics, MetricsRegistry, no_service, new_service_metrics, metrics_key, forward_key,
  add_port_forward, service_at, register_service, obtain_service, add_forward_at,
  register_port_forward,
}

-- The abstract view: the forward of a pod and a port that a service has.
unfoldable pub forward_in : Text → List ServiceMetrics → Option ℕ → Option PortForwardMetrics
forward_in k heap none = none
forward_in k heap (some a) = lookup k (get_or heap a no_service).port_forwards

unfoldable pub find_forward : Text → Text → MetricsRegistry → Option PortForwardMetrics
unfolding forward_in
find_forward key k r = forward_in k r.heap (lookup key r.services)

-- Each service has an address of its own.
pub record HasOwnAddresses (r : MetricsRegistry) : Type 0 where
  pub within : (j : Text) (a : ℕ) → lookup j r.services ≡ some a → a < length r.heap
  pub distinct :
      (j k : Text) (a : ℕ) → lookup j r.services ≡ some a → lookup k r.services ≡ some a → j ≡ k

-- A write at the address of one service, seen through another name.
pub forward_in-set :
    (r : MetricsRegistry) (key j k : Text) (a : ℕ) (s : ServiceMetrics)
    → HasOwnAddresses r
    → lookup key r.services ≡ some a
    → forward_in k (set r.heap a s) (lookup j r.services)
      ≡ (if key == j then lookup k s.port_forwards else find_forward j k r)
unfolding forward_in find_forward
forward_in-set r key j k a s v e = elim (Bool-cases (key == j)) [
  | inl same ↦
      let d : lookup j r.services ≡ some a = ground (arith, e, text_beq_iff key j) in
      rw (same, d)
        (ap (λ (t : ServiceMetrics). lookup k t.port_forwards)
          (get_or-set_self r.heap a s no_service (v.within key a e)))
  | inr other ↦ rw other (elim (Option-cases (lookup j r.services)) [
    | inl d ↦ rw d refl
    | inr (b, d) ↦ rw d (
        ap (λ (t : ServiceMetrics). lookup k t.port_forwards)
          (get_or-set_ne r.heap s no_service
            (λ h. ground (arith, text_beq_iff key j, v.distinct key j a e, d, h))))
  ])
]

-- An address past the heap is found nowhere in the registry.
length-fresh :
    (r : MetricsRegistry) (j : Text)
    → HasOwnAddresses r
    → lookup j r.services ≢ some (length r.heap)
length-fresh r j v e = absurd (omega (arith, v.within j (length r.heap) e))

-- A new service changes what no other name finds.
forward_in-new :
    (r : MetricsRegistry) (key j k : Text) (new s : ServiceMetrics)
    → HasOwnAddresses r
    → forward_in k
        (set (r.heap ++ new ∷ []) (length r.heap) s)
        (lookup j (insert key (length r.heap) r.services))
      ≡ (if key == j then lookup k s.port_forwards else find_forward j k r)
unfolding forward_in find_forward
forward_in-new r key j k new s v = elim (Bool-cases (key == j)) [
  | inl same ↦
      rw (lookup-insert key j (length r.heap) r.services, same)
        (ap (λ (t : ServiceMetrics). lookup k t.port_forwards)
          (get_or-set_self (r.heap ++ new ∷ []) (length r.heap) s no_service
            (omega (arith, length-append r.heap (new ∷ [])))))
  | inr other ↦
      rw (lookup-insert key j (length r.heap) r.services, other)
        (elim (Option-cases (lookup j r.services)) [
          | inl d ↦ rw d refl
          | inr (b, d) ↦ rw d (
              ap (λ (t : ServiceMetrics). lookup k t.port_forwards)
                (get_or-set_ne (r.heap ++ new ∷ []) s no_service
                    (λ h. omega (arith, h, v.within j b d))
                  ∙ get_or-append_left r.heap (new ∷ []) b no_service (v.within j b d)))
        ])
]

-- What a name finds once the named service has `s` with a forward under `key_of_pf`.
found-added :
    (key j k key_of_pf : Text) (pf : PortForwardMetrics) (r : MetricsRegistry)
    (old : Dict Text PortForwardMetrics)
    → (key ≡ j → lookup k old ≡ find_forward j k r)
    → (if key == j then lookup k (insert key_of_pf pf old) else find_forward j k r)
      ≡ (if (key == j) && (key_of_pf == k) then some pf else find_forward j k r)
found-added key j k key_of_pf pf r old h = elim (Bool-cases (key == j)) [
  | inr other ↦ rw other refl
  | inl same ↦
      let e : key ≡ j = ground (arith, text_beq_iff key j) in
      rw (same, lookup-insert key_of_pf k pf old, h e) refl
]

pub obtain_service-eq_some :
    (key : Text) (pf : PortForwardMetrics) (r : MetricsRegistry) (a : ℕ)
    → lookup key r.services ≡ some a
    → obtain_service key pf r ≡ (a, r)
unfolding obtain_service
obtain_service-eq_some key pf r a e = rw (e, obtain_service) refl

pub obtain_service-eq_none :
    (key : Text) (pf : PortForwardMetrics) (r : MetricsRegistry)
    → lookup key r.services ≡ none
    → obtain_service key pf r ≡ (
      length r.heap,
      register_service (new_service_metrics pf.service_name pf.namespace pf.context) r,
    )
unfolding obtain_service
obtain_service-eq_none key pf r e = rw (e, obtain_service) refl

-- `add_forward_at` of what `obtain_service` returns.
abbrev pub added : PortForwardMetrics → ℕ × MetricsRegistry → MetricsRegistry
added pf (a, r) = add_forward_at a pf r

pub register_port_forward-added :
    (key : Text) (pf : PortForwardMetrics) (r : MetricsRegistry)
    → register_port_forward key pf r ≡ added pf (obtain_service key pf r)
unfolding register_port_forward
register_port_forward-added key pf r = refl

-- The service of a forward that is obtained, where there was none.
found-new :
    (key j k : Text) (pf : PortForwardMetrics) (r : MetricsRegistry)
    → HasOwnAddresses r
    → lookup key r.services ≡ none
    → metrics_key (new_service_metrics pf.service_name pf.namespace pf.context) ≡ key
    → find_forward j k (
        added pf (
          length r.heap,
          register_service (new_service_metrics pf.service_name pf.namespace pf.context) r,
        ))
      ≡ (if (key == j) && (forward_key pf.pod_name pf.local_port == k)
          then some pf
          else find_forward j k r)
unfolding find_forward add_forward_at register_service service_at add_port_forward
    new_service_metrics forward_in lookup
found-new key j k pf r v e named =
    let new = new_service_metrics pf.service_name pf.namespace pf.context in
    rw named (
      forward_in-new r key j k new
        (add_port_forward pf (get_or (r.heap ++ new ∷ []) (length r.heap) no_service)) v
      ∙ rw
          (
            get_or-append_right r.heap (new ∷ []) (length r.heap) no_service (omega arith),
            first new,
          )
          (found-added key j k (forward_key pf.pod_name pf.local_port) pf r [] (λ same.
            sym
              (subst (λ (t : Text). find_forward t k r ≡ none) same (rw (e, find_forward) refl)))))
  where
    first : (new : ServiceMetrics) → length r.heap - length r.heap ≡ 0
    first new = omega arith

found-old :
    (key j k : Text) (pf : PortForwardMetrics) (r : MetricsRegistry) (a : ℕ)
    → HasOwnAddresses r
    → lookup key r.services ≡ some a
    → find_forward j k (added pf (a, r)) ≡ (
        if (key == j) && (forward_key pf.pod_name pf.local_port == k)
        then some pf
        else find_forward j k r)
unfolding find_forward add_forward_at service_at add_port_forward forward_in
found-old key j k pf r a v e =
    forward_in-set r key j k a (add_port_forward pf (service_at a r)) v e
    ∙ found-added key j k (forward_key pf.pod_name pf.local_port) pf r
        (service_at a r).port_forwards
        (λ same. sym (
          subst (λ (t : Text). find_forward t k r ≡ lookup k (service_at a r).port_forwards) same
            (rw (e, find_forward) refl)))

-- A forward that is registered is found at its place, and every other place is as before.
pub find_forward-register_port_forward :
    (pf : PortForwardMetrics) (j k : Text) (r : MetricsRegistry)
    → HasOwnAddresses r
    → find_forward j k (register_port_forward (service_key pf) pf r) ≡ (
        if (service_key pf == j) && (forward_key pf.pod_name pf.local_port == k)
        then some pf
        else find_forward j k r)
unfolding metrics_key service_key new_service_metrics
find_forward-register_port_forward pf j k r v =
    ap (find_forward j k) (register_port_forward-added (service_key pf) pf r)
    ∙ elim (Option-cases (lookup (service_key pf) r.services)) [
      | inr (a, e) ↦
          ap (λ p. find_forward j k (added pf p)) (obtain_service-eq_some (service_key pf) pf r a e)
          ∙ found-old (service_key pf) j k pf r a v e
      | inl e ↦
          ap (λ p. find_forward j k (added pf p)) (obtain_service-eq_none (service_key pf) pf r e)
          ∙ found-new (service_key pf) j k pf r v e refl
    ]
