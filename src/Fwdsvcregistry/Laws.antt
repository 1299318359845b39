-- ===== src/Fwdsvcregistry/Laws.antt =====
-- What removing a service from the registry of pkg/fwdsvcregistry/fwdsvcregistry.go does.
use kubefwd.Base.{
  ◌≡◌, inl, inr, refl, List, [], ◌∷◌, none, true, Text, text_key, text_beq_iff, ◌==◌, Dict, lookup,
  erase, keys, contains, All, All-map, arith, Bool-cases, Option-cases,
}
use kubefwd.Fwdservice.Types.{ServiceFwd}
use kubefwd.Fwdservice.Forwards.{remove_service_pod}
use kubefwd.Fwdservice.Reconnect.{Reconnection}
use kubefwd.Fwdsvcregistry.{list_service_pod_names, remove_pods, stop_service}

-- Every key of the map is among those listed.
abbrev pub KeysIn {ℓ} : {V : Type ℓ} → List Text → Dict Text V → Type 0
KeysIn ks d = All (λ e. contains e.0 ks ≡ true) d

pub keys-KeysIn {ℓ} : {V : Type ℓ} (d : Dict Text V) → KeysIn (keys d) d
unfolding keys contains
keys-KeysIn [] = tt
keys-KeysIn ((k, v) ∷ rest) =
    (ground (arith, text_beq_iff k k), All-map rest (λ e h. ground arith) (keys-KeysIn rest))

pub erase-KeysIn {ℓ} :
    {V : Type ℓ} (k : Text) (ks : List Text) (d : Dict Text V)
    → KeysIn (k ∷ ks) d
    → KeysIn ks (erase k d)
unfolding erase contains
erase-KeysIn k ks [] h = tt
erase-KeysIn k ks ((j, v) ∷ rest) h = elim (Bool-cases (k == j)) [
  | inl same ↦ rw same (erase-KeysIn k ks rest h.1)
  | inr other ↦ rw other (ground (arith, text_beq_iff k j), erase-KeysIn k ks rest h.1)
]

pub absent-KeysIn {ℓ} :
    {V : Type ℓ} (k : Text) (ks : List Text) (d : Dict Text V)
    → lookup k d ≡ none
    → KeysIn (k ∷ ks) d
    → KeysIn ks d
unfolding lookup contains
absent-KeysIn k ks [] e h = tt
absent-KeysIn k ks ((j, v) ∷ rest) e h =
    (ground (arith, text_beq_iff k j), absent-KeysIn k ks rest (ground arith) h.1)

pub KeysIn-none {ℓ} : {V : Type ℓ} (d : Dict Text V) → KeysIn [] d → d ≡ []
unfolding contains
KeysIn-none [] h = refl
KeysIn-none (e ∷ d) h = ground arith

-- All forwards of a service that is stopped are removed.
remove_service_pod-KeysIn :
    (k : Text) (ks : List Text) (s : ServiceFwd)
    → KeysIn (k ∷ ks) s.port_forwards
    → KeysIn ks (remove_service_pod k s).port_forwards
unfolding remove_service_pod
remove_service_pod-KeysIn k ks s h = elim (Option-cases (lookup k s.port_forwards)) [
  | inl e ↦ rw (e, remove_service_pod) (absent-KeysIn k ks s.port_forwards e h)
  | inr (pfo, e) ↦ rw (e, remove_service_pod) (erase-KeysIn k ks s.port_forwards h)
]

remove_pods-none :
    (ks : List Text) (s : ServiceFwd)
    → KeysIn ks s.port_forwards
    → (remove_pods ks s).port_forwards ≡ []
unfolding remove_pods
remove_pods-none [] s h = KeysIn-none s.port_forwards h
remove_pods-none (k ∷ ks) s h = remove_pods-none ks _ (remove_service_pod-KeysIn k ks s h)

-- The service is closed, and nothing of it is forwarded.
abbrev pub IsStopped : Reconnection → Type 0
IsStopped svc = (svc.done ≡ true) × (svc.service.port_forwards ≡ [])

pub stop_service-IsStopped : (svc : Reconnection) → IsStopped (stop_service svc)
unfolding stop_service list_service_pod_names
stop_service-IsStopped svc = (
  refl,
  remove_pods-none (keys svc.service.port_forwards) svc.service
      (keys-KeysIn svc.service.port_forwards),
)
