-- ===== src/Fwdservice/Forwards/Laws.antt =====
-- What registering and unregistering forwards leave, in pkg/fwdservice/fwdservice.go.
use kubefwd.Base.{
  nat_key, ◌==◌, ◌≡◌, inl, inr, ap, ◌∙◌, List, [], ◌∷◌, some, Text, text_key, nat_key, ◌==◌, Dict,
  lookup, insert, lookup-insert_self, lookup-insert_ne, All, Bool-cases, Option-cases,
}
use kubefwd.Fwdservice.Types.{PortForwardOpts, ServiceFwd}
use kubefwd.Fwdservice.Forwards.{key_of, add_service_pod, start_each}

-- A forward of the key is registered.
abbrev pub IsForwarded : Text → ServiceFwd → Type 0
IsForwarded key s = (pfo : PortForwardOpts) × (lookup key s.port_forwards ≡ some pfo)

-- After `AddServicePod` the key is registered, by the forward or by the one that was there.
pub add_service_pod-IsForwarded :
    (pfo : PortForwardOpts) (s : ServiceFwd) → IsForwarded (key_of pfo) (add_service_pod pfo s).0
unfolding add_service_pod
add_service_pod-IsForwarded pfo s = elim (Option-cases (lookup (key_of pfo) s.port_forwards)) [
  | inr (other, e) ↦ (other, rw (e, add_service_pod) e)
  | inl e ↦ (pfo, rw (e, add_service_pod) (lookup-insert_self (key_of pfo) pfo s.port_forwards))
]

-- It takes no registration away.
pub add_service_pod-keeps :
    (pfo : PortForwardOpts) (key : Text) (s : ServiceFwd)
    → IsForwarded key s
    → IsForwarded key (add_service_pod pfo s).0
unfolding add_service_pod
add_service_pod-keeps pfo key s (current, h) =
    elim (Option-cases (lookup (key_of pfo) s.port_forwards)) [
      | inr (other, e) ↦ (current, rw (e, add_service_pod) h)
      | inl e ↦ (
        current,
        rw (e, add_service_pod)
            (lookup-insert_ne (key_of pfo) key pfo s.port_forwards
                (λ same. cc (ap (λ (k : Text). lookup k s.port_forwards) same, e, h))
              ∙ h),
      )
    ]

pub start_each-keeps :
    (pfos : List PortForwardOpts) (key : Text) (s : ServiceFwd)
    → IsForwarded key s
    → IsForwarded key (start_each pfos s)
unfolding start_each
start_each-keeps [] key s h = h
start_each-keeps (pfo ∷ rest) key s h =
    start_each-keeps rest key (add_service_pod pfo s).0 (add_service_pod-keeps pfo key s h)

pub start_each-IsForwarded :
    (pfos : List PortForwardOpts) (s : ServiceFwd)
    → All (λ pfo. IsForwarded (key_of pfo) (start_each pfos s)) pfos
unfolding start_each
start_each-IsForwarded [] s = tt
start_each-IsForwarded (pfo ∷ rest) s = (
  start_each-keeps rest (key_of pfo) (add_service_pod pfo s).0 (add_service_pod-IsForwarded pfo s),
  start_each-IsForwarded rest (add_service_pod pfo s).0,
)

All-insert {ℓ} :
    (P : PortForwardOpts → Type ℓ) (key : Text) (pfo : PortForwardOpts)
    (d : Dict Text PortForwardOpts)
    → P pfo
    → All (λ (e : Text × PortForwardOpts). P e.1) d
    → All (λ (e : Text × PortForwardOpts). P e.1) (insert key pfo d)
unfolding insert
All-insert P key pfo [] h all = (h, tt)
All-insert P key pfo ((k, v) ∷ rest) h all = elim (Bool-cases (key == k)) [
  | inl same ↦ rw same (h, all.1)
  | inr other ↦ rw other (all.0, All-insert P key pfo rest h all.1)
]

add_service_pod-All {ℓ} :
    (P : PortForwardOpts → Type ℓ) (pfo : PortForwardOpts) (s : ServiceFwd)
    → P pfo
    → All (λ (e : Text × PortForwardOpts). P e.1) s.port_forwards
    → All (λ (e : Text × PortForwardOpts). P e.1) (add_service_pod pfo s).0.port_forwards
unfolding add_service_pod
add_service_pod-All P pfo s h all = elim (Option-cases (lookup (key_of pfo) s.port_forwards)) [
  | inr (other, e) ↦ rw (e, add_service_pod) all
  | inl e ↦ rw (e, add_service_pod) (All-insert P (key_of pfo) pfo s.port_forwards h all)
]

-- What holds of the forwards in the map and of those that are to start holds of the map afterwards.
pub start_each-All {ℓ} :
    (P : PortForwardOpts → Type ℓ) (pfos : List PortForwardOpts) (s : ServiceFwd)
    → All P pfos
    → All (λ (e : Text × PortForwardOpts). P e.1) s.port_forwards
    → All (λ (e : Text × PortForwardOpts). P e.1) (start_each pfos s).port_forwards
unfolding start_each
start_each-All P [] s h all = all
start_each-All P (pfo ∷ rest) s h all =
    start_each-All P rest (add_service_pod pfo s).0 h.1 (add_service_pod-All P pfo s h.0 all)
