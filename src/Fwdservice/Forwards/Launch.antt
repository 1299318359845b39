-- ===== src/Fwdservice/Forwards/Launch.antt =====
-- What the loops over pods and ports of pkg/fwdservice/fwdservice.go launch.
use mathlib.Core.List.{append-nil, append_assoc}
use kubefwd.Base.{
  ℕ, ◌≡◌, ◌⊎◌, inl, inr, refl, sym, subst, ap, ◌∙◌, ◌++◌, List, [], ◌∷◌, Option, true, false, Text,
  text_key, nat_key, lookup, All, All-map, All-append, arith, Option-cases,
}
use kubefwd.Fwdip.Types.{Ip}
use kubefwd.Fwdservice.Types.{ServicePort, Pod, PortForwardOpts, ServiceFwd}
use kubefwd.Fwdservice.Ports.{get_port_map, parses_as_int32}
use kubefwd.Fwdservice.Forwards.{
  forward_key, key_of, is_udp, new_forward, launch, forward_port, loop_ports, start_each,
  start_launched,
}
use kubefwd.Fwdservice.Forwards.Laws.{IsForwarded, start_each-keeps, start_each-IsForwarded}

-- The port of the service is to be forwarded: its protocol is not UDP and its local port is a number.
abbrev pub IsForwardable : ServiceFwd → ServicePort → Type 0
IsForwardable s port =
    (is_udp port.protocol ≡ false) × (parses_as_int32 (get_port_map s port.port) ≡ true)

-- The forward of the key is registered already, or launched.
pub data Covered (key : Text) (s : ServiceFwd) : Type 0 where
  registered : IsForwarded key s → Covered key s
  launching :
      (before after : List PortForwardOpts) (pfo : PortForwardOpts)
      → s.launched ≡ before ++ pfo ∷ after
      → key_of pfo ≡ key
      → Covered key s

-- More may be launched, and all else that forwards depend on is as before.
pub record Extends (s s' : ServiceFwd) : Type 0 where
  pub port_map : s'.port_map ≡ s.port_map
  pub port_forwards : s'.port_forwards ≡ s.port_forwards
  pub more : List PortForwardOpts
  pub launched : s'.launched ≡ s.launched ++ more

pub Extends-refl : (s : ServiceFwd) → Extends s s
Extends-refl s = record {
  port_map = refl;
  port_forwards = refl;
  more = [];
  launched = sym (append-nil s.launched);
}

Extends-trans : (s t u : ServiceFwd) → Extends s t → Extends t u → Extends s u
Extends-trans s t u h k = record {
  port_map = k.port_map ∙ h.port_map;
  port_forwards = k.port_forwards ∙ h.port_forwards;
  more = h.more ++ k.more;
  launched = k.launched ∙ ap (λ l. l ++ k.more) h.launched ∙ append_assoc s.launched h.more k.more;
}

Extends-Covered : (key : Text) (s s' : ServiceFwd) → Extends s s' → Covered key s → Covered key s'
Extends-Covered key s s' h (registered (pfo, e)) =
    registered (pfo, ap (lookup key) h.port_forwards ∙ e)
Extends-Covered key s s' h (launching before after pfo e k) =
    launching before (after ++ h.more) pfo
      (h.launched ∙ ap (λ l. l ++ h.more) e ∙ append_assoc before (pfo ∷ after) h.more) k

Extends-get_port_map :
    (s s' : ServiceFwd) (port : ℕ) → Extends s s' → get_port_map s' port ≡ get_port_map s port
unfolding get_port_map
Extends-get_port_map s s' port h = rw h.port_map refl

pub start_launched-IsForwarded :
    (key : Text) (s : ServiceFwd) → Covered key s → IsForwarded key (start_launched s)
unfolding start_launched
start_launched-IsForwarded key s (registered h) =
    start_each-keeps s.launched key (record s { launched = [] }) h
start_launched-IsForwarded key s (launching before after pfo e k) =
    subst (λ (j : Text). IsForwarded j (start_each s.launched (record s { launched = [] }))) k
      (All-middle (λ p. IsForwarded (key_of p) (start_each s.launched (record s { launched = [] })))
        before
        (subst
          (All (λ p. IsForwarded (key_of p) (start_each s.launched (record s { launched = [] })))) e
          (start_each-IsForwarded s.launched (record s { launched = [] }))))
  where
    All-middle :
        (P : PortForwardOpts → Type 0) (before : List PortForwardOpts)
        → All P (before ++ pfo ∷ after)
        → P pfo
    All-middle P [] h = h.0
    All-middle P (x ∷ xs) h = All-middle P xs h.1

module _ (local_ip : Text → Pod → Option Ip) (pod : Pod) (service : Text) where
  unfoldable pub launched_by : ServicePort → ServiceFwd → ServiceFwd
  launched_by port s = launch local_ip (new_forward local_ip s pod service port) s

  -- A round either passes the port over or launches its forward.
  pub forward_port-cases :
      (port : ServicePort) (s : ServiceFwd)
      → (forward_port local_ip pod service port s ≡ s)
        ⊎ (forward_port local_ip pod service port s ≡ launched_by port s)
  unfolding forward_port launched_by
  forward_port-cases port s = ground arith

  launched_by-Extends : (port : ServicePort) (s : ServiceFwd) → Extends s (launched_by port s)
  unfolding launched_by launch
  launched_by-Extends port s = record {
    port_map = refl;
    port_forwards = refl;
    more = new_forward local_ip s pod service port ∷ [];
    launched = refl;
  }

  forward_port-Extends :
      (port : ServicePort) (s : ServiceFwd) → Extends s (forward_port local_ip pod service port s)
  forward_port-Extends port s = elim (forward_port-cases port s) [
    | inl e ↦ rw e (Extends-refl s)
    | inr e ↦ rw e (launched_by-Extends port s)
  ]

  forward_port-Covered :
      (port : ServicePort) (s : ServiceFwd)
      → IsForwardable s port
      → Covered
          (forward_key service pod.name (get_port_map s port.port))
          (forward_port local_ip pod service port s)
  unfolding forward_port launch new_forward
  forward_port-Covered port s h =
      elim (Option-cases
        (lookup (forward_key service pod.name (get_port_map s port.port)) s.port_forwards)) [
          | inr (pfo, e) ↦ rw (h.0, h.1, e, forward_port) (registered (pfo, e))
          | inl e ↦ rw (h.0, h.1, e, forward_port) (launching s.launched [] _ refl refl)
        ]

  pub loop_ports-Extends :
      (ports : List ServicePort) (s : ServiceFwd)
      → Extends s (loop_ports local_ip pod service ports s)
  unfolding loop_ports
  loop_ports-Extends [] s = Extends-refl s
  loop_ports-Extends (port ∷ rest) s =
      let s' = forward_port local_ip pod service port s in
      Extends-trans s s' (loop_ports local_ip pod service rest s') (forward_port-Extends port s)
        (loop_ports-Extends rest s')

  -- After the loop over the ports each one that can be forwarded is registered or launched.
  pub loop_ports-Covered :
      (ports : List ServicePort) (s : ServiceFwd)
      → All
          (λ port.
            IsForwardable s port
            → Covered
                (forward_key service pod.name (get_port_map s port.port))
                (loop_ports local_ip pod service ports s))
          ports
  unfolding loop_ports
  loop_ports-Covered [] s = tt
  loop_ports-Covered (port ∷ rest) s =
      let s' = forward_port local_ip pod service port s in
      let e = forward_port-Extends port s in
      (
        λ h.
            Extends-Covered _ s' (loop_ports local_ip pod service rest s')
              (loop_ports-Extends rest s') (forward_port-Covered port s h),
        All-map rest (λ p covered h. carried p covered h) (loop_ports-Covered rest s'),
      )
    where
      carried :
          (p : ServicePort)
          → (IsForwardable (forward_port local_ip pod service port s) p
              → Covered
                  (forward_key service pod.name
                    (get_port_map (forward_port local_ip pod service port s) p.port))
                  (loop_ports local_ip pod service rest (forward_port local_ip pod service port s)))
          → IsForwardable s p
          → Covered
              (forward_key service pod.name (get_port_map s p.port))
              (loop_ports local_ip pod service rest (forward_port local_ip pod service port s))
      carried p covered h =
          let g =
            Extends-get_port_map s (forward_port local_ip pod service port s) p.port
              (forward_port-Extends port s) in
          subst
            (λ (t : Text).
              Covered (forward_key service pod.name t)
                (loop_ports local_ip pod service rest (forward_port local_ip pod service port s)))
            g (covered (h.0, ap parses_as_int32 g ∙ h.1))

  -- Every forward launched so far is one of the pod.
  abbrev LaunchedOfPod : ServiceFwd → Type 0
  LaunchedOfPod s = All (λ pfo. pfo.pod_name ≡ pod.name) s.launched

  launched_by-LaunchedOfPod :
      (port : ServicePort) (s : ServiceFwd) → LaunchedOfPod s → LaunchedOfPod (launched_by port s)
  unfolding launched_by launch new_forward
  launched_by-LaunchedOfPod port s h =
      All-append (λ pfo. pfo.pod_name ≡ pod.name) s.launched
        (new_forward local_ip s pod service port ∷ []) h (refl, tt)

  pub loop_ports-LaunchedOfPod :
      (ports : List ServicePort) (s : ServiceFwd)
      → LaunchedOfPod s
      → LaunchedOfPod (loop_ports local_ip pod service ports s)
  unfolding loop_ports
  loop_ports-LaunchedOfPod [] s h = h
  loop_ports-LaunchedOfPod (port ∷ rest) s h =
      loop_ports-LaunchedOfPod rest (forward_port local_ip pod service port s)
        (elim (forward_port-cases port s) [
          | inl e ↦ rw e h
          | inr e ↦ rw e (launched_by-LaunchedOfPod port s h)
        ])
