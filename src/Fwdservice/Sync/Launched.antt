-- ===== src/Fwdservice/Sync/Launched.antt =====
-- The state of pkg/fwdservice/fwdservice.go once the forwards of one pod are launched and started.
use kubefwd.Base.{
  ℕ, ◌≡◌, inl, inr, refl, sym, subst, List, [], ◌∷◌, Option, Bool, true, false, not, ◌&&◌, Text,
  text_key, All, All-map, arith, Bool-cases,
}
use kubefwd.Fwdip.Types.{Ip}
use kubefwd.Ring.Filtered.{select}
use kubefwd.Fwdservice.Types.{ServicePort, Pod, ServiceFwd}
use kubefwd.Fwdservice.Ports.{current_ports, get_port_map, parses_as_int32}
use kubefwd.Fwdservice.Forwards.{
  forward_key, is_udp, loop_ports, loop_pods_to_forward, forward_name, start_launched,
}
use kubefwd.Fwdservice.Forwards.Laws.{IsForwarded, start_each-All}
use kubefwd.Fwdservice.Forwards.Launch.{
  IsForwardable, Covered, registered, launching, loop_ports-Extends, loop_ports-Covered,
  loop_ports-LaunchedOfPod, start_launched-IsForwarded,
}
use kubefwd.Fwdservice.Sync.{pod_still_eligible}
use kubefwd.Fwdservice.Sync.Removal.{Entry, AllForwards, SameService}

-- The ports of a service that can be forwarded.
abbrev pub is_forwardable : ServiceFwd → ServicePort → Bool
is_forwardable s port = not (is_udp port.protocol) && parses_as_int32 (get_port_map s port.port)

abbrev pub forwardable_ports : ServiceFwd → List ServicePort
forwardable_ports s = select (is_forwardable s) (current_ports s)

-- The state `s'` forwards every port of `s` to one eligible pod, and nothing to another pod.
pub record SettledOnOnePod (pods : List Pod) (s s' : ServiceFwd) : Type 0 where
  pub pod : Pod
  pub eligible : pod_still_eligible pod.name pods ≡ true
  pub only : AllForwards (λ pfo. pfo.pod_name ≡ pod.name) s'
  pub forwarded :
      All
        (λ port. IsForwarded (forward_key s.name pod.name (get_port_map s port.port)) s')
        (forwardable_ports s)

select-All {ℓ ℓ'} :
    {A : Type ℓ} (p : A → Bool) (Q : A → Type ℓ') (xs : List A)
    → All (λ x. p x ≡ true → Q x) xs
    → All Q (select p xs)
unfolding select
select-All p Q [] h = tt
select-All p Q (x ∷ xs) h = elim (Bool-cases (p x)) [
  | inl e ↦ rw e (h.0 e, select-All p Q xs h.1)
  | inr e ↦ rw e (select-All p Q xs h.1)
]

is_forwardable-IsForwardable :
    (s : ServiceFwd) (port : ServicePort) → is_forwardable s port ≡ true → IsForwardable s port
is_forwardable-IsForwardable s port h = ground arith

SameService-current_ports :
    (s s' : ServiceFwd) → SameService s s' → current_ports s' ≡ current_ports s
unfolding current_ports
SameService-current_ports s s' h = ground (arith, h.updated_spec, h.spec)

SameService-get_port_map : (s s' : ServiceFwd) → SameService s s' → get_port_map s' ≡ get_port_map s
unfolding get_port_map
SameService-get_port_map s s' h = λ i port. same port i
  where
    same : (port : ℕ) → get_port_map s' port ≡ get_port_map s port
    same port = rw h.port_map refl

module _ (local_ip : Text → Pod → Option Ip) (now : ℕ) where
  -- The state after the forwards of the pod have been launched and have started.
  unfoldable pub after_launch : Pod → ServiceFwd → ServiceFwd
  after_launch pod s =
      start_launched
        (record (loop_pods_to_forward local_ip (pod ∷ []) false s) { last_synced_at = now })

  touched-Covered :
      (key : Text) (s : ServiceFwd)
      → Covered key s
      → Covered key (record s { last_synced_at = now })
  touched-Covered key s (registered h) = registered h
  touched-Covered key s (launching before after pfo e k) = launching before after pfo e k

  module _ (pod : Pod) (s : ServiceFwd) where
    after_launch-IsForwarded :
        All
          (λ port.
            IsForwarded
              (forward_key s.name pod.name (get_port_map s port.port))
              (after_launch pod s))
          (forwardable_ports s)
    unfolding after_launch loop_pods_to_forward forward_name
    after_launch-IsForwarded = select-All (is_forwardable s) _ (current_ports s) (
        All-map (current_ports s)
          (λ port covered h.
            start_launched-IsForwarded _ _
              (touched-Covered _ _ (covered (is_forwardable-IsForwardable s port h))))
          (loop_ports-Covered local_ip pod s.name (current_ports s) s))

    after_launch-only :
        s.launched ≡ []
        → AllForwards (λ pfo. pfo.pod_name ≡ pod.name) s
        → AllForwards (λ pfo. pfo.pod_name ≡ pod.name) (after_launch pod s)
    unfolding after_launch loop_pods_to_forward forward_name start_launched
    after_launch-only none_launched all =
        let t = loop_ports local_ip pod s.name (current_ports s) s in
        let e = loop_ports-Extends local_ip pod s.name (current_ports s) s in
        start_each-All (λ pfo. pfo.pod_name ≡ pod.name) t.launched _
          (loop_ports-LaunchedOfPod local_ip pod s.name (current_ports s) s (rw none_launched tt))
          (subst (All (λ (x : Entry). x.1.pod_name ≡ pod.name)) (sym e.port_forwards) all)

  pub after_launch-SettledOnOnePod :
      (pods : List Pod) (pod : Pod) (s s' : ServiceFwd)
      → SameService s s'
      → pod_still_eligible pod.name pods ≡ true
      → s'.launched ≡ []
      → AllForwards (λ pfo. pfo.pod_name ≡ pod.name) s'
      → SettledOnOnePod pods s (after_launch pod s')
  after_launch-SettledOnOnePod pods pod s s' h eligible launched only = record {
    pod = pod;
    eligible = eligible;
    only = after_launch-only pod s' launched only;
    forwarded =
        subst3 s.name (get_port_map s) (current_ports s) (h.name) (SameService-get_port_map s s' h)
          (SameService-current_ports s s' h) (after_launch-IsForwarded pod s');
  }
    where
      subst3 :
          (name : Text) (map : ℕ → Text) (ports : List ServicePort)
          → s'.name ≡ name
          → get_port_map s' ≡ map
          → current_ports s' ≡ ports
          → All
              (λ port.
                IsForwarded
                  (forward_key s'.name pod.name (get_port_map s' port.port))
                  (after_launch pod s'))
              (forwardable_ports s')
          → All
              (λ port.
                IsForwarded (forward_key name pod.name (map port.port)) (after_launch pod s'))
              (select (λ port. not (is_udp port.protocol) && parses_as_int32 (map port.port)) ports)
      subst3 name map ports e f g all = rw (← e, ← f, ← g) all
