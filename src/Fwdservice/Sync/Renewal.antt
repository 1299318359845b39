-- ===== src/Fwdservice/Sync/Renewal.antt =====
-- A synchronisation in pkg/fwdservice/fwdservice.go after all forwards were stopped: the
-- age of what it registers.
use kubefwd.Base.{
  is_blank, ℕ, ◌≡◌, ◌≤◌, inl, inr, List, [], ◌∷◌, Option, none, some, Bool, true, false, Text,
  text_key, All, All-map, All-append, arith, if◌then◌else◌, Bool-cases,
}
use kubefwd.Fwdip.Types.{Ip}
use kubefwd.Fwdservice.Types.{ServicePort, Pod, PortForwardOpts, ServiceFwd}
use kubefwd.Fwdservice.Ports.{current_ports, is_headless}
use kubefwd.Fwdservice.Forwards.{
  launch, new_forward, forward_port, loop_ports, loop_pods_to_forward, forward_name, start_launched,
  remove_service_pod, stop_all_port_forwards,
}
use kubefwd.Fwdservice.Forwards.Laws.{start_each-All}
use kubefwd.Fwdservice.Forwards.Launch.{launched_by, forward_port-cases}
use kubefwd.Fwdservice.Sync.{
  ForwardInfo, get_forward_infos, remove_unless, remove_stale_forwards, find_pod, forward_kept,
  sync_headless_service, sync_normal_service, do_sync_pods, pod_still_eligible, sync_found,
  get_pods_for_service,
}
use kubefwd.Fwdservice.Sync.Removal.{AllForwards, remove_service_pod-All}

-- The forward was made at the number `n` or later.
abbrev pub IsSince : ℕ → PortForwardOpts → Type 0
IsSince n pfo = n ≤ pfo.identity

-- All forwards, registered or starting, are of the number `n` or later.
pub record Renewed (n : ℕ) (s : ServiceFwd) : Type 0 where
  pub registered : AllForwards (IsSince n) s
  pub launched : All (IsSince n) s.launched
  pub next : n ≤ s.next_identity

module _ (n : ℕ) where
  remove_service_pod-Renewed :
      (key : Text) (s : ServiceFwd) → Renewed n s → Renewed n (remove_service_pod key s)
  unfolding remove_service_pod
  remove_service_pod-Renewed key s h = record {
    registered =
        All-map (remove_service_pod key s).port_forwards (λ e p. p.0)
          (remove_service_pod-All (λ e. IsSince n e.1) key s h.registered);
    launched = ground (arith, h.launched);
    next = ground (arith, h.next);
  }

  remove_unless-Renewed :
      (keep : Text → Bool) (infos : List ForwardInfo) (s : ServiceFwd)
      → Renewed n s
      → Renewed n (remove_unless keep infos s)
  unfolding remove_unless
  remove_unless-Renewed keep [] s h = h
  remove_unless-Renewed keep (info ∷ rest) s h =
      remove_unless-Renewed keep rest _ (one (keep info.pod_name))
    where
      one : (b : Bool) → Renewed n (if b then s else remove_service_pod info.key s)
      one true = h
      one false = remove_service_pod-Renewed info.key s h

  module _ (local_ip : Text → Pod → Option Ip) where
    launched_by-Renewed :
        (pod : Pod) (service : Text) (port : ServicePort) (s : ServiceFwd)
        → Renewed n s
        → Renewed n (launched_by local_ip pod service port s)
    unfolding launched_by launch new_forward
    launched_by-Renewed pod service port s h = record {
      registered = h.registered;
      launched =
          All-append (IsSince n) s.launched (new_forward local_ip s pod service port ∷ [])
            h.launched (h.next, tt);
      next = let k = h.next in omega arith;
    }

    loop_ports-Renewed :
        (pod : Pod) (service : Text) (ports : List ServicePort) (s : ServiceFwd)
        → Renewed n s
        → Renewed n (loop_ports local_ip pod service ports s)
    unfolding loop_ports
    loop_ports-Renewed pod service [] s h = h
    loop_ports-Renewed pod service (port ∷ rest) s h =
        loop_ports-Renewed pod service rest (forward_port local_ip pod service port s)
          (elim (forward_port-cases local_ip pod service port s) [
            | inl e ↦ rw e h
            | inr e ↦ rw e (launched_by-Renewed pod service port s h)
          ])

    loop_pods_to_forward-Renewed :
        (pods : List Pod) (include_pod_name : Bool) (s : ServiceFwd)
        → Renewed n s
        → Renewed n (loop_pods_to_forward local_ip pods include_pod_name s)
    unfolding loop_pods_to_forward
    loop_pods_to_forward-Renewed [] include_pod_name s h = h
    loop_pods_to_forward-Renewed (pod ∷ rest) include_pod_name s h =
        loop_pods_to_forward-Renewed rest include_pod_name _
          (loop_ports-Renewed pod (forward_name s pod include_pod_name) (current_ports s) s h)

    forward_kept-Renewed :
        (first : Pod) (pods : List Pod) (keep : Text) (s : ServiceFwd)
        → Renewed n s
        → Renewed n (forward_kept local_ip first pods keep s)
    unfolding forward_kept
    forward_kept-Renewed first pods keep s h = of_name (is_blank keep) (find_pod keep pods)
      where
        of_name :
            (b : Bool) (found : Option Pod)
            → Renewed n (
                if b then loop_pods_to_forward local_ip (first ∷ []) false s else elim found [
                  | none ↦ s
                  | some pod ↦ loop_pods_to_forward local_ip (pod ∷ []) false s
                ])
        of_name true found = loop_pods_to_forward-Renewed (first ∷ []) false s h
        of_name false none = h
        of_name false (some pod) = loop_pods_to_forward-Renewed (pod ∷ []) false s h

    sync-Renewed :
        (first : Pod) (pods : List Pod) (s : ServiceFwd)
        → Renewed n s
        → Renewed n (sync_headless_service local_ip first pods s)
          × Renewed n (sync_normal_service local_ip first pods s)
    unfolding sync_headless_service sync_normal_service
    sync-Renewed first pods s h = (
      loop_pods_to_forward-Renewed pods true _
          (loop_pods_to_forward-Renewed (first ∷ []) false s h),
      forward_kept-Renewed first pods _ _ (remove_unless-Renewed _ _ s h),
    )

    sync_found-Renewed :
        (pods : List Pod) (now : ℕ) (s : ServiceFwd)
        → Renewed n s
        → Renewed n (sync_found local_ip pods now s)
    unfolding sync_found remove_stale_forwards
    sync_found-Renewed [] now s h = record {
      registered = h.registered;
      launched = h.launched;
      next = h.next;
    }
    sync_found-Renewed (first ∷ rest) now s h =
        let quiet = record s { no_pods_logged = false } in
        let current =
          remove_unless-Renewed (λ name. pod_still_eligible name (first ∷ rest))
            (get_forward_infos s.port_forwards) quiet
            (record { registered = h.registered; launched = h.launched; next = h.next }) in
        elim (Bool-cases (is_headless s)) [
          | inl e ↦ rw e (stamped _ now (sync-Renewed first (first ∷ rest) _ current).0)
          | inr e ↦ rw e (stamped _ now (sync-Renewed first (first ∷ rest) _ current).1)
        ]
      where
        stamped :
            (t : ServiceFwd) (now : ℕ) → Renewed n t → Renewed n (record t { last_synced_at = now })
        stamped t now k = record { registered = k.registered; launched = k.launched; next = k.next }

    start_launched-Renewed :
        (s : ServiceFwd) → Renewed n s → AllForwards (IsSince n) (start_launched s)
    unfolding start_launched
    start_launched-Renewed s h =
        start_each-All (IsSince n) s.launched (record s { launched = [] }) h.launched h.registered

-- After all forwards of a service are stopped, with none still starting, a synchronisation of any kind
-- registers only forwards that were made after the stop.
pub do_sync_pods-stop_all_port_forwards :
    (local_ip : Text → Pod → Option Ip) (listed : Option (List Pod)) (now : ℕ) (s : ServiceFwd)
    → s.launched ≡ []
    → AllForwards
        (IsSince s.next_identity)
        (start_launched (do_sync_pods local_ip listed now (stop_all_port_forwards s)))
unfolding do_sync_pods stop_all_port_forwards
do_sync_pods-stop_all_port_forwards local_ip listed now s none_starting =
    start_launched-Renewed s.next_identity local_ip _ (
      sync_found-Renewed s.next_identity local_ip (get_pods_for_service listed) now _
        (record { registered = tt; launched = rw none_starting tt; next = omega arith }))
