-- ===== src/Fwdservice/Sync/Normal.antt =====
-- A synchronisation of a service with a cluster address, in pkg/fwdservice/fwdservice.go: which
-- pod it settles on, and what it forwards.
use kubefwd.Base.{
  is_blank, ℕ, ◌≡◌, ◌⊎◌, inl, inr, refl, sym, subst, ap, ◌∙◌, List, [], ◌∷◌, Option, true, false,
  Text, text_key, text_beq_iff, ◌==◌, All, All-map, arith, Bool-cases,
}
use kubefwd.Fwdip.Types.{Ip}
use kubefwd.Fwdservice.Types.{Pod, ServiceFwd}
use kubefwd.Fwdservice.Ports.{is_headless}
use kubefwd.Fwdservice.Forwards.{start_launched}
use kubefwd.Fwdservice.Sync.{
  get_forward_infos, is_pod_eligible, get_pods_for_service, pod_still_eligible, remove_unless,
  remove_stale_forwards, find_pod_name_to_keep, forward_kept, sync_normal_service, do_sync_pods,
  sync_found,
}
use kubefwd.Fwdservice.Sync.Removal.{
  Entry, AllForwards, SameService, SameService-trans, remove_unless-SameService,
  remove_unless-AllForwards,
}
use kubefwd.Fwdservice.Sync.Eligible.{
  HaveNames, get_pods_for_service-eligible, pod_still_eligible-first, find_pod-some,
  pod_still_eligible-blank, first_eligible-cases,
}
use kubefwd.Fwdservice.Sync.Launched.{SettledOnOnePod, after_launch, after_launch-SettledOnOnePod}

-- The service once only the forwards of the pod to keep are left.
abbrev swept : List Pod → ServiceFwd → ServiceFwd
swept pods s = remove_stale_forwards pods (record s { no_pods_logged = false })

abbrev kept_name : List Pod → ServiceFwd → Text
kept_name pods s = find_pod_name_to_keep pods (swept pods s)

abbrev only_kept : List Pod → ServiceFwd → ServiceFwd
only_kept pods s =
    remove_unless (λ name. name == kept_name pods s)
      (get_forward_infos (swept pods s).port_forwards) (swept pods s)

swept-SameService : (pods : List Pod) (s : ServiceFwd) → SameService s (swept pods s)
unfolding remove_stale_forwards
swept-SameService pods s =
    SameService-trans s (record s { no_pods_logged = false }) _
      (record { name = refl; spec = refl; updated_spec = refl; port_map = refl; launched = refl })
      (remove_unless-SameService _ _ (record s { no_pods_logged = false }))

only_kept-SameService : (pods : List Pod) (s : ServiceFwd) → SameService s (only_kept pods s)
only_kept-SameService pods s =
    SameService-trans s (swept pods s) _ (swept-SameService pods s)
      (remove_unless-SameService _ _ (swept pods s))

-- What is left is of a pod that is still eligible, and it is the pod to keep.
only_kept-AllForwards :
    (pods : List Pod) (s : ServiceFwd)
    → AllForwards
        (λ pfo.
          (pod_still_eligible pfo.pod_name pods ≡ true)
          × ((pfo.pod_name == kept_name pods s) ≡ true))
        (only_kept pods s)
unfolding remove_stale_forwards
only_kept-AllForwards pods s =
    remove_unless-AllForwards (λ name. name == kept_name pods s)
      (λ pfo. pod_still_eligible pfo.pod_name pods ≡ true) (swept pods s)
      (All-map (swept pods s).port_forwards (λ e h. h.1)
        (remove_unless-AllForwards (λ name. pod_still_eligible name pods) (λ pfo. Unit {0})
          (record s { no_pods_logged = false }) (All-any s.port_forwards)))
  where
    All-any : (d : List Entry) → All (λ (e : Entry). Unit {0}) d
    All-any [] = tt
    All-any (e ∷ d) = (tt, All-any d)

do_sync_pods-normal :
    (local_ip : Text → Pod → Option Ip) (listed : Option (List Pod)) (now : ℕ) (s : ServiceFwd)
    (first : Pod) (rest : List Pod)
    → is_headless s ≡ false
    → get_pods_for_service listed ≡ first ∷ rest
    → do_sync_pods local_ip listed now s
      ≡ record (forward_kept local_ip first
          (first ∷ rest)
          (kept_name (first ∷ rest) s)
          (only_kept (first ∷ rest) s)) { last_synced_at = now }
unfolding do_sync_pods sync_found sync_normal_service
do_sync_pods-normal local_ip listed now s first rest normal found =
    ap (λ (pods : List Pod). sync_found local_ip pods now s) found ∙ rw normal refl

-- With the other pods' forwards gone, the pod to keep, or else the first one, is forwarded.
forward_kept-SettledOnOnePod :
    (local_ip : Text → Pod → Option Ip) (now : ℕ) (first : Pod) (rest : List Pod) (keep : Text)
    (s s' : ServiceFwd)
    → SameService s s'
    → pod_still_eligible first.name (first ∷ rest) ≡ true
    → HaveNames (first ∷ rest)
    → (is_blank keep ≡ true) ⊎ (pod_still_eligible keep (first ∷ rest) ≡ true)
    → s'.launched ≡ []
    → AllForwards
        (λ pfo.
          (pod_still_eligible pfo.pod_name (first ∷ rest) ≡ true) × ((pfo.pod_name == keep) ≡ true))
        s'
    → SettledOnOnePod (first ∷ rest) s (
        start_launched
          (record (forward_kept local_ip first (first ∷ rest) keep s') { last_synced_at = now }))
unfolding forward_kept after_launch
forward_kept-SettledOnOnePod local_ip now first rest keep s s' same eligible named kept launched
      all =
    elim (Bool-cases (is_blank keep)) [
      | inl blank ↦ rw blank (
          after_launch-SettledOnOnePod local_ip now (first ∷ rest) first s s' same eligible launched
            (All-map s'.port_forwards (λ e h. absurd (not_blank e.1.pod_name blank h.0 h.1)) all))
      | inr present ↦
          let found = find_pod-some keep (first ∷ rest) (ground arith) in
          rw (present, found.1)
            (after_launch-SettledOnOnePod local_ip now (first ∷ rest) found.0 s s' same
              (eligible_as found.0 found.2 (ground arith)) launched
              (All-map s'.port_forwards
                (λ e h. (text_beq_iff e.1.pod_name keep).0 h.1 ∙ sym found.2) all))
    ]
  where
    eligible_as :
        (pod : Pod)
        → pod.name ≡ keep
        → pod_still_eligible keep (first ∷ rest) ≡ true
        → pod_still_eligible pod.name (first ∷ rest) ≡ true
    eligible_as pod e h = ap (λ (name : Text). pod_still_eligible name (first ∷ rest)) e ∙ h

    not_blank :
        (name : Text)
        → is_blank keep ≡ true
        → pod_still_eligible name (first ∷ rest) ≡ true
        → (name == keep) ≡ true
        → ⊥
    not_blank name blank h e =
        let g = pod_still_eligible-blank keep (first ∷ rest) named blank in
        cc (
          ap (λ (n : Text). pod_still_eligible n (first ∷ rest)) ((text_beq_iff name keep).0 e),
          g,
          h,
        )

-- After a synchronisation of a service that is not headless, where the cluster lists eligible pods and
-- no forward is still starting, and once the launched forwards have started, all forwards of the
-- service are of one eligible pod, and every port that can be forwarded is forwarded to that pod.
pub do_sync_pods-SettledOnOnePod :
    (local_ip : Text → Pod → Option Ip) (listed : Option (List Pod)) (now : ℕ) (s : ServiceFwd)
    (first : Pod) (rest : List Pod)
    → is_headless s ≡ false
    → get_pods_for_service listed ≡ first ∷ rest
    → HaveNames (first ∷ rest)
    → s.launched ≡ []
    → SettledOnOnePod (first ∷ rest) s (start_launched (do_sync_pods local_ip listed now s))
unfolding find_pod_name_to_keep
do_sync_pods-SettledOnOnePod local_ip listed now s first rest normal found named launched =
    subst (λ (t : ServiceFwd). SettledOnOnePod (first ∷ rest) s (start_launched t))
      (sym (do_sync_pods-normal local_ip listed now s first rest normal found))
      (forward_kept-SettledOnOnePod local_ip now first rest (kept_name (first ∷ rest) s) s
        (only_kept (first ∷ rest) s) (only_kept-SameService (first ∷ rest) s)
        (pod_still_eligible-first first rest (eligible_first listed found)) named
        (first_eligible-cases (first ∷ rest)
          (get_forward_infos (swept (first ∷ rest) s).port_forwards))
        (cc (SameService.launched (only_kept-SameService (first ∷ rest) s), launched))
        (only_kept-AllForwards (first ∷ rest) s))
  where
    eligible_first :
        (listed : Option (List Pod))
        → get_pods_for_service listed ≡ first ∷ rest
        → is_pod_eligible first ≡ true
    eligible_first listed found =
        (subst (All (λ pod. is_pod_eligible pod ≡ true)) found
          (get_pods_for_service-eligible listed)).0
