-- ===== src/Fwdservice/Sync.antt =====
-- The synchronisation of pkg/fwdservice/fwdservice.go: which pods are eligible, which one is kept, and
-- what is forwarded after it.
pub mod Removal
pub mod Eligible
pub mod Launched
pub mod Normal
pub mod Renewal
use kubefwd.Base.{
  is_blank, ℕ, ◌+◌, List, [], ◌∷◌, Option, none, some, Bool, true, false, not, ◌&&◌, ◌||◌, Text,
  text_key, ◌==◌, Dict, ltb, if◌then◌else◌,
}
use kubefwd.Fwdip.Types.{Ip}
use kubefwd.Ring.Filtered.{select}
use kubefwd.Fwdservice.Types.{
  PodPhase, pending, running, succeeded, failed, unknown, Pod, PortForwardOpts, ServiceFwd,
}
use kubefwd.Fwdservice.Ports.{is_headless}
use kubefwd.Fwdservice.Forwards.{remove_service_pod, loop_pods_to_forward}

abbrev pub any_ready : List Bool → Bool
any_ready [] = false
any_ready (b ∷ rest) = b || any_ready rest

abbrev pub is_pending : PodPhase → Bool
is_pending pending = true
is_pending _ = false

abbrev pub is_active : PodPhase → Bool
is_active pending = true
is_active running = true
is_active _ = false

-- `isPodReady`
unfoldable pub is_pod_ready : Pod → Bool
is_pod_ready pod = if is_pending pod.phase then true else any_ready pod.ready

-- `isPodEligible`
unfoldable pub is_pod_eligible : Pod → Bool
is_pod_eligible pod = is_active pod.phase && not pod.deleting

-- `GetPodsForService`, from the pods that the cluster lists; `none` is an error of the listing.
unfoldable pub get_pods_for_service : Option (List Pod) → List Pod
get_pods_for_service none = []
get_pods_for_service (some pods) =
    select (λ pod. is_active pod.phase && not pod.deleting && is_pod_ready pod) pods

-- The loop of `podStillEligible`.
unfoldable pub pod_still_eligible : Text → List Pod → Bool
pod_still_eligible name [] = false
pod_still_eligible name (pod ∷ rest) =
    let later = pod_still_eligible name rest in
    if name == pod.name && is_pod_eligible pod then true else later

-- `forwardInfo`: the key and the name of the pod.
pub record ForwardInfo : Type 0 where
  pub key : Text
  pub pod_name : Text

-- `getForwardInfos`, in any one order of the map.
unfoldable pub get_forward_infos : Dict Text PortForwardOpts → List ForwardInfo
get_forward_infos [] = []
get_forward_infos ((k, pfo) ∷ rest) =
    record { key = k; pod_name = pfo.pod_name } ∷ get_forward_infos rest

-- The loops of `removeStaleForwards` and `syncNormalService`: forwards that fail a test are removed.
unfoldable pub remove_unless : (Text → Bool) → List ForwardInfo → ServiceFwd → ServiceFwd
remove_unless keep [] s = s
remove_unless keep (info ∷ rest) s =
    remove_unless keep rest (if keep info.pod_name then s else remove_service_pod info.key s)

-- `removeStaleForwards`
unfoldable pub remove_stale_forwards : List Pod → ServiceFwd → ServiceFwd
remove_stale_forwards pods s =
    remove_unless (λ name. pod_still_eligible name pods) (get_forward_infos s.port_forwards) s

-- The loop of `findPodNameToKeep`.
unfoldable pub first_eligible : List Pod → List ForwardInfo → Text
first_eligible pods [] = []
first_eligible pods (info ∷ rest) =
    let later = first_eligible pods rest in
    if pod_still_eligible info.pod_name pods then info.pod_name else later

-- `findPodNameToKeep`
unfoldable pub find_pod_name_to_keep : List Pod → ServiceFwd → Text
find_pod_name_to_keep pods s = first_eligible pods (get_forward_infos s.port_forwards)

-- The last loop of `syncNormalService`: the first pod of the name.
unfoldable pub find_pod : Text → List Pod → Option Pod
find_pod name [] = none
find_pod name (pod ∷ rest) =
    let later = find_pod name rest in if pod.name == name then some pod else later

module _ (local_ip : Text → Pod → Option Ip) where
  -- `syncHeadlessService`; the list is not empty.
  unfoldable pub sync_headless_service : Pod → List Pod → ServiceFwd → ServiceFwd
  sync_headless_service first pods s =
      loop_pods_to_forward local_ip pods true (loop_pods_to_forward local_ip (first ∷ []) false s)

  -- The end of `syncNormalService`, once the forwards of other pods are removed.
  unfoldable pub forward_kept : Pod → List Pod → Text → ServiceFwd → ServiceFwd
  forward_kept first pods keep s =
      if is_blank keep
      then loop_pods_to_forward local_ip (first ∷ []) false s
      else elim (find_pod keep pods) [
        | none ↦ s
        | some pod ↦ loop_pods_to_forward local_ip (pod ∷ []) false s
      ]

  -- `syncNormalService`
  unfoldable pub sync_normal_service : Pod → List Pod → ServiceFwd → ServiceFwd
  unfolding forward_kept
  sync_normal_service first pods s =
      let keep = find_pod_name_to_keep pods s in
      forward_kept first pods keep
        (remove_unless (λ name. name == keep) (get_forward_infos s.port_forwards) s)

  -- `doSyncPods` from the pods that are found on, with the time at its end.
  unfoldable pub sync_found : List Pod → ℕ → ServiceFwd → ServiceFwd
  unfolding sync_normal_service sync_headless_service
  sync_found [] now s = record s {
    no_pods_logged = true;
    retries = if ltb 0 s.retry_interval then s.retries + 1 else s.retries;
  }
  sync_found (first ∷ rest) now s =
      let current = remove_stale_forwards (first ∷ rest) (record s { no_pods_logged = false }) in
      let synced =
        if is_headless s
        then sync_headless_service first (first ∷ rest) current
        else sync_normal_service first (first ∷ rest) current in
      record synced { last_synced_at = now }

  -- `doSyncPods`, with the pods that the cluster lists.
  unfoldable pub do_sync_pods : Option (List Pod) → ℕ → ServiceFwd → ServiceFwd
  do_sync_pods listed now s = sync_found (get_pods_for_service listed) now s
