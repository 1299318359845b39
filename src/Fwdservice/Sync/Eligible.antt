-- ===== src/Fwdservice/Sync/Eligible.antt =====
-- Which pods pkg/fwdservice/fwdservice.go finds eligible, and which name it keeps.
use kubefwd.Base.{
  is_blank, ◌≡◌, ◌⊎◌, inl, inr, refl, List, [], ◌∷◌, Option, none, some, Bool, true, false, not,
  ◌&&◌, Text, text_key, text_beq_iff, ◌==◌, All, arith, Bool-cases,
}
use kubefwd.Ring.Filtered.{select}
use kubefwd.Fwdservice.Types.{Pod}
use kubefwd.Fwdservice.Sync.{
  ForwardInfo, is_active, is_pod_ready, is_pod_eligible, get_pods_for_service, pod_still_eligible,
  first_eligible, find_pod,
}

abbrev pub HaveNames : List Pod → Type 0
HaveNames pods = All (λ pod. is_blank pod.name ≡ false) pods

abbrev is_usable : Pod → Bool
is_usable pod = is_active pod.phase && not pod.deleting && is_pod_ready pod

select-usable : (pods : List Pod) → All (λ pod. is_pod_eligible pod ≡ true) (select is_usable pods)
unfolding select is_pod_eligible
select-usable [] = tt
select-usable (pod ∷ rest) = elim (Bool-cases (is_usable pod)) [
  | inl h ↦ rw h (ground arith, select-usable rest)
  | inr h ↦ rw h (select-usable rest)
]

pub get_pods_for_service-eligible :
    (listed : Option (List Pod))
    → All (λ pod. is_pod_eligible pod ≡ true) (get_pods_for_service listed)
unfolding get_pods_for_service
get_pods_for_service-eligible none = tt
get_pods_for_service-eligible (some pods) = select-usable pods

pub pod_still_eligible-first :
    (pod : Pod) (rest : List Pod)
    → is_pod_eligible pod ≡ true
    → pod_still_eligible pod.name (pod ∷ rest) ≡ true
unfolding pod_still_eligible
pod_still_eligible-first pod rest h = ground (arith, text_beq_iff pod.name pod.name)

-- An eligible name is found, with its pod.
pub find_pod-some :
    (name : Text) (pods : List Pod)
    → pod_still_eligible name pods ≡ true
    → (pod : Pod) × (find_pod name pods ≡ some pod) × (pod.name ≡ name)
unfolding find_pod pod_still_eligible
find_pod-some name [] h = ground arith
find_pod-some name (pod ∷ rest) h = elim (Bool-cases (pod.name == name)) [
  | inl same ↦ (pod, rw same refl, (text_beq_iff pod.name name).0 same)
  | inr other ↦ rw other (
      find_pod-some name rest
        (ground (arith, text_beq_iff name pod.name, text_beq_iff pod.name name)))
]

-- No name of a pod is blank.
pub pod_still_eligible-blank :
    (name : Text) (pods : List Pod)
    → HaveNames pods
    → is_blank name ≡ true
    → pod_still_eligible name pods ≡ false
unfolding pod_still_eligible
pod_still_eligible-blank name [] named h = refl
pod_still_eligible-blank name (pod ∷ rest) named h =
    ground
      (arith, text_beq_iff name pod.name, pod_still_eligible-blank name rest named.1 h, named.0)

-- The pod to keep is eligible, unless there is none.
pub first_eligible-cases :
    (pods : List Pod) (infos : List ForwardInfo)
    → (is_blank (first_eligible pods infos) ≡ true)
      ⊎ (pod_still_eligible (first_eligible pods infos) pods ≡ true)
unfolding first_eligible
first_eligible-cases pods [] = inl refl
first_eligible-cases pods (info ∷ rest) = ground (arith, first_eligible-cases pods rest)
