-- ===== src/Fwdport/Informer.antt =====
-- `GlobalPodInformer` of pkg/fwdport/fwdport.go: the forwards of each pod, and what a pod's deletion does
-- with them. A slice is an address of an array and a length, since a loop over it and `removePfo` share
-- the array. Forwards are known by numbers; `spare` is how much larger than asked for `append` makes an
-- array, and `service_of` the name of a forward's service.
pub mod Deleted
use kubefwd.Base.{
  ℕ, zero, suc, ◌+◌, ◌-◌, List, [], ◌∷◌, ◌++◌, Option, none, some, Bool, Text, text_key, nat_key,
  Dict, lookup, insert, erase, contains, is_blank, length, get_or, set, take, drop, replicate, ltb,
  nat_beq, if◌then◌else◌,
}
use mathlib.Core.Option

pub record Slice : Type 0 where
  pub array : ℕ
  pub used : ℕ

-- `GlobalPodInformer`: activePods, and the arrays of its slices.
pub record PodInformer : Type 0 where
  pub active_pods : Dict Text Slice
  pub arrays : List (List ℕ)

unfoldable pub cells : ℕ → PodInformer → List ℕ
cells array g = get_or g.arrays array []

-- `getPods`, where it finds some.
unfoldable pub get_pods : Text → PodInformer → Option Slice
get_pods uid g = elim (lookup uid g.active_pods) [
  | none ↦ none
  | some s ↦ if nat_beq s.used 0 then none else some s
]

-- `append(gpi.activePods[pod.UID], pfo)` that needs a new array.
unfoldable pub move_pods : (ℕ → ℕ) → Text → List ℕ → ℕ → PodInformer → PodInformer
move_pods spare uid old pfo g =
    let n = length old + 1 in
    record {
      active_pods = insert uid (record { array = length g.arrays; used = n }) g.active_pods;
      arrays = g.arrays ++ (old ++ pfo ∷ replicate (spare n) 0) ∷ [];
    }

-- `addPod`
unfoldable pub add_pod : (ℕ → ℕ) → Text → ℕ → PodInformer → PodInformer
unfolding move_pods cells
add_pod spare uid pfo g = elim (lookup uid g.active_pods) [
  | none ↦ move_pods spare uid [] pfo g
  | some s ↦
      if ltb s.used (length (cells s.array g))
      then record {
        active_pods = insert uid (record s { used = s.used + 1 }) g.active_pods;
        arrays = set g.arrays s.array (set (cells s.array g) s.used pfo);
      }
      else move_pods spare uid (take s.used (cells s.array g)) pfo g
]

-- `removePod`
unfoldable pub remove_pod : Text → PodInformer → PodInformer
remove_pod uid g = record g { active_pods = erase uid g.active_pods }

-- The place of a forward.
unfoldable pub place_of : ℕ → List ℕ → Option ℕ
place_of pfo [] = none
place_of pfo (p ∷ rest) =
    let later = Option.map suc (place_of pfo rest) in if nat_beq p pfo then some 0 else later

-- `append(pfos[:i], pfos[i+1:]...)` in the array of `pfos`, of which `used` cells are in the slice.
unfoldable pub shift : ℕ → ℕ → List ℕ → List ℕ
shift i used array =
    take i array ++ take (used - suc i) (drop (suc i) array) ++ drop (used - 1) array

unfoldable pub remove_at : Text → Slice → ℕ → PodInformer → PodInformer
unfolding shift cells
remove_at uid s i g = record {
  active_pods =
      if nat_beq (s.used - 1) 0
      then erase uid g.active_pods
      else insert uid (record s { used = s.used - 1 }) g.active_pods;
  arrays = set g.arrays s.array (shift i s.used (cells s.array g));
}

-- `removePfo` of a forward with its pod.
unfoldable pub remove_pfo : Text → ℕ → PodInformer → PodInformer
unfolding remove_at place_of cells
remove_pfo uid pfo g = if is_blank uid then g else elim (lookup uid g.active_pods) [
  | none ↦ g
  | some s ↦ elim (place_of pfo (take s.used (cells s.array g))) [
    | none ↦ if nat_beq s.used 0 then remove_pod uid g else g
    | some i ↦ remove_at uid s i g
  ]
]

-- The forwards that have been stopped, and the services that have been synchronised.
pub record Visited : Type 0 where
  pub stopped : List ℕ
  pub synced : List Text

module _ (service_of : ℕ → Text) where
  -- The body of the loop: `Stop`, and `SyncPodForwards` once for each service.
  unfoldable pub visit : ℕ → Visited → Visited
  visit pfo v = record {
    stopped = v.stopped ++ pfo ∷ [];
    synced =
        if contains (service_of pfo) v.synced then v.synced else v.synced ++ service_of pfo ∷ [];
  }

  unfoldable pub remove_pfos : Text → List ℕ → PodInformer → PodInformer
  unfolding remove_pfo
  remove_pfos uid [] g = g
  remove_pfos uid (pfo ∷ rest) g = remove_pfos uid rest (remove_pfo uid pfo g)

  -- The loop of `UpdateFunc` and of `DeleteFunc`, of which `left` rounds are left; `removals` are the
  -- forwards of the pod that `RemoveServicePod` takes out with `RemovePfo` after a round, be it in the
  -- synchronisation that the round begins or elsewhere.
  unfoldable pub visit_from :
      (ℕ → List ℕ) → Text → ℕ → ℕ → ℕ → PodInformer → Visited → PodInformer × Visited
  unfolding visit remove_pfos cells
  visit_from removals uid array i zero g v = (g, v)
  visit_from removals uid array i (suc left) g v =
      visit_from removals uid array (suc i) left (remove_pfos uid (removals i) g)
        (visit (get_or (cells array g) i 0) v)

  -- `DeleteFunc` of a pod, and `UpdateFunc` of one that is marked for deletion.
  unfoldable pub delete_pod : (ℕ → List ℕ) → Text → PodInformer → PodInformer × Visited
  unfolding visit_from
  delete_pod removals uid g = elim (get_pods uid g) [
    | none ↦ (g, record { stopped = []; synced = [] })
    | some s ↦
        let (g1, v) =
          visit_from removals uid s.array 0 s.used g (record { stopped = []; synced = [] }) in
        (remove_pod uid g1, v)
  ]
