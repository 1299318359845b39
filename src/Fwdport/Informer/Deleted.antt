-- ===== src/Fwdport/Informer/Deleted.antt =====
-- Which forwards the deletion of a pod stops in pkg/fwdport/fwdport.go.
use mathlib.Core.List.{append_assoc, append-nil}
use mathlib.Core.Path.{ap₂}
use kubefwd.Base.{
  ℕ, zero, suc, ◌+◌, ◌≤◌, ◌<◌, ◌≡◌, refl, sym, ap, ◌∙◌, List, [], ◌∷◌, ◌++◌, some, false, Text,
  text_key, lookup, is_blank, nat_beq, length, get_or, get_or-set_self, take, drop, length-append,
  length-drop, drop-cons, arith,
}
use kubefwd.Fwdport.Informer.{
  PodInformer, Visited, cells, get_pods, place_of, shift, remove_at, remove_pfo, visit, remove_pfos,
  visit_from, delete_pod,
}

-- The forwards of a pod are its slice's; behind them in the array are `spare` cells.
pub record Forwards (uid : Text) (array : ℕ) (pfos spare : List ℕ) (g : PodInformer) : Type 0 where
  pub named : is_blank uid ≡ false
  pub listed : lookup uid g.active_pods ≡ some (record { array = array; used = length pfos })
  pub held : cells array g ≡ pfos ++ spare
  pub within : array < length g.arrays

take-length : (xs ys : List ℕ) → take (length xs) (xs ++ ys) ≡ xs
take-length [] ys = refl
take-length (x ∷ xs) ys = ap (λ (l : List ℕ). x ∷ l) (take-length xs ys)

shift-first :
    (a : ℕ) (rest spare : List ℕ)
    → shift 0 (suc (length rest)) (a ∷ rest ++ spare)
      ≡ rest ++ drop (length rest) (a ∷ rest ++ spare)
unfolding shift
shift-first a rest spare =
    ap (λ (k : ℕ). take k (rest ++ spare) ++ drop k (a ∷ rest ++ spare)) {y = length rest}
      (omega arith)
    ∙ ap (λ (l : List ℕ). l ++ drop (length rest) (a ∷ rest ++ spare)) (take-length rest spare)

place_of-first : (a : ℕ) (l : List ℕ) → place_of a (a ∷ l) ≡ some 0
unfolding place_of
place_of-first a l = ground arith

remove_pfo-first :
    (uid : Text) (array a : ℕ) (rest spare : List ℕ) (g : PodInformer)
    → Forwards uid array (a ∷ rest) spare g
    → remove_pfo uid a g ≡ remove_at uid (record { array = array; used = suc (length rest) }) 0 g
unfolding remove_pfo
remove_pfo-first uid array a rest spare g w =
    let found : place_of a (take (suc (length rest)) (cells array g)) ≡ some 0 =
      ap (λ (l : List ℕ). place_of a (take (suc (length rest)) l)) w.held
      ∙ place_of-first a (take (length rest) (rest ++ spare)) in
    rw (w.named, w.listed, found, remove_pfo) refl

-- A first forward is removed in place.
removed-first :
    (uid : Text) (array a : ℕ) (rest spare : List ℕ) (g : PodInformer)
    → Forwards uid array (a ∷ rest) spare g
    → cells array (remove_pfo uid a g) ≡ rest ++ drop (length rest) (a ∷ rest ++ spare)
unfolding cells remove_at
removed-first uid array a rest spare g w =
    ap (cells array) (remove_pfo-first uid array a rest spare g w)
    ∙ get_or-set_self g.arrays array (shift 0 (suc (length rest)) (cells array g)) [] w.within
    ∙ ap (shift 0 (suc (length rest))) w.held
    ∙ shift-first a rest spare

get_pods-Forwards :
    (uid : Text) (array a : ℕ) (rest spare : List ℕ) (g : PodInformer)
    → Forwards uid array (a ∷ rest) spare g
    → get_pods uid g ≡ some (record { array = array; used = suc (length rest) })
unfolding get_pods
get_pods-Forwards uid array a rest spare g w =
    let more : nat_beq (suc (length rest)) 0 ≡ false = ground arith in
    rw (w.listed, get_pods, more) refl

-- Only after the first round is a forward removed: the first one.
abbrev pub first_removed : ℕ → ℕ → List ℕ
first_removed a zero = a ∷ []
first_removed a (suc k) = []

first_removed-quiet : (a k : ℕ) → 1 ≤ k → first_removed a k ≡ []
first_removed-quiet a zero h = absurd (omega arith)
first_removed-quiet a (suc k) h = refl

-- What is left of the array behind the first two forwards, after the first has been removed.
left_over : ℕ → List ℕ → List ℕ → List ℕ
left_over b rest spare = rest ++ drop (length rest) (b ∷ rest ++ spare)

drop-last :
    (b : ℕ) (rest spare : List ℕ)
    → drop (length rest) (b ∷ rest ++ spare) ≡ get_or (b ∷ rest) (length rest) 0 ∷ spare
drop-last b [] spare = refl
drop-last b (c ∷ rest) spare = drop-last c rest spare

take-left_over :
    (b : ℕ) (rest spare : List ℕ)
    → take (suc (length rest)) (left_over b rest spare)
      ≡ rest ++ get_or (b ∷ rest) (length rest) 0 ∷ []
unfolding left_over
take-left_over b rest spare =
    let z = get_or (b ∷ rest) (length rest) 0 in
    ap (λ (l : List ℕ). take (suc (length rest)) (rest ++ l)) (drop-last b rest spare)
    ∙ take_past rest z spare
  where
    take_past :
        (xs : List ℕ) (z : ℕ) (ys : List ℕ) → take (suc (length xs)) (xs ++ z ∷ ys) ≡ xs ++ z ∷ []
    take_past [] z ys = refl
    take_past (x ∷ xs) z ys = ap (λ (l : List ℕ). x ∷ l) (take_past xs z ys)

module _ (service_of : ℕ → Text) where
  -- Rounds between which no forward is removed.
  visit_from-quiet :
      (removals : ℕ → List ℕ) (uid : Text) (array i left : ℕ) (g : PodInformer) (v : Visited)
      → ((k : ℕ) → i ≤ k → removals k ≡ [])
      → i + left ≤ length (cells array g)
      → (visit_from service_of removals uid array i left g v).1.stopped
        ≡ v.stopped ++ take left (drop i (cells array g))
  unfolding visit_from visit remove_pfos
  visit_from-quiet removals uid array i zero g v quiet h = sym (append-nil v.stopped)
  visit_from-quiet removals uid array i (suc left) g v quiet h =
      let pfo = get_or (cells array g) i 0 in
      rw (quiet i (omega arith), visit_from)
        (visit_from-quiet removals uid array (suc i) left g (visit service_of pfo v)
            (λ k le. quiet k (omega arith)) (omega arith)
          ∙ append_assoc v.stopped (pfo ∷ []) (take left (drop (suc i) (cells array g)))
          ∙ ap (λ (l : List ℕ). v.stopped ++ take (suc left) l)
              (sym (drop-cons i (cells array g) 0 (omega arith))))

  -- What `delete_pod` does with a slice that is found.
  delete_pod-found :
      (removals : ℕ → List ℕ) (uid : Text) (array a : ℕ) (rest spare : List ℕ) (g : PodInformer)
      → Forwards uid array (a ∷ rest) spare g
      → (delete_pod service_of removals uid g).1
        ≡ (visit_from service_of removals uid array 0
            (suc (length rest))
            g
            (record { stopped = []; synced = [] })).1
  unfolding delete_pod
  delete_pod-found removals uid array a rest spare g w =
      rw (get_pods-Forwards uid array a rest spare g w, delete_pod) refl

  visited-skipping :
      (uid : Text) (array a b : ℕ) (rest spare : List ℕ) (g : PodInformer) (v : Visited)
      → Forwards uid array (a ∷ b ∷ rest) spare g
      → (visit_from service_of
          (first_removed a)
          uid
          array
          0
          (suc (suc (length rest)))
          g
          v).1.stopped
        ≡ (v.stopped ++ a ∷ []) ++ take (suc (length rest)) (left_over b rest spare)
  unfolding visit_from visit remove_pfos left_over
  visited-skipping uid array a b rest spare g v w =
      let g1 = remove_pfo uid a g in
      let after : cells array g1 ≡ (b ∷ rest) ++ drop (length rest) (b ∷ rest ++ spare) =
        removed-first uid array a (b ∷ rest) spare g w in
      visit_from-quiet (first_removed a) uid array 1 (suc (length rest)) g1
        (visit service_of (get_or (cells array g) 0 0) v) (first_removed-quiet a)
        (omega (
          arith,
          ap length after,
          length-append (b ∷ rest) (drop (length rest) (b ∷ rest ++ spare)),
          length-drop (length rest) (b ∷ rest ++ spare),
          length-append rest spare,
        ))
      ∙ ap₂
          (λ (l m : List ℕ).
            (v.stopped ++ get_or l 0 0 ∷ []) ++ take (suc (length rest)) (drop 1 m))
          w.held after

  -- When a pod with forwards is deleted and no forward is removed from the informer meanwhile, the loop
  -- stops all the pod's forwards, each at its turn.
  pub delete_pod-undisturbed :
      (uid : Text) (array a : ℕ) (rest spare : List ℕ) (g : PodInformer)
      → Forwards uid array (a ∷ rest) spare g
      → (delete_pod service_of (λ k. []) uid g).1.stopped ≡ a ∷ rest
  delete_pod-undisturbed uid array a rest spare g w =
      ap (λ (v : Visited). v.stopped) (delete_pod-found (λ k. []) uid array a rest spare g w)
      ∙ visit_from-quiet (λ k. []) uid array 0 (suc (length rest)) g
          (record { stopped = []; synced = [] }) (λ k le. refl)
          (omega (arith, ap length w.held, length-append (a ∷ rest) spare))
      ∙ ap (take (suc (length rest))) w.held
      ∙ take-length (a ∷ rest) spare

  -- A pod that has two forwards `a` and `b` and then those of `rest`, in an array with or without spare
  -- cells, is deleted, and `RemoveServicePod` takes `a`, and no other of them, out of the informer after
  -- the loop's first round, as a synchronisation of the service of `a` does that runs at once. The loop
  -- then stops `a`, those of `rest` and at last the last forward of all: the removal has moved them in
  -- the array that the loop reads, so where others follow `b` it is passed over and the last one is
  -- stopped twice.
  pub delete_pod-first_removed :
      (uid : Text) (array a b : ℕ) (rest spare : List ℕ) (g : PodInformer)
      → Forwards uid array (a ∷ b ∷ rest) spare g
      → (delete_pod service_of (first_removed a) uid g).1.stopped
        ≡ a ∷ (rest ++ get_or (b ∷ rest) (length rest) 0 ∷ [])
  delete_pod-first_removed uid array a b rest spare g w =
      ap (λ (v : Visited). v.stopped)
        (delete_pod-found (first_removed a) uid array a (b ∷ rest) spare g w)
      ∙ visited-skipping uid array a b rest spare g (record { stopped = []; synced = [] }) w
      ∙ ap (λ (l : List ℕ). a ∷ l) (take-left_over b rest spare)
