-- ===== src/Fwdip/Matching/Scope.antt =====
-- How the scope of a service, near or far, bears on the names that mean it.
use kubefwd.Base.{
  ℕ, ◌≡◌, refl, sym, subst, inl, inr, List, [], ◌∷◌, Text, All, Key, contains, true, false, Bool,
  arith, nat_key, text_key, Bool-cases, ◌==◌, ◌<◌,
}
use kubefwd.Fwdip.Types.{ForwardIpOpts, ServiceConfiguration}
use kubefwd.Fwdip.Matching.{
  match_list, matches, local_names, remote_cluster_names, other_namespace_names, remote_names,
}

-- The name stands in the list.
data In {ℓ} {A : Type ℓ} (a : A) : List A → Type ℓ where
  here : {xs : List A} → In a (a ∷ xs)
  there : {x : A} {xs : List A} → In a xs → In a (x ∷ xs)

module _ {ℓ} {A : Type ℓ} ⦃key : Key A⦄ where
  contains-In : (a : A) (xs : List A) → contains a xs ≡ true → In a xs
  unfolding contains
  contains-In a [] h = cc
  contains-In a (x ∷ xs) h = elim (Bool-cases (x == a)) [
    | inl same ↦ subst (λ y. In a (y ∷ xs)) (sym ((key.same_iff x a).0 same)) here
    | inr other ↦ there (contains-In a xs (ground arith))
  ]

  In-contains : (a : A) (xs : List A) → In a xs → contains a xs ≡ true
  unfolding contains
  In-contains a _ (here {xs = xs}) = ground (arith, key.same_iff a a)
  In-contains a _ (there {x = x} {xs = xs} m) = ground (arith, In-contains a xs m)

  In-subset : (a : A) (xs ys : List A) → All (λ x. In x ys) xs → In a xs → In a ys
  In-subset a _ ys all (here {xs = xs}) = all.0
  In-subset a _ ys all (there {x = x} {xs = xs} m) = In-subset a xs ys all.1 m

module _ (p s n c : Text) where
  remote-All-local : All (λ x. In x (local_names p s n c)) (remote_names p s n c)
  remote-All-local = search (here, there, tt) depth 30

  remote-All-remote_cluster : All (λ x. In x (remote_cluster_names p s n c)) (remote_names p s n c)
  remote-All-remote_cluster = search (here, there, tt) depth 30

  remote-All-other_namespace :
      All (λ x. In x (other_namespace_names p s n c)) (remote_names p s n c)
  remote-All-other_namespace = search (here, there, tt) depth 30

  remote_cluster-All-local : All (λ x. In x (local_names p s n c)) (remote_cluster_names p s n c)
  remote_cluster-All-local = search (here, there, tt) depth 30

  other_namespace-All-local : All (λ x. In x (local_names p s n c)) (other_namespace_names p s n c)
  other_namespace-All-local = search (here, there, tt) depth 30

  -- The lists by whether the cluster and the namespace are those of the user.
  abbrev names : Bool → Bool → List Text
  names true true = local_names p s n c
  names false true = remote_cluster_names p s n c
  names true false = other_namespace_names p s n c
  names false false = remote_names p s n c

  names-nearer :
      (near_c near_n near_c' near_n' : Bool) (a : Text)
      → (near_c ≡ true → near_c' ≡ true)
      → (near_n ≡ true → near_n' ≡ true)
      → In a (names near_c near_n)
      → In a (names near_c' near_n')
  names-nearer true true true true a h k m = m
  names-nearer true true false _ a h k m = cc (h refl)
  names-nearer true true true false a h k m = cc (k refl)
  names-nearer false true true true a h k m = In-subset a _ _ remote_cluster-All-local m
  names-nearer false true false true a h k m = m
  names-nearer false true _ false a h k m = cc (k refl)
  names-nearer true false true true a h k m = In-subset a _ _ other_namespace-All-local m
  names-nearer true false true false a h k m = m
  names-nearer true false false _ a h k m = cc (h refl)
  names-nearer false false true true a h k m = In-subset a _ _ remote-All-local m
  names-nearer false false false true a h k m = In-subset a _ _ remote-All-remote_cluster m
  names-nearer false false true false a h k m = In-subset a _ _ remote-All-other_namespace m
  names-nearer false false false false a h k m = m

match_list-names :
    (o : ForwardIpOpts)
    → match_list o
      ≡ names o.pod_name o.service_name o.namespace o.cluster
          (o.cluster_n == 0)
          (o.namespace_n == 0)
unfolding match_list
match_list-names o = ground arith

-- A reservation that matches a service matches it too where the cluster or the namespace is
-- numbered nearer: an index of 0 may stand for any, a positive one for a positive one only.
pub matches-nearer :
    (conf : ServiceConfiguration) (o : ForwardIpOpts) (c n : ℕ)
    → (0 < c → 0 < o.cluster_n)
    → (0 < n → 0 < o.namespace_n)
    → matches conf o ≡ true
    → matches conf (record o { cluster_n = c; namespace_n = n }) ≡ true
unfolding matches
matches-nearer conf o c n hc hn h = In-contains conf.name _ (
    rw (match_list-names (record o { cluster_n = c; namespace_n = n })) (
      names-nearer o.pod_name o.service_name o.namespace o.cluster (o.cluster_n == 0)
        (o.namespace_n == 0) (c == 0) (n == 0) conf.name (λ z. ground arith) (λ z. ground arith)
        (rw (match_list-names o) at (contains-In conf.name (match_list o) h))))
