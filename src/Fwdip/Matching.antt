-- ===== src/Fwdip/Matching.antt =====
-- The names by which a reservation can mean a service: `MatchList`, `Matches` and `MatchesName` of
-- pkg/fwdip/fwdIp.go.
pub mod Scope
use kubefwd.Base.{
  ◌++◌, ◌&&◌, Bool, true, false, List, [], ◌∷◌, Text, ascii, contains, ◌==◌, nat_key, text_key, ltb,
  if◌then◌else◌,
}
use kubefwd.Fwdip.Types.{ForwardIpOpts, ServiceConfiguration}

-- `fmt.Sprintf("%s.%s", s, t)`
infixr 66 ◌⊙◌
abbrev pub ◌⊙◌ : Text → Text → Text
s ⊙ t = s ++ b'.' ∷ t

abbrev pub svc : Text
svc = ascii "svc"

abbrev pub svc_cluster : Text
svc_cluster = ascii "svc.cluster"

abbrev pub svc_cluster_local : Text
svc_cluster_local = ascii "svc.cluster.local"

-- The name of the pod, of the service, of the namespace and of the context.
module _ (p s n c : Text) where
  abbrev pub local_names : List Text
  local_names =
      p
      ∷ s
      ∷ (s ⊙ svc)
      ∷ (p ⊙ s)
      ∷ (p ⊙ c)
      ∷ (s ⊙ c)
      ∷ (p ⊙ n)
      ∷ (p ⊙ n ⊙ svc)
      ∷ (p ⊙ n ⊙ svc_cluster_local)
      ∷ (s ⊙ n)
      ∷ (s ⊙ n ⊙ svc)
      ∷ (s ⊙ n ⊙ svc_cluster_local)
      ∷ (p ⊙ s ⊙ n)
      ∷ (p ⊙ s ⊙ n ⊙ svc)
      ∷ (p ⊙ s ⊙ n ⊙ svc_cluster_local)
      ∷ (p ⊙ s ⊙ c)
      ∷ (p ⊙ n ⊙ c)
      ∷ (p ⊙ n ⊙ svc ⊙ c)
      ∷ (p ⊙ n ⊙ svc_cluster ⊙ c)
      ∷ (s ⊙ n ⊙ c)
      ∷ (s ⊙ n ⊙ svc ⊙ c)
      ∷ (s ⊙ n ⊙ svc_cluster ⊙ c)
      ∷ (p ⊙ s ⊙ n ⊙ c)
      ∷ (p ⊙ s ⊙ n ⊙ svc ⊙ c)
      ∷ (p ⊙ s ⊙ n ⊙ svc_cluster ⊙ c)
      ∷ []

  abbrev pub remote_cluster_names : List Text
  remote_cluster_names =
      (p ⊙ c)
      ∷ (p ⊙ s ⊙ c)
      ∷ (s ⊙ c)
      ∷ (s ⊙ n ⊙ c)
      ∷ (s ⊙ n ⊙ svc ⊙ c)
      ∷ (s ⊙ n ⊙ svc_cluster ⊙ c)
      ∷ (p ⊙ n ⊙ c)
      ∷ (p ⊙ n ⊙ svc ⊙ c)
      ∷ (p ⊙ n ⊙ svc_cluster ⊙ c)
      ∷ (p ⊙ s ⊙ n ⊙ c)
      ∷ (p ⊙ s ⊙ n ⊙ svc ⊙ c)
      ∷ (p ⊙ s ⊙ n ⊙ svc_cluster ⊙ c)
      ∷ []

  abbrev pub other_namespace_names : List Text
  other_namespace_names =
      (p ⊙ n)
      ∷ (p ⊙ n ⊙ svc)
      ∷ (s ⊙ n)
      ∷ (s ⊙ n ⊙ svc)
      ∷ (s ⊙ n ⊙ svc_cluster_local)
      ∷ (p ⊙ s ⊙ n)
      ∷ (p ⊙ s ⊙ n ⊙ svc)
      ∷ (p ⊙ s ⊙ n ⊙ svc_cluster_local)
      ∷ (p ⊙ n ⊙ c)
      ∷ (p ⊙ n ⊙ svc ⊙ c)
      ∷ (p ⊙ n ⊙ svc_cluster ⊙ c)
      ∷ (s ⊙ n ⊙ c)
      ∷ (s ⊙ n ⊙ svc ⊙ c)
      ∷ (s ⊙ n ⊙ svc_cluster ⊙ c)
      ∷ (p ⊙ s ⊙ n ⊙ c)
      ∷ (p ⊙ s ⊙ n ⊙ svc ⊙ c)
      ∷ (p ⊙ s ⊙ n ⊙ svc_cluster ⊙ c)
      ∷ []

  abbrev pub remote_names : List Text
  remote_names =
      (p ⊙ n ⊙ c)
      ∷ (p ⊙ n ⊙ svc ⊙ c)
      ∷ (p ⊙ n ⊙ svc_cluster ⊙ c)
      ∷ (s ⊙ n ⊙ c)
      ∷ (s ⊙ n ⊙ svc ⊙ c)
      ∷ (s ⊙ n ⊙ svc_cluster ⊙ c)
      ∷ (p ⊙ s ⊙ n ⊙ c)
      ∷ (p ⊙ s ⊙ n ⊙ svc ⊙ c)
      ∷ (p ⊙ s ⊙ n ⊙ svc_cluster ⊙ c)
      ∷ []

-- `ForwardIPOpts.MatchList`
unfoldable pub match_list : ForwardIpOpts → List Text
match_list o =
    if o.cluster_n == 0 && o.namespace_n == 0
    then local_names p s n c
    else if ltb 0 o.cluster_n && o.namespace_n == 0
    then remote_cluster_names p s n c
    else if o.cluster_n == 0 && ltb 0 o.namespace_n
    then other_namespace_names p s n c
    else remote_names p s n c
  where
    open o use {pod_name as p, service_name as s, namespace as n, cluster as c}

-- `ServiceConfiguration.Matches`
unfoldable pub matches : ServiceConfiguration → ForwardIpOpts → Bool
matches conf o = contains conf.name (match_list o)

-- `ServiceConfiguration.MatchesName`
unfoldable pub matches_name : ServiceConfiguration → ServiceConfiguration → Bool
matches_name conf other = conf.name == other.name
