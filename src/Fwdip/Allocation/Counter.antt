-- ===== src/Fwdip/Allocation/Counter.antt =====
-- The counters of `determineIP`: what they read, and that the rest of the registry keeps still.
use kubefwd.Base.{
  ◌+◌, ◌≡◌, refl, List, [], ◌∷◌, none, Text, lookup, insert, lookup-insert, text_key, nat_key,
  arith,
}
use kubefwd.Fwdip.Types.{ForwardIpOpts, Ip, Registry, ServiceConfiguration}
use kubefwd.Fwdip.Allocation.{
  enter, add_to_registry, or_empty, offset, start_cluster, increment, place_reserved,
}

pub offset-start_cluster :
    (o : ForwardIpOpts) (r : Registry) → offset o (start_cluster o r) ≡ offset o r
unfolding offset start_cluster lookup
offset-start_cluster o r = ground (arith, lookup-insert o.cluster_n o.cluster_n ((0, 0) ∷ []) r.inc)

pub offset-increment :
    (o : ForwardIpOpts) (r : Registry) → offset o (increment o r) ≡ offset o r + 1
unfolding offset increment
offset-increment o r = ground (
  arith,
  lookup-insert o.cluster_n o.cluster_n
      (insert o.namespace_n (offset o r + 1) (or_empty (lookup o.cluster_n r.inc))) r.inc,
  lookup-insert o.namespace_n o.namespace_n (offset o r + 1) (or_empty (lookup o.cluster_n r.inc)),
)

-- What a round leaves alone.
pub record Untouched (r r' : Registry) : Type 0 where
  pub reg : r'.reg ≡ r.reg
  pub allocated : r'.allocated ≡ r.allocated

pub start_cluster-Untouched : (o : ForwardIpOpts) (r : Registry) → Untouched r (start_cluster o r)
unfolding start_cluster
start_cluster-Untouched o r = ground arith

pub increment-Untouched : (o : ForwardIpOpts) (r : Registry) → Untouched r (increment o r)
unfolding increment
increment-Untouched o r = ground arith

pub offset-enter :
    (o : ForwardIpOpts) (key : Text) (ip : Ip) (r : Registry)
    → offset o (enter key ip r) ≡ offset o r
unfolding offset
offset-enter o key ip r = refl

pub place_reserved-none :
    (confs : List ServiceConfiguration) (key : Text) (o : ForwardIpOpts) (r r' : Registry)
    → r'.allocated ≡ r.allocated
    → place_reserved confs key o r ≡ none
    → place_reserved confs key o r' ≡ none
unfolding place_reserved add_to_registry
place_reserved-none confs key o r r' e h = ground arith
