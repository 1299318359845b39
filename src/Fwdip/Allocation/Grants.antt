-- ===== src/Fwdip/Allocation/Grants.antt =====
-- What `determineIP` grants is free and reserved for nobody else; and how two keys can be one.
use mathlib.Core.List.{append_assoc}
use kubefwd.Base.{
  ℕ, zero, suc, ◌≡◌, inl, inr, refl, subst, ◌∙◌, true, false, List, ◌∷◌, ◌++◌, Option, none, some,
  Text, All, lookup, contains, text_key, nat_key, arith, Bool-cases, Option-cases,
}
use kubefwd.Fwdip.Types.{ForwardIpOpts, Ip, Registry, ServiceConfiguration, ForwardConfiguration}
use kubefwd.Fwdip.Octets.{ip_string, ip_from_string}
use kubefwd.Fwdip.Matching.{matches}
use kubefwd.Fwdip.Config.{get_configuration_for_service, Configurations}
use kubefwd.Fwdip.Config.Laws.{has_conflicting_reservations-eq-none}
use kubefwd.Fwdip.Allocation.{
  taken, add_to_registry, place_reserved, out_of_bounds, start_cluster, increment, nth_ip, offset,
  Determined, got, determine_ip, get_ip, returned, reg_key,
}
use kubefwd.Fwdip.Allocation.Counter.{start_cluster-Untouched, increment-Untouched}
use kubefwd.Fwdip.Allocation.Distinct.{Parsed-cases}

-- The address is not allocated yet, and each reservation that is written as the address is printed is
-- for the service.
pub record IsFree (confs : List ServiceConfiguration) (o : ForwardIpOpts) (allocated : List Text)
    (ip : Ip) : Type 0 where
  pub unallocated : contains (ip_string ip) allocated ≡ false
  pub unreserved : All (λ conf. conf.ip ≡ ip_string ip → matches conf o ≡ true) confs

module _ (confs : List ServiceConfiguration) (key : Text) (o : ForwardIpOpts)
    (allocated : List Text) where
  add_to_registry-IsFree :
      (ip : Ip) (r r' : Registry)
      → r.allocated ≡ allocated
      → add_to_registry confs key o ip r ≡ some r'
      → IsFree confs o allocated ip
  unfolding add_to_registry taken
  add_to_registry-IsFree ip r r' e h = record {
    unallocated = ground arith;
    unreserved = (has_conflicting_reservations-eq-none o (ip_string ip) confs).0 (ground arith);
  }

  abbrev PlacedFree : Option (Ip × Registry) → Type 0
  PlacedFree none = Unit {0}
  PlacedFree (some (ip, r)) = IsFree confs o allocated ip

  place_reserved-PlacedFree :
      (r : Registry) → r.allocated ≡ allocated → PlacedFree (place_reserved confs key o r)
  unfolding place_reserved
  place_reserved-PlacedFree r from = elim (Option-cases (get_configuration_for_service o confs)) [
    | inl e ↦ rw (e, place_reserved) tt
    | inr (conf, e) ↦ elim (Parsed-cases (ip_from_string conf.ip)) [
      | inr (x, f) ↦ rw (e, place_reserved, f) tt
      | inl (i, f) ↦ elim (Option-cases (add_to_registry confs key o i r)) [
        | inl q ↦ rw (e, place_reserved, f, q) tt
        | inr (r', q) ↦ rw (e, place_reserved, f, q) (add_to_registry-IsFree i r r' from q)
      ]
    ]
  ]

  abbrev GrantsFree : Option (Determined × Registry) → Type 0
  GrantsFree none = Unit {0}
  GrantsFree (some (d, r)) = (ip : Ip) → d ≡ got ip → IsFree confs o allocated ip

  determine_ip-GrantsFree :
      (base : Ip) (fuel : ℕ) (r : Registry)
      → r.allocated ≡ allocated
      → GrantsFree (determine_ip fuel confs base key o r)
  unfolding determine_ip
  determine_ip-GrantsFree base zero r from = tt
  determine_ip-GrantsFree base (suc fuel) r from =
      elim (Option-cases (place_reserved confs key o r)) [
        | inr ((ip, r'), e) ↦
            rw (e, GrantsFree)
              (λ i q.
                subst (IsFree confs o allocated) (ground arith)
                  (rw e at (place_reserved-PlacedFree r from)))
        | inl e ↦
            rw (e, GrantsFree)
              (elim (Bool-cases (out_of_bounds o (start_cluster o r))) [
                | inl over ↦ rw (over, GrantsFree) (λ i q. cc)
                | inr under ↦
                    rw (under, GrantsFree)
                      (elim (Option-cases (
                        add_to_registry confs key o (nth_ip base o (offset o (start_cluster o r)))
                          (increment o (start_cluster o r)))) [
                            | inr (r', q) ↦
                                rw (q, GrantsFree)
                                  (λ i p.
                                    subst (IsFree confs o allocated) (ground arith)
                                      (add_to_registry-IsFree _ _ r' kept q))
                            | inl q ↦
                                rw (q, GrantsFree)
                                  (determine_ip-GrantsFree base fuel
                                    (increment o (start_cluster o r)) kept)
                          ])
              ])
      ]
    where
      kept : (increment o (start_cluster o r)).allocated ≡ allocated
      kept =
          (increment-Untouched o (start_cluster o r)).allocated
          ∙ (start_cluster-Untouched o r).allocated
          ∙ from

-- An address that `determineIP` returns was not allocated before, and every reservation whose text is
-- the address as it is printed matches the service that gets it. Nothing is said of a reservation that
-- writes the address otherwise, such as 127.1.27.01.
pub determine_ip-IsFree :
    (fuel : ℕ) (confs : List ServiceConfiguration) (base : Ip) (key : Text) (o : ForwardIpOpts)
    (r r' : Registry) (ip : Ip)
    → determine_ip fuel confs base key o r ≡ some (got ip, r')
    → IsFree confs o r.allocated ip
determine_ip-IsFree fuel confs base key o r r' ip h =
    (rw h at (determine_ip-GrantsFree confs key o r.allocated base fuel r refl)) ip refl

-- The key joins its parts by the dashes that names may hold.
reg_key_ambiguous :
    (o : ForwardIpOpts) (s m p : Text)
    → reg_key (record o { service_name = s ++ b'-' ∷ m; pod_name = p })
      ≡ reg_key (record o { service_name = s; pod_name = m ++ b'-' ∷ p })
unfolding reg_key
reg_key_ambiguous o s m p = simp append_assoc

-- Once service `s` has an address for pod `m-p`, service `s-m` gets the same one for pod `p`.
pub get_ip_shared :
    (read_file : Text → Option ForwardConfiguration) (o : ForwardIpOpts) (s m p : Text) (ip : Ip)
    (r : Registry) (g : Configurations)
    → lookup (reg_key (record o { service_name = s; pod_name = m ++ b'-' ∷ p })) r.reg ≡ some ip
    → get_ip read_file (record o { service_name = s ++ b'-' ∷ m; pod_name = p }) r g
      ≡ returned (got ip) r g
unfolding get_ip
get_ip_shared read_file o s m p ip r g h = rw (reg_key_ambiguous o s m p, h, get_ip) refl
