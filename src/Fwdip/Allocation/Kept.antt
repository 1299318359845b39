-- ===== src/Fwdip/Allocation/Kept.antt =====
-- `determineIP` keeps the registry consistent, and enters what it returns.
use kubefwd.Base.{
  ℕ, zero, suc, ◌≡◌, ◌≢◌, inl, inr, ap, ◌∙◌, true, List, Option, none, some, Text, lookup, text_key,
  nat_key, arith, Bool-cases, Option-cases, All,
}
use kubefwd.Fwdip.Types.{ForwardIpOpts, Ip, Registry, ServiceConfiguration}
use kubefwd.Fwdip.Octets.{ip_from_string, ok}
use kubefwd.Fwdip.Config.{get_configuration_for_service, parses_to_loopback}
use kubefwd.Fwdip.Allocation.Counter.{Untouched, start_cluster-Untouched, increment-Untouched}
use kubefwd.Fwdip.Allocation.{
  add_to_registry, start_cluster, increment, nth_ip, Determined, got, place_reserved, out_of_bounds,
  determine_ip, offset,
}
use kubefwd.Fwdip.Allocation.Distinct.{
  IsLocal, IsConsistent, parsed-IsLocal, nth_ip-IsLocal, configured-All, Parsed-cases,
  same-IsConsistent, add_to_registry-IsConsistent, add_to_registry-extends,
}

-- The registry is consistent, and an address that was returned is registered under the key.
-- What other keys have is as it was at first.
pub record Kept (key : Text) (first : Registry) (d : Determined) (r : Registry) : Type 0 where
  pub consistent : IsConsistent r
  pub extends : (k : Text) → key ≢ k → lookup k r.reg ≡ lookup k first.reg
  pub registered : (ip : Ip) → d ≡ got ip → lookup key r.reg ≡ some ip

abbrev AllLocal : List ServiceConfiguration → Type 0
AllLocal confs = All (λ conf. parses_to_loopback conf.ip ≡ true) confs

module _ (confs : List ServiceConfiguration) (key : Text) (o : ForwardIpOpts) (all : AllLocal confs)
    (first : Registry) where
  placed_at :
      (conf : ServiceConfiguration) (i : Ip) (r : Registry)
      → get_configuration_for_service o confs ≡ some conf
      → ip_from_string conf.ip ≡ ok i
      → IsLocal i
  placed_at conf i r e f =
      parsed-IsLocal conf.ip i f
        (configured-All (λ c. parses_to_loopback c.ip ≡ true) o confs conf all e)

  abbrev Placed : Option (Ip × Registry) → Type 0
  Placed none = Unit {0}
  Placed (some (ip, r)) = Kept key first (got ip) r

  added-Kept :
      (ip : Ip) (r r' : Registry)
      → IsLocal ip
      → IsConsistent r
      → r.reg ≡ first.reg
      → add_to_registry confs key o ip r ≡ some r'
      → Kept key first (got ip) r'
  added-Kept ip r r' local v from e =
      let added = add_to_registry-IsConsistent confs key o ip r r' local v e in
      record {
        consistent = added.0;
        extends = λ k ne. add_to_registry-extends confs key o ip r r' k ne e ∙ ap (lookup k) from;
        registered = λ i q. ground (arith, added.1);
      }

  place_reserved-Placed :
      (r : Registry) → IsConsistent r → r.reg ≡ first.reg → Placed (place_reserved confs key o r)
  unfolding place_reserved
  place_reserved-Placed r v from = elim (Option-cases (get_configuration_for_service o confs)) [
    | inl e ↦ rw (e, place_reserved) tt
    | inr (conf, e) ↦ elim (Parsed-cases (ip_from_string conf.ip)) [
      | inr (x, f) ↦ rw (e, place_reserved, f) tt
      | inl (i, f) ↦ elim (Option-cases (add_to_registry confs key o i r)) [
        | inl q ↦ rw (e, place_reserved, f, q) tt
        | inr (r', q) ↦
            rw (e, place_reserved, f, q) (added-Kept i r r' (placed_at conf i r e f) v from q)
      ]
    ]
  ]

  abbrev pub Keeps : Option (Determined × Registry) → Type 0
  Keeps none = Unit {0}
  Keeps (some (d, r)) = Kept key first d r

  module _ (base : Ip) (local : IsLocal base) where
    -- Whatever the fuel, what the search returns is registered, and the registry stays consistent.
    pub determine_ip-Keeps :
        (fuel : ℕ) (r : Registry)
        → IsConsistent r
        → r.reg ≡ first.reg
        → Keeps (determine_ip fuel confs base key o r)
    unfolding determine_ip
    determine_ip-Keeps zero r v from = tt
    determine_ip-Keeps (suc fuel) r v from = elim (Option-cases (place_reserved confs key o r)) [
      | inr ((ip, r'), e) ↦ rw (e, Keeps) (rw e at (place_reserved-Placed r v from))
      | inl e ↦
          rw (e, Keeps)
            (elim (Bool-cases (out_of_bounds o (start_cluster o r))) [
              | inl over ↦
                  rw (over, Keeps)
                    (record {
                      consistent = same-IsConsistent r _ s.reg s.allocated v;
                      extends = λ k ne. ap (lookup k) (s.reg ∙ from);
                      registered = λ i q. cc;
                    })
              | inr under ↦
                  rw (under, Keeps)
                    (elim (Option-cases (
                      add_to_registry confs key o (nth_ip base o (offset o (start_cluster o r)))
                        (increment o (start_cluster o r)))) [
                          | inr (r', q) ↦
                              rw (q, Keeps)
                                (added-Kept _ _ r' (nth_ip-IsLocal base o _ local) v2
                                  (u.reg ∙ s.reg ∙ from) q)
                          | inl q ↦
                              rw (q, Keeps)
                                (determine_ip-Keeps fuel (increment o (start_cluster o r)) v2
                                  (u.reg ∙ s.reg ∙ from))
                        ])
            ])
    ]
      where
        s : Untouched r (start_cluster o r)
        s = start_cluster-Untouched o r

        u : Untouched (start_cluster o r) (increment o (start_cluster o r))
        u = increment-Untouched o (start_cluster o r)

        v2 : IsConsistent (increment o (start_cluster o r))
        v2 =
            same-IsConsistent (start_cluster o r) _ u.reg u.allocated
              (same-IsConsistent r _ s.reg s.allocated v)
