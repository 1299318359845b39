-- ===== src/Fwdtui/State/Tally.antt =====
-- The sums of the services in pkg/fwdtui/state/store.go, against the forwards that the store holds.
use kubefwd.Base.{
  ◌≡◌, ◌≢◌, inl, inr, refl, sym, ap, ◌∙◌, List, [], ◌∷◌, Text, text_key, text_beq_iff, ◌==◌, Dict,
  insert, erase, values, All, Bool-cases,
}
use kubefwd.Fwdtui.State.{
  ForwardSnapshot, ServiceSnapshot, count_forward, count_forwards, update_service_aggregate,
}

module _ {Rate : Type 0} (no_rate : Rate) (add_rate : Rate → Rate → Rate) where
  abbrev pub recount :
      Dict Text (ForwardSnapshot Rate) → ServiceSnapshot Rate → ServiceSnapshot Rate
  recount d svc = update_service_aggregate no_rate add_rate d svc

  -- A service with its sums at nothing.
  blanked : ServiceSnapshot Rate → ServiceSnapshot Rate
  blanked svc = record svc {
    port_forwards = [];
    total_bytes_in = 0;
    total_bytes_out = 0;
    total_rate_in = no_rate;
    total_rate_out = no_rate;
    active_count = 0;
    error_count = 0;
  }

  count_forward-blanked :
      (fwd : ForwardSnapshot Rate) (svc : ServiceSnapshot Rate)
      → blanked (count_forward no_rate add_rate fwd svc) ≡ blanked svc
  unfolding blanked count_forward
  count_forward-blanked fwd svc = elim (Bool-cases (fwd.service_key == svc.key)) [
    | inl e ↦ rw e refl
    | inr e ↦ rw e refl
  ]

  count_forwards-blanked :
      (fwds : List (ForwardSnapshot Rate)) (svc : ServiceSnapshot Rate)
      → blanked (count_forwards no_rate add_rate fwds svc) ≡ blanked svc
  unfolding count_forwards
  count_forwards-blanked [] svc = refl
  count_forwards-blanked (fwd ∷ rest) svc =
      count_forwards-blanked rest (count_forward no_rate add_rate fwd svc)
      ∙ count_forward-blanked fwd svc

  -- A recount of a recount is the same one.
  pub recount-recount :
      (d : Dict Text (ForwardSnapshot Rate)) (svc : ServiceSnapshot Rate)
      → recount d (recount d svc) ≡ recount d svc
  unfolding update_service_aggregate blanked
  recount-recount d svc =
      ap (count_forwards no_rate add_rate (values d))
        (count_forwards-blanked (values d) (blanked svc))

  pub recount-key :
      (d : Dict Text (ForwardSnapshot Rate)) (svc : ServiceSnapshot Rate)
      → (recount d svc).key ≡ svc.key
  unfolding update_service_aggregate blanked
  recount-key d svc =
      ap (λ (v : ServiceSnapshot Rate). v.key) (count_forwards-blanked (values d) (blanked svc))

  count_forward-other :
      (fwd : ForwardSnapshot Rate) (svc : ServiceSnapshot Rate)
      → fwd.service_key ≢ svc.key
      → count_forward no_rate add_rate fwd svc ≡ svc
  unfolding count_forward
  count_forward-other fwd svc ne = elim (Bool-cases (fwd.service_key == svc.key)) [
    | inl e ↦ absurd (ne ((text_beq_iff fwd.service_key svc.key).0 e))
    | inr e ↦ rw e refl
  ]

  count_forward-key :
      (fwd : ForwardSnapshot Rate) (svc : ServiceSnapshot Rate)
      → (count_forward no_rate add_rate fwd svc).key ≡ svc.key
  unfolding count_forward blanked
  count_forward-key fwd svc =
      ap (λ (v : ServiceSnapshot Rate). v.key) (count_forward-blanked fwd svc)

  module _ (service_of : Text → Text) where
    -- The key of every forward says of which service it is.
    abbrev pub Keyed : Dict Text (ForwardSnapshot Rate) → Type 0
    Keyed d = All (λ (e : Text × ForwardSnapshot Rate). e.1.service_key ≡ service_of e.0) d

    -- A forward that is written at its key does not touch the services of other keys.
    pub count_forwards-insert :
        (key : Text) (fwd : ForwardSnapshot Rate) (d : Dict Text (ForwardSnapshot Rate))
        (svc : ServiceSnapshot Rate)
        → Keyed d
        → fwd.service_key ≡ service_of key
        → service_of key ≢ svc.key
        → count_forwards no_rate add_rate (values (insert key fwd d)) svc
          ≡ count_forwards no_rate add_rate (values d) svc
    unfolding insert values count_forwards
    count_forwards-insert key fwd [] svc keyed h ne =
        count_forward-other fwd svc (λ e. ne (sym h ∙ e))
    count_forwards-insert key fwd ((k, v) ∷ rest) svc keyed h ne = elim (Bool-cases (key == k)) [
      | inl same ↦ rw same (
          ap (count_forwards no_rate add_rate (values rest)) (
            count_forward-other fwd svc (λ e. ne (sym h ∙ e))
            ∙ sym (
                count_forward-other v svc
                  (λ e. ne (ap service_of ((text_beq_iff key k).0 same) ∙ sym keyed.0 ∙ e)))))
      | inr other ↦ rw other (
          count_forwards-insert key fwd rest (count_forward no_rate add_rate v svc) keyed.1 h
            (λ e. ne (e ∙ count_forward-key v svc)))
    ]

    pub count_forwards-erase :
        (key : Text) (d : Dict Text (ForwardSnapshot Rate)) (svc : ServiceSnapshot Rate)
        → Keyed d
        → service_of key ≢ svc.key
        → count_forwards no_rate add_rate (values (erase key d)) svc
          ≡ count_forwards no_rate add_rate (values d) svc
    unfolding erase values count_forwards
    count_forwards-erase key [] svc keyed ne = refl
    count_forwards-erase key ((k, v) ∷ rest) svc keyed ne = elim (Bool-cases (key == k)) [
      | inl same ↦ rw same (
          count_forwards-erase key rest svc keyed.1 ne
          ∙ ap (count_forwards no_rate add_rate (values rest)) (
              sym (
                count_forward-other v svc
                  (λ e. ne (ap service_of ((text_beq_iff key k).0 same) ∙ sym keyed.0 ∙ e)))))
      | inr other ↦ rw other (
          count_forwards-erase key rest (count_forward no_rate add_rate v svc) keyed.1
            (λ e. ne (e ∙ count_forward-key v svc)))
    ]
