-- ===== src/Fwdservice/Sync/Removal.antt =====
-- The loops of pkg/fwdservice/fwdservice.go that remove forwards: what is left of the map,
-- and what they leave alone.
use kubefwd.Base.{
  ◌≡◌, ◌≢◌, ◌⊎◌, inl, inr, refl, sym, ap, ◌∙◌, List, [], ◌∷◌, none, Bool, true, Text, text_key,
  text_beq_iff, ◌==◌, Dict, lookup, erase, All, All-map, arith, if◌then◌else◌, Bool-cases,
  Option-cases,
}
use kubefwd.Fwdservice.Types.{PortForwardOpts, ServiceFwd}
use kubefwd.Fwdservice.Forwards.{remove_service_pod}
use kubefwd.Fwdservice.Sync.{ForwardInfo, get_forward_infos, remove_unless}

abbrev pub Entry : Type 0
Entry = Text × PortForwardOpts

-- A predicate of every registered forward.
abbrev pub AllForwards : (PortForwardOpts → Type 0) → ServiceFwd → Type 0
AllForwards P s = All (λ (e : Entry). P e.1) s.port_forwards

-- The entry is among those that are gone through.
abbrev Listed : Entry → List ForwardInfo → Type 0
Listed e [] = ⊥
Listed e (info ∷ rest) = ((info.key ≡ e.0) × (info.pod_name ≡ e.1.pod_name)) ⊎ Listed e rest

get_forward_infos-Listed :
    (d : Dict Text PortForwardOpts) → All (λ (e : Entry). Listed e (get_forward_infos d)) d
unfolding get_forward_infos
get_forward_infos-Listed [] = tt
get_forward_infos-Listed ((k, pfo) ∷ rest) =
    (inl (refl, refl), All-map rest (λ e h. inr h) (get_forward_infos-Listed rest))

All-erase :
    (P : Entry → Type 0) (key : Text) (d : Dict Text PortForwardOpts)
    → All P d
    → All (λ (e : Entry). P e × (key ≢ e.0)) (erase key d)
unfolding erase
All-erase P key [] all = tt
All-erase P key ((k, v) ∷ rest) all = elim (Bool-cases (key == k)) [
  | inl same ↦ rw same (All-erase P key rest all.1)
  | inr other ↦
      rw other ((all.0, λ e. ground (arith, text_beq_iff key k)), All-erase P key rest all.1)
]

All-absent :
    (P : Entry → Type 0) (key : Text) (d : Dict Text PortForwardOpts)
    → All P d
    → lookup key d ≡ none
    → All (λ (e : Entry). P e × (key ≢ e.0)) d
unfolding lookup
All-absent P key [] all h = tt
All-absent P key ((k, v) ∷ rest) all h =
    ((all.0, λ e. ground (arith, text_beq_iff key k)), All-absent P key rest all.1 (ground arith))

pub remove_service_pod-All :
    (P : Entry → Type 0) (key : Text) (s : ServiceFwd)
    → All P s.port_forwards
    → All (λ (e : Entry). P e × (key ≢ e.0)) (remove_service_pod key s).port_forwards
unfolding remove_service_pod
remove_service_pod-All P key s all = elim (Option-cases (lookup key s.port_forwards)) [
  | inl e ↦ rw (e, remove_service_pod) (All-absent P key s.port_forwards all e)
  | inr (pfo, e) ↦ rw (e, remove_service_pod) (All-erase P key s.port_forwards all)
]

-- What a removal leaves alone.
pub record SameService (s s' : ServiceFwd) : Type 0 where
  pub name : s'.name ≡ s.name
  pub spec : s'.spec ≡ s.spec
  pub updated_spec : s'.updated_spec ≡ s.updated_spec
  pub port_map : s'.port_map ≡ s.port_map
  pub launched : s'.launched ≡ s.launched

pub SameService-trans : (s t u : ServiceFwd) → SameService s t → SameService t u → SameService s u
SameService-trans s t u h k = record {
  name = k.name ∙ h.name;
  spec = k.spec ∙ h.spec;
  updated_spec = k.updated_spec ∙ h.updated_spec;
  port_map = k.port_map ∙ h.port_map;
  launched = k.launched ∙ h.launched;
}

remove_service_pod-SameService :
    (key : Text) (s : ServiceFwd) → SameService s (remove_service_pod key s)
unfolding remove_service_pod
remove_service_pod-SameService key s = ground arith

module _ (keep : Text → Bool) where
  one_removed : ForwardInfo → ServiceFwd → ServiceFwd
  one_removed info s = if keep info.pod_name then s else remove_service_pod info.key s

  one_removed-SameService :
      (info : ForwardInfo) (s : ServiceFwd) → SameService s (one_removed info s)
  unfolding one_removed
  one_removed-SameService info s = elim (Bool-cases (keep info.pod_name)) [
    | inl h ↦
        rw h (record {
          name = refl;
          spec = refl;
          updated_spec = refl;
          port_map = refl;
          launched = refl;
        })
    | inr h ↦ rw h (remove_service_pod-SameService info.key s)
  ]

  pub remove_unless-SameService :
      (infos : List ForwardInfo) (s : ServiceFwd) → SameService s (remove_unless keep infos s)
  unfolding remove_unless one_removed
  remove_unless-SameService [] s = record {
    name = refl;
    spec = refl;
    updated_spec = refl;
    port_map = refl;
    launched = refl;
  }
  remove_unless-SameService (info ∷ rest) s =
      SameService-trans s (one_removed info s) _ (one_removed-SameService info s)
        (remove_unless-SameService rest (one_removed info s))

  -- Besides the test, a property of every forward is kept.
  module _ (P : PortForwardOpts → Type 0) where
    abbrev Waiting : List ForwardInfo → Entry → Type 0
    Waiting infos e = P e.1 × ((keep e.1.pod_name ≡ true) ⊎ Listed e infos)

    one_removed-Waiting :
        (info : ForwardInfo) (rest : List ForwardInfo) (s : ServiceFwd)
        → All (Waiting (info ∷ rest)) s.port_forwards
        → All (Waiting rest) (one_removed info s).port_forwards
    unfolding one_removed
    one_removed-Waiting info rest s all = elim (Bool-cases (keep info.pod_name)) [
      | inl h ↦ rw h (All-map s.port_forwards (λ e w. (w.0, passed e h w.1)) all)
      | inr h ↦ rw h (
          All-map (remove_service_pod info.key s).port_forwards (λ e w. (w.0.0, gone e w.1 w.0.1))
            (remove_service_pod-All (Waiting (info ∷ rest)) info.key s all))
    ]
      where
        passed :
            (e : Entry)
            → keep info.pod_name ≡ true
            → (keep e.1.pod_name ≡ true) ⊎ Listed e (info ∷ rest)
            → (keep e.1.pod_name ≡ true) ⊎ Listed e rest
        passed e h (inl k) = inl k
        passed e h (inr (inl (k, n))) = inl (ap keep (sym n) ∙ h)
        passed e h (inr (inr l)) = inr l

        gone :
            (e : Entry)
            → info.key ≢ e.0
            → (keep e.1.pod_name ≡ true) ⊎ Listed e (info ∷ rest)
            → (keep e.1.pod_name ≡ true) ⊎ Listed e rest
        gone e ne (inl k) = inl k
        gone e ne (inr (inl (k, n))) = absurd (ne k)
        gone e ne (inr (inr l)) = inr l

    remove_unless-Waiting :
        (infos : List ForwardInfo) (s : ServiceFwd)
        → All (Waiting infos) s.port_forwards
        → All (Waiting []) (remove_unless keep infos s).port_forwards
    unfolding remove_unless one_removed
    remove_unless-Waiting [] s all = all
    remove_unless-Waiting (info ∷ rest) s all =
        remove_unless-Waiting rest (one_removed info s) (one_removed-Waiting info rest s all)

    -- Going through all forwards leaves those that pass the test.
    pub remove_unless-AllForwards :
        (s : ServiceFwd)
        → AllForwards P s
        → AllForwards
            (λ pfo. P pfo × (keep pfo.pod_name ≡ true))
            (remove_unless keep (get_forward_infos s.port_forwards) s)
    remove_unless-AllForwards s all =
        All-map (remove_unless keep (get_forward_infos s.port_forwards) s).port_forwards
          (λ e w. (w.0, settled e w.1))
          (remove_unless-Waiting (get_forward_infos s.port_forwards) s
            (All-both s.port_forwards all (get_forward_infos-Listed s.port_forwards)))
      where
        settled : (e : Entry) → (keep e.1.pod_name ≡ true) ⊎ ⊥ → keep e.1.pod_name ≡ true
        settled e (inl h) = h
        settled e (inr b) = absurd b

        All-both :
            (d : Dict Text PortForwardOpts)
            → All (λ (e : Entry). P e.1) d
            → All (λ (e : Entry). Listed e (get_forward_infos s.port_forwards)) d
            → All (Waiting (get_forward_infos s.port_forwards)) d
        All-both [] h k = tt
        All-both (e ∷ rest) h k = ((h.0, inr k.0), All-both rest h.1 k.1)
