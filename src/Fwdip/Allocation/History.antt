-- ===== src/Fwdip/Allocation/History.antt =====
-- A history of calls of `GetIP`: one address for each key, whatever the order of the calls.
use kubefwd.Base.{
  ◌≡◌, ◌↔◌, inl, inr, refl, ap, ◌∙◌, List, [], ◌∷◌, Option, none, some, Text, lookup, text_key,
  arith, Option-cases, All, All-map,
}
use kubefwd.Fwdip.Types.{ForwardIpOpts, Ip, Registry, ForwardConfiguration}
use kubefwd.Fwdip.Octets.{ip_string, ip_from_string}
use kubefwd.Fwdip.Config.{Configurations, get_forward_configuration, initial_configurations}
use kubefwd.Fwdip.Config.Laws.{KeepsValidated, IsValidated, get_forward_configuration-again}
use kubefwd.Fwdip.Allocation.{
  Determined, got, get_ip, determine, Outcome, returned, process_exits, out_of_fuel, reg_key,
  initial_registry, enough_fuel,
}
use kubefwd.Fwdip.Allocation.Distinct.{IsConsistent, parsed-IsLocal, Parsed-cases}
use kubefwd.Fwdip.Allocation.Kept.{Kept, determine_ip-Keeps}
use kubefwd.Fwdip.Allocation.Search.{determine_ip-total}

abbrev pub Persists : Registry → Registry → Type 0
Persists r r' = (k : Text) (ip : Ip) → lookup k r.reg ≡ some ip → lookup k r'.reg ≡ some ip

Persists-Kept :
    (key : Text) (r r' : Registry) (d : Determined)
    → lookup key r.reg ≡ none
    → Kept key r d r'
    → Persists r r'
Persists-Kept key r r' d e kept k ip h =
    kept.extends k (λ same. cc (ap (λ (j : Text). lookup j r.reg) same, e, h)) ∙ h

-- A call returns a registered address or the error of the bounds, or the process ends.
abbrev pub Good : Text → Registry → Outcome → Type 0
Good key first (returned d r g) = Kept key first d r × KeepsValidated g × Persists first r
Good key first process_exits = Unit {0}
Good key first out_of_fuel = ⊥

determine-Good :
    (key : Text) (o : ForwardIpOpts) (r : Registry) (f : ForwardConfiguration) (g : Configurations)
    → IsValidated f
    → IsConsistent r
    → KeepsValidated g
    → lookup key r.reg ≡ none
    → Good key r (determine key o r f g)
unfolding determine
determine-Good key o r f g valid v k absent =
    elim (Parsed-cases (ip_from_string f.base_unreserved_ip)) [
      | inr (e, p) ↦ rw (p, determine) tt
      | inl (base, p) ↦
          let ((d, r'), q) =
            determine_ip-total f.service_configurations base key o enough_fuel r (omega arith) in
          let kept : Kept key r d r' = rw q at (
            determine_ip-Keeps f.service_configurations key o valid.services r base
              (parsed-IsLocal f.base_unreserved_ip base p valid.base) enough_fuel r v refl) in
          rw (p, determine, q) (kept, k, Persists-Kept key r r' d absent kept)
    ]

abbrev pub Answered : Type 0
Answered = List (ForwardIpOpts × Determined) × Registry

-- The answer of one call before those of the later calls.
abbrev follow :
    (Registry → Configurations → Answered) → ForwardIpOpts → Registry → Outcome → Answered
follow later o r (returned d r' g') = ((o, d) ∷ (later r' g').0, (later r' g').1)
follow later o r process_exits = ([], r)
follow later o r out_of_fuel = ([], r)

module _ (read_file : Text → Option ForwardConfiguration) where
  -- From a consistent registry and a validated configuration `GetIP` ends: it returns, or the
  -- configuration is refused. It keeps the registry consistent.
  get_ip-Good :
      (o : ForwardIpOpts) (r : Registry) (g : Configurations)
      → IsConsistent r
      → KeepsValidated g
      → Good (reg_key o) r (get_ip read_file o r g)
  unfolding get_ip
  get_ip-Good o r g v k = elim (Option-cases (lookup (reg_key o) r.reg)) [
    | inr (ip, e) ↦
        rw (e, get_ip)
          (
            record { consistent = v; extends = λ j ne. refl; registered = λ i q. ground arith },
            k,
            λ j i h. h,
          )
    | inl e ↦ elim (Option-cases (get_forward_configuration read_file o g)) [
      | inl p ↦ rw (e, get_ip, p) tt
      | inr ((f, g'), p) ↦
          let again = get_forward_configuration-again read_file o o g g' f k p in
          rw (e, get_ip, p) (determine-Good (reg_key o) o r f g' again.0 v again.1 e)
    ]
  ]

  -- The answers of calls in a row, and the registry after them; the end of the process stops them.
  pub get_ips : List ForwardIpOpts → Registry → Configurations → Answered
  get_ips [] r g = ([], r)
  get_ips (o ∷ os) r g = follow (get_ips os) o r (get_ip read_file o r g)

  abbrev AnswersIn : Registry → ForwardIpOpts × Determined → Type 0
  AnswersIn r (o, d) = (ip : Ip) → d ≡ got ip → lookup (reg_key o) r.reg ≡ some ip

  -- What holds after a row of calls.
  record Holds (r : Registry) (answers : List (ForwardIpOpts × Determined)) (r' : Registry)
      : Type 0 where
    consistent : IsConsistent r'
    persists : Persists r r'
    answered : All (AnswersIn r') answers

  get_ips-Holds :
      (os : List ForwardIpOpts) (r : Registry) (g : Configurations)
      → IsConsistent r
      → KeepsValidated g
      → Holds r (get_ips os r g).0 (get_ips os r g).1
  unfolding get_ips
  get_ips-Holds [] r g v k = record { consistent = v; persists = λ j i h. h; answered = tt }
  get_ips-Holds (o ∷ os) r g v k =
      step (get_ip read_file o r g) (get_ip-Good o r g v k)
        (λ r' g' v' k'. get_ips-Holds os r' g' v' k')
    where
      step :
          (x : Outcome)
          → Good (reg_key o) r x
          → ((r' : Registry) (g' : Configurations)
              → IsConsistent r'
              → KeepsValidated g'
              → Holds r' (get_ips os r' g').0 (get_ips os r' g').1)
          → Holds r (follow (get_ips os) o r x).0 (follow (get_ips os) o r x).1
      step process_exits good ih = record { consistent = v; persists = λ j i h. h; answered = tt }
      step out_of_fuel good ih = absurd good
      step (returned d r' g') good ih =
          let rest = ih r' g' good.0.consistent good.1 in
          record {
            consistent = rest.consistent;
            persists = λ j i h. rest.persists j i (good.2 j i h);
            answered = (λ i q. rest.persists (reg_key o) i (good.0.registered i q), rest.answered);
          }

  initial-IsConsistent : IsConsistent initial_registry
  unfolding lookup
  initial-IsConsistent = record {
    marked = λ k i h. cc;
    apart = λ k j i i' h h' e. cc;
    located = λ k i h. cc;
  }

  initial-KeepsValidated : KeepsValidated initial_configurations
  initial-KeepsValidated f h = cc

  -- Two answers of a history are one address just if the calls have one key.
  abbrev pub OneAddressForOneKey : ForwardIpOpts × Determined → ForwardIpOpts × Determined → Type 0
  OneAddressForOneKey (o, d) (o', d') =
      (ip ip' : Ip) → d ≡ got ip → d' ≡ got ip' → (reg_key o ≡ reg_key o') ↔ (ip ≡ ip')

  abbrev pub answers : List ForwardIpOpts → List (ForwardIpOpts × Determined)
  answers os = (get_ips os initial_registry initial_configurations).0

  answers-pair :
      (r : Registry) (a b : ForwardIpOpts × Determined)
      → IsConsistent r
      → AnswersIn r a
      → AnswersIn r b
      → OneAddressForOneKey a b
  answers-pair r (o, d) (o', d') v h h' ip ip' q q' =
      let found = h ip q in
      let found' = h' ip' q' in
      (
        λ same. cc (found, found', ap (λ (j : Text). lookup j r.reg) same),
        λ same. v.apart (reg_key o) (reg_key o') ip ip' found found' (ap ip_string same),
      )

  -- In every history of `GetIP` calls from the initial state, two answers are the same address exactly
  -- when the calls have the same key.
  pub get_ips-OneAddressForOneKey :
      (os : List ForwardIpOpts)
      → All (λ a. All (λ b. OneAddressForOneKey a b) (answers os)) (answers os)
  get_ips-OneAddressForOneKey os =
      let holds =
        get_ips-Holds os initial_registry initial_configurations initial-IsConsistent
          initial-KeepsValidated in
      All-map (answers os)
        (λ a h.
          All-map (answers os) (λ b h'. answers-pair _ a b holds.consistent h h') holds.answered)
        holds.answered
