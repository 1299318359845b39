-- ===== src/Fwdip/Config/Laws.antt =====
-- What a stored configuration satisfies, and whose reservation counts.
use kubefwd.Base.{
  subst, ◌≡◌, ◌≢◌, refl, true, false, ◌&&◌, List, [], ◌∷◌, ◌++◌, Option, none, some, Text, contains,
  All, text_key, text_beq_iff, ◌==◌, if◌then◌else◌, Option-cases, inl, inr, arith, ◌↔◌,
}
use kubefwd.Fwdip.Types.{ForwardIpOpts, ServiceConfiguration, ForwardConfiguration}
use kubefwd.Fwdip.Matching.{matches, matches_name}
use kubefwd.Fwdip.Config.{
  parses_to_loopback, all_loopback, block_non_loopback_ips, no_duplicates,
  notify_of_duplicate_ip_reservations, validate_forward_configuration,
  service_configuration_from_reservation, override, apply_reservation, apply_reservations,
  apply_cli_passed_reservations, Configurations, get_forward_configuration, is_empty, from_default,
  from_file, has_conflicting_reservations,
}

-- No two of the services ask for one text.
abbrev pub Separate : List ServiceConfiguration → Type 0
Separate [] = Unit {0}
Separate (conf ∷ rest) = All (λ other. other.ip ≢ conf.ip) rest × Separate rest

pub record IsValidated (f : ForwardConfiguration) : Type 0 where
  pub base : parses_to_loopback f.base_unreserved_ip ≡ true
  pub services : All (λ conf. parses_to_loopback conf.ip ≡ true) f.service_configurations
  pub separate : Separate f.service_configurations

all_loopback-All :
    (confs : List ServiceConfiguration)
    → all_loopback confs ≡ true
    → All (λ conf. parses_to_loopback conf.ip ≡ true) confs
unfolding all_loopback
all_loopback-All [] h = tt
all_loopback-All (conf ∷ rest) h = ground (arith, all_loopback-All rest)

no_duplicates-unseen :
    (a : Text) (seen : List Text) (confs : List ServiceConfiguration)
    → contains a seen ≡ true
    → no_duplicates seen confs ≡ true
    → All (λ conf. conf.ip ≢ a) confs
unfolding no_duplicates contains
no_duplicates-unseen a seen [] m h = tt
no_duplicates-unseen a seen (conf ∷ rest) m h =
    (λ e. ground arith, no_duplicates-unseen a (conf.ip ∷ seen) rest (ground arith) (ground arith))

no_duplicates-Separate :
    (seen : List Text) (confs : List ServiceConfiguration)
    → no_duplicates seen confs ≡ true
    → Separate confs
unfolding no_duplicates contains
no_duplicates-Separate seen [] h = tt
no_duplicates-Separate seen (conf ∷ rest) h = (
  no_duplicates-unseen conf.ip (conf.ip ∷ seen) rest (ground (arith, text_beq_iff conf.ip conf.ip))
      (ground arith),
  no_duplicates-Separate (conf.ip ∷ seen) rest (ground arith),
)

pub validate-IsValidated :
    (f g : ForwardConfiguration)
    → validate_forward_configuration f ≡ some g
    → (g ≡ f) × IsValidated f
unfolding validate_forward_configuration block_non_loopback_ips notify_of_duplicate_ip_reservations
validate-IsValidated f g h = ground (
  arith,
  all_loopback-All f.service_configurations,
  no_duplicates-Separate [] f.service_configurations,
)

apply_cli-IsValidated :
    (o : ForwardIpOpts) (f g : ForwardConfiguration)
    → apply_cli_passed_reservations o f ≡ some g
    → IsValidated g
unfolding apply_cli_passed_reservations
apply_cli-IsValidated o f g h = let v = validate-IsValidated _ g h in rw v.0 v.1

-- The configuration that is kept, if there is one, has passed the validation.
abbrev pub KeepsValidated : Configurations → Type 0
KeepsValidated g = (f : ForwardConfiguration) → g.forward_configuration ≡ some f → IsValidated f

module _ (read_file : Text → Option ForwardConfiguration) where
  from_default-kept :
      (o : ForwardIpOpts) (g g' : Configurations) (f : ForwardConfiguration)
      → from_default read_file o g ≡ some (f, g')
      → IsValidated f × (g'.forward_configuration ≡ some f)
  unfolding from_default
  from_default-kept o g g' f h = ground (arith, apply_cli-IsValidated o g.default_configuration f)

  from_file-kept :
      (conf : ForwardConfiguration) (o : ForwardIpOpts) (g g' : Configurations)
      (f : ForwardConfiguration)
      → from_file read_file conf o g ≡ some (f, g')
      → IsValidated f × (g'.forward_configuration ≡ some f)
  unfolding from_file
  from_file-kept conf o g g' f h = ground (arith, apply_cli-IsValidated o conf f)

  fresh-kept :
      (r : Option ForwardConfiguration) (o : ForwardIpOpts) (g g' : Configurations)
      (f : ForwardConfiguration)
      → (if is_empty o.forward_configuration_path then from_default read_file o g else elim r [
        | none ↦ from_default read_file o g
        | some conf ↦ from_file read_file conf o g
      ])
        ≡ some (f, g')
      → IsValidated f × (g'.forward_configuration ≡ some f)
  fresh-kept none o g g' f h = ground (arith, from_default-kept o g g' f)
  fresh-kept (some conf) o g g' f h =
      ground (arith, from_default-kept o g g' f, from_file-kept conf o g g' f)

  kept :
      (o : ForwardIpOpts) (g g' : Configurations) (f : ForwardConfiguration)
      → KeepsValidated g
      → get_forward_configuration read_file o g ≡ some (f, g')
      → IsValidated f × (g'.forward_configuration ≡ some f)
  unfolding get_forward_configuration
  kept o g g' f v h = elim (Option-cases g.forward_configuration) [
    | inl e ↦
        fresh-kept (read_file o.forward_configuration_path) o g g' f
          (rw (e, get_forward_configuration) at h)
    | inr (c, e) ↦ ground (arith, v c e)
  ]

  -- From a state whose kept configuration is validated, what `getForwardConfiguration` returns is
  -- validated and kept, and every later call returns it again and changes nothing.
  pub get_forward_configuration-again :
      (o o' : ForwardIpOpts) (g g' : Configurations) (f : ForwardConfiguration)
      → KeepsValidated g
      → get_forward_configuration read_file o g ≡ some (f, g')
      → IsValidated f
        × KeepsValidated g'
        × (get_forward_configuration read_file o' g' ≡ some (f, g'))
  unfolding get_forward_configuration
  get_forward_configuration-again o o' g g' f v h =
      let k = kept o g g' f v h in (k.0, (λ c e. subst IsValidated (cc (k.1, e)) k.0), rw (k.1))

-- The address that a name is reserved under, by the first entry of that name.
pub reserved_ip : Text → List ServiceConfiguration → Option Text
reserved_ip name [] = none
reserved_ip name (conf ∷ rest) =
    let later = reserved_ip name rest in if conf.name == name then some conf.ip else later

abbrev pub or_else : Option Text → Option Text → Option Text
or_else none b = b
or_else (some a) b = some a

abbrev pub ip_if_named : Text → Option ServiceConfiguration → Option Text
ip_if_named name none = none
ip_if_named name (some res) = if res.name == name then some res.ip else none

-- The address of the last well-formed reservation of the command line for a name.
pub requested_ip : Text → List Text → Option Text
requested_ip name [] = none
requested_ip name (s ∷ rest) =
    or_else (requested_ip name rest) (ip_if_named name (service_configuration_from_reservation s))

reserved_ip-override :
    (res : ServiceConfiguration) (name : Text) (confs : List ServiceConfiguration)
    → (reserved_ip name (override res confs).0 ≡ (
        if res.name == name && (override res confs).1 then some res.ip else reserved_ip name confs))
      × ((override res confs).1 ≡ false → res.name ≡ name → reserved_ip name confs ≡ none)
unfolding reserved_ip override matches_name
reserved_ip-override res name [] = ground arith
reserved_ip-override res name (conf ∷ rest) = ground (
  arith,
  reserved_ip-override res name rest,
  text_beq_iff conf.name res.name,
  text_beq_iff res.name name,
  text_beq_iff conf.name name,
)

reserved_ip-append :
    (name : Text) (confs : List ServiceConfiguration) (res : ServiceConfiguration)
    → reserved_ip name (confs ++ res ∷ [])
      ≡ or_else (reserved_ip name confs) (ip_if_named name (some res))
unfolding reserved_ip
reserved_ip-append name [] res = ground arith
reserved_ip-append name (conf ∷ rest) res = ground (arith, reserved_ip-append name rest res)

override-absent :
    (res : ServiceConfiguration) (name : Text) (confs : List ServiceConfiguration)
    → (override res confs).1 ≡ false
    → (override res confs).0 ≡ confs
unfolding override
override-absent res name [] h = refl
override-absent res name (conf ∷ rest) h = ground (arith, override-absent res name rest)

reserved_ip-apply_reservation :
    (res : ServiceConfiguration) (name : Text) (confs : List ServiceConfiguration)
    → reserved_ip name (apply_reservation res confs)
      ≡ (if res.name == name then some res.ip else reserved_ip name confs)
unfolding apply_reservation
reserved_ip-apply_reservation res name confs = ground (
  arith,
  reserved_ip-override res name confs,
  reserved_ip-append name confs res,
  override-absent res name confs,
  text_beq_iff res.name name,
)

-- After the reservations of the command line a name is reserved under the address of the last
-- well-formed one for it, and without one under the address that the configuration gave it.
pub reserved_ip-apply_reservations :
    (name : Text) (rs : List Text) (confs : List ServiceConfiguration)
    → reserved_ip name (apply_reservations rs confs)
      ≡ or_else (requested_ip name rs) (reserved_ip name confs)
unfolding apply_reservations requested_ip
reserved_ip-apply_reservations name [] confs = refl
reserved_ip-apply_reservations name (s ∷ rest) confs =
    step (λ cs. reserved_ip-apply_reservations name rest cs)
      (service_configuration_from_reservation s)
  where
    step :
        ((cs : List ServiceConfiguration)
          → reserved_ip name (apply_reservations rest cs)
            ≡ or_else (requested_ip name rest) (reserved_ip name cs))
        → (found : Option ServiceConfiguration)
        → reserved_ip name (elim found [
          | none ↦ apply_reservations rest confs
          | some res ↦ apply_reservations rest (apply_reservation res confs)
        ])
          ≡ or_else
              (or_else (requested_ip name rest) (ip_if_named name found))
              (reserved_ip name confs)
    step ih none = ground (arith, ih confs)
    step ih (some res) =
        ground
          (arith, ih (apply_reservation res confs), reserved_ip-apply_reservation res name confs)

-- No reservation stands in the way of an address just if every reservation of it is for the service.
pub has_conflicting_reservations-eq-none :
    (o : ForwardIpOpts) (want : Text) (confs : List ServiceConfiguration)
    → (has_conflicting_reservations o want confs ≡ none)
      ↔ All (λ conf. conf.ip ≡ want → matches conf o ≡ true) confs
unfolding has_conflicting_reservations
has_conflicting_reservations-eq-none o want [] = ((λ h. tt), (λ h. refl))
has_conflicting_reservations-eq-none o want (conf ∷ rest) =
    let ih = has_conflicting_reservations-eq-none o want rest in
    (
      λ h. (
        (λ e. ground (arith, text_beq_iff want conf.ip)),
        ih.0 (ground (arith, text_beq_iff want conf.ip)),
      ),
      λ h. ground (arith, ih.1 h.1, h.0, text_beq_iff want conf.ip),
    )
