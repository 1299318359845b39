-- ===== src/Fwdns/PortMapping.antt =====
-- Port mappings of pkg/fwdns/manager.go: `splitPortMapping` and `parsePortMap`.
use kubefwd.Base.{
  ℕ, ◌≡◌, refl, ◌++◌, List, [], ◌∷◌, map, Option, none, some, false, Text, text_key, nat_key, Dict,
  lookup, nat_beq, All, arith, if◌then◌else◌, itoa,
}
use kubefwd.Fwdservice.Types.{PortMap, ServiceFwd}
use kubefwd.Fwdservice.Ports.{get_port_map, mapped_port}

-- `splitPortMapping`: the parts before and after the first colon; `none` is the nil slice.
unfoldable pub split_port_mapping : Text → Option (Text × Text)
split_port_mapping [] = none
split_port_mapping (c ∷ s) =
    if nat_beq c b':'
    then some ([], s)
    else elim (split_port_mapping s) [ none ↦ none | some parts ↦ some (c ∷ parts.0, parts.1) ]

-- The loop of `parsePortMap`: a mapping with no colon is passed over.
unfoldable pub parse_mappings : List Text → List PortMap
parse_mappings [] = []
parse_mappings (s ∷ rest) =
    let later = parse_mappings rest in
    elim (split_port_mapping s) [
      | none ↦ later
      | some parts ↦ record { source_port = parts.0; target_port = parts.1 } ∷ later
    ]

-- `parsePortMap` and `parsePortMapPublic`
unfoldable pub parse_port_map : List Text → Option (List PortMap)
parse_port_map [] = none
parse_port_map (s ∷ rest) = some (parse_mappings (s ∷ rest))

-- A mapping as it is written.
abbrev pub written : PortMap → Text
written m = m.source_port ++ b':' ∷ m.target_port

abbrev pub HasNoColon : Text → Type 0
HasNoColon t = All (λ c. nat_beq c b':' ≡ false) t

split_port_mapping-written :
    (source target : Text)
    → HasNoColon source
    → split_port_mapping (source ++ b':' ∷ target) ≡ some (source, target)
unfolding split_port_mapping
split_port_mapping-written [] target h = refl
split_port_mapping-written (c ∷ source) target h =
    rw (h.0, split_port_mapping-written source target h.1) refl

parse_mappings-written :
    (ms : List PortMap)
    → All (λ m. HasNoColon m.source_port) ms
    → parse_mappings (map written ms) ≡ ms
unfolding parse_mappings
parse_mappings-written [] h = refl
parse_mappings-written (m ∷ ms) h =
    rw (split_port_mapping-written m.source_port m.target_port h.0, parse_mappings)
      (rw (parse_mappings-written ms h.1) refl)

-- The mappings as a map from sources to targets.
abbrev pub targets : List PortMap → Dict Text Text
targets ms = map (λ m. (m.source_port, m.target_port)) ms

abbrev pub or_self : Text → Option Text → Text
or_self port none = port
or_self port (some target) = target

mapped_port-lookup :
    (port : Text) (ms : List PortMap)
    → mapped_port port ms ≡ or_self port (lookup port (targets ms))
unfolding mapped_port lookup
mapped_port-lookup port [] = refl
mapped_port-lookup port (m ∷ ms) = ground (arith, mapped_port-lookup port ms)

-- For mappings whose sources hold no colon, written as `source:target`: a service that is made with
-- what `parsePortMap` reads forwards each port to the target of the first mapping whose source is that
-- port, and to itself where there is none.
pub get_port_map-parse_port_map :
    (ms : List PortMap) (s : ServiceFwd) (port : ℕ)
    → All (λ m. HasNoColon m.source_port) ms
    → get_port_map (record s { port_map = parse_port_map (map written ms) }) port
      ≡ or_self (itoa port) (lookup (itoa port) (targets ms))
unfolding get_port_map parse_port_map lookup
get_port_map-parse_port_map [] s port h = refl
get_port_map-parse_port_map (m ∷ ms) s port h =
    rw (parse_mappings-written (m ∷ ms) h) (mapped_port-lookup (itoa port) (m ∷ ms))
