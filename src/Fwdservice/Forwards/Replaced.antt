-- ===== src/Fwdservice/Forwards/Replaced.antt =====
-- What happens to the forwards of a service while a replacement takes the place of a forward that was
-- stopped, in pkg/fwdservice/fwdservice.go: the goroutines register and end in any order.
use kubefwd.Base.{
  ◌≡◌, ◌≢◌, inl, inr, refl, ap, ◌∙◌, List, [], ◌∷◌, none, some, text_beq_iff, nat_beq_iff, nat_key,
  Text, text_key, ◌==◌, lookup, lookup-insert_ne, lookup-insert_self, lookup-erase, All, arith,
  Bool-cases, Option-cases,
}
use kubefwd.Fwdservice.Types.{PortForwardOpts, ServiceFwd}
use kubefwd.Fwdservice.Forwards.{
  key_of, add_service_pod, remove_own_forward, remove_service_pod, stop_all_port_forwards,
}

-- A goroutine registers its forward, a forward ends, a key is removed.
pub data ForwardEvent : Type 0 where
  registers : PortForwardOpts → ForwardEvent
  exits : PortForwardOpts → ForwardEvent
  removes : Text → ForwardEvent

unfoldable pub apply_event : ForwardEvent → ServiceFwd → ServiceFwd
apply_event (registers pfo) s = (add_service_pod pfo s).0
apply_event (exits pfo) s = remove_own_forward pfo s
apply_event (removes key) s = remove_service_pod key s

unfoldable pub apply_events : List ForwardEvent → ServiceFwd → ServiceFwd
apply_events [] s = s
apply_events (e ∷ rest) s = apply_events rest (apply_event e s)

-- No other forward registers under the key of `new`.
abbrev pub IsElsewhere : PortForwardOpts → ForwardEvent → Type 0
IsElsewhere new (registers pfo) = key_of pfo ≢ key_of new
IsElsewhere new (exits pfo) = Unit {0}
IsElsewhere new (removes key) = Unit {0}

-- It is not `new` itself that ends, nor its key that is removed.
abbrev pub IsSparing : PortForwardOpts → ForwardEvent → Type 0
IsSparing new (registers pfo) = Unit {0}
IsSparing new (exits pfo) = pfo.identity ≢ new.identity
IsSparing new (removes key) = key ≢ key_of new

module _ (new : PortForwardOpts) where
  IsVacant : ServiceFwd → Type 0
  IsVacant s = lookup (key_of new) s.port_forwards ≡ none

  IsHeld : ServiceFwd → Type 0
  IsHeld s = lookup (key_of new) s.port_forwards ≡ some new

  apply_event-IsVacant :
      (e : ForwardEvent) (s : ServiceFwd)
      → IsElsewhere new e
      → IsVacant s
      → IsVacant (apply_event e s)
  unfolding apply_event IsVacant add_service_pod remove_own_forward remove_service_pod
  apply_event-IsVacant (registers pfo) s h v =
      ground (arith, lookup-insert_ne (key_of pfo) (key_of new) pfo s.port_forwards h)
  apply_event-IsVacant (exits pfo) s h v =
      ground (arith, lookup-erase (key_of pfo) (key_of new) s.port_forwards)
  apply_event-IsVacant (removes key) s h v =
      ground (arith, lookup-erase key (key_of new) s.port_forwards)

  -- A key that is not vacant is not the key of a forward that finds its own vacant.
  registers-IsHeld :
      (pfo : PortForwardOpts) (s : ServiceFwd) → IsHeld s → IsHeld (add_service_pod pfo s).0
  unfolding IsHeld add_service_pod
  registers-IsHeld pfo s v = elim (Option-cases (lookup (key_of pfo) s.port_forwards)) [
    | inr (other, e) ↦ rw (e, add_service_pod) v
    | inl e ↦
        rw (e, add_service_pod)
          (lookup-insert_ne (key_of pfo) (key_of new) pfo s.port_forwards
              (λ same. cc (ap (λ (k : Text). lookup k s.port_forwards) same, e, v))
            ∙ v)
  ]

  exits-IsHeld :
      (pfo : PortForwardOpts) (s : ServiceFwd)
      → pfo.identity ≢ new.identity
      → IsHeld s
      → IsHeld (remove_own_forward pfo s)
  unfolding IsHeld remove_own_forward
  exits-IsHeld pfo s other v = elim (Bool-cases (key_of pfo == key_of new)) [
    | inl same ↦
        let e : lookup (key_of pfo) s.port_forwards ≡ some new =
          ap (λ (k : Text). lookup k s.port_forwards)
            ((text_beq_iff (key_of pfo) (key_of new)).0 same)
          ∙ v in
        rw (e, remove_own_forward) (ground (arith, nat_beq_iff new.identity pfo.identity))
    | inr differ ↦ ground (arith, lookup-erase (key_of pfo) (key_of new) s.port_forwards)
  ]

  apply_event-IsHeld :
      (e : ForwardEvent) (s : ServiceFwd) → IsSparing new e → IsHeld s → IsHeld (apply_event e s)
  unfolding apply_event IsHeld remove_service_pod
  apply_event-IsHeld (registers pfo) s h v = registers-IsHeld pfo s v
  apply_event-IsHeld (exits pfo) s h v = exits-IsHeld pfo s h v
  apply_event-IsHeld (removes key) s h v =
      ground (arith, text_beq_iff key (key_of new), lookup-erase key (key_of new) s.port_forwards)

  apply_events-IsVacant :
      (es : List ForwardEvent) (s : ServiceFwd)
      → All (IsElsewhere new) es
      → IsVacant s
      → IsVacant (apply_events es s)
  unfolding apply_events
  apply_events-IsVacant [] s all v = v
  apply_events-IsVacant (e ∷ rest) s all v =
      apply_events-IsVacant rest (apply_event e s) all.1 (apply_event-IsVacant e s all.0 v)

  apply_events-IsHeld :
      (es : List ForwardEvent) (s : ServiceFwd)
      → All (IsSparing new) es
      → IsHeld s
      → IsHeld (apply_events es s)
  unfolding apply_events
  apply_events-IsHeld [] s all v = v
  apply_events-IsHeld (e ∷ rest) s all v =
      apply_events-IsHeld rest (apply_event e s) all.1 (apply_event-IsHeld e s all.0 v)

  -- All forwards of a service are stopped, and a replacement registers after any row of registrations
  -- under other keys, exits and removals. It is then registered, and any later row of registrations,
  -- exits of other forwards, those of its own key included, and removals of other keys leaves it so: a
  -- stopped forward may end before the replacement has registered or at any time after.
  pub remove_own_forward-replacement :
      (before after : List ForwardEvent) (s : ServiceFwd)
      → All (IsElsewhere new) before
      → All (IsSparing new) after
      → lookup
          (key_of new)
          (apply_events after
            (add_service_pod new (apply_events before (stop_all_port_forwards s))).0).port_forwards
        ≡ some new
  unfolding IsVacant IsHeld add_service_pod stop_all_port_forwards lookup
  remove_own_forward-replacement before after s elsewhere sparing =
      let stopped = apply_events before (stop_all_port_forwards s) in
      let e : lookup (key_of new) stopped.port_forwards ≡ none =
        apply_events-IsVacant before (stop_all_port_forwards s) elsewhere refl in
      apply_events-IsHeld after (add_service_pod new stopped).0 sparing
        (rw (e, add_service_pod) (lookup-insert_self (key_of new) new stopped.port_forwards))
