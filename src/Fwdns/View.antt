-- ===== src/Fwdns/View.antt =====
-- The registry against the informer's view of a namespace, in pkg/fwdns/manager.go.
use mathlib.Core.List.{append_cancel_right}
use kubefwd.Base.{
  ◌≡◌, inl, inr, refl, sym, ap, ◌∙◌, ◌++◌, [], ◌∷◌, Option, none, some, Bool, true, false, not,
  ◌&&◌, ◌||◌, Text, text_key, text_beq_iff, ◌==◌, Dict, lookup, insert, erase, lookup-insert,
  lookup-erase, is_blank, arith, if◌then◌else◌, Bool-cases, Option-cases,
}
use kubefwd.Fwdservice.Ports.{service_string}
use kubefwd.Fwdservice.Reconnect.{Reconnection}
use kubefwd.Fwdsvcregistry.{
  ServicesRegistry, name_of, add_checked, add_service, remove_by_name, get,
}
use kubefwd.Fwdns.Handlers.{
  Service, service, tombstone, Settings, NamespaceWatcher, Handled, registry_key, new_service_fwd,
  add_service_object, add_service_handler, delete_service_handler, update_service_object,
  update_service_handler,
}

abbrev pub is_some {ℓ} : {A : Type ℓ} → Option A → Bool
is_some none = false
is_some (some a) = true

-- A service is registered under the name.
abbrev pub is_registered : Text → ServicesRegistry → Bool
is_registered name r = is_some (lookup name r.services)

-- The view has the service, with a selector.
abbrev pub is_selecting : Option Service → Bool
is_selecting none = false
is_selecting (some svc) = not (is_blank svc.selector)

add_service-is_registered :
    (svc : Reconnection) (r : ServicesRegistry) (name : Text)
    → r.shut_down_signal ≡ false
    → is_registered name (add_service svc r) ≡ (is_registered name r || name_of svc == name)
unfolding add_service add_checked
add_service-is_registered svc r name e =
    ground (
      arith,
      lookup-insert (name_of svc) name svc r.services,
      text_beq_iff (name_of svc) name,
      same,
    )
  where
    same : name_of svc ≡ name → lookup (name_of svc) r.services ≡ lookup name r.services
    same e = ap (λ (k : Text). lookup k r.services) e

remove_by_name-is_registered :
    (key : Text) (r : ServicesRegistry) (name : Text)
    → is_registered name (remove_by_name key r)
      ≡ (if key == name then false else is_registered name r)
unfolding remove_by_name
remove_by_name-is_registered key r name =
    ground (arith, lookup-erase key name r.services, text_beq_iff key name, same)
  where
    same : key ≡ name → lookup key r.services ≡ lookup name r.services
    same e = ap (λ (k : Text). lookup k r.services) e

add_service-shut_down_signal :
    (svc : Reconnection) (r : ServicesRegistry)
    → (add_service svc r).shut_down_signal ≡ r.shut_down_signal
unfolding add_service add_checked
add_service-shut_down_signal svc r = ground arith

remove_by_name-shut_down_signal :
    (key : Text) (r : ServicesRegistry)
    → (remove_by_name key r).shut_down_signal ≡ r.shut_down_signal
unfolding remove_by_name
remove_by_name-shut_down_signal key r = ground arith

module _ (c : Settings) (w : NamespaceWatcher) (ports_changed : Service → Service → Bool) where
  -- The name in the registry of a service of the namespace.
  abbrev pub full_name : Text → Text
  full_name name = name ++ b'.' ∷ (w.namespace ++ b'.' ∷ w.cluster)

  -- What the informer has shown, and what its handlers have made of it: the view of the namespace, by
  -- name, and the state. A service comes when the view does not have it, and changes from what the
  -- view has.
  pub data Shown (start : Handled) : Dict Text Service → Handled → Type 0 where
    nothing : Shown start [] start
    added :
        (svc : Service) (v : Dict Text Service) (h : Handled)
        → svc.namespace ≡ w.namespace
        → lookup svc.name v ≡ none
        → Shown start v h
        → Shown start (insert svc.name svc v) (add_service_handler c w (service svc) h)
    updated :
        (old new : Service) (v : Dict Text Service) (h : Handled)
        → new.name ≡ old.name
        → new.namespace ≡ w.namespace
        → lookup old.name v ≡ some old
        → Shown start v h
        → Shown start
            (insert new.name new v)
            (update_service_handler c w ports_changed (service old) (service new) h)
    deleted :
        (svc : Service) (v : Dict Text Service) (h : Handled)
        → svc.namespace ≡ w.namespace
        → Shown start v h
        → Shown start (erase svc.name v) (delete_service_handler c w (service svc) h)

  record Mirrors (v : Dict Text Service) (h : Handled) : Type 0 where
    open_for_adding : h.registry.shut_down_signal ≡ false
    same : (name : Text) → is_registered (full_name name) h.registry ≡ is_selecting (lookup name v)

  full_name-inj : (m n : Text) → (full_name m == full_name n) ≡ (m == n)
  full_name-inj m n = elim (Bool-cases (m == n)) [
    | inl e ↦
        ground
          (arith, text_beq_iff (full_name m) (full_name n), ap full_name ((text_beq_iff m n).0 e))
    | inr e ↦ ground (arith, text_beq_iff (full_name m) (full_name n), text_beq_iff m n, back)
  ]
    where
      back : full_name m ≡ full_name n → m ≡ n
      back e = append_cancel_right m n (b'.' ∷ (w.namespace ++ b'.' ∷ w.cluster)) e

  -- A write at a name in the view, and what it does to the test there.
  insert-is_selecting :
      (svc : Service) (v : Dict Text Service) (name : Text)
      → is_selecting (lookup name (insert svc.name svc v))
        ≡ (if svc.name == name then not (is_blank svc.selector) else is_selecting (lookup name v))
  insert-is_selecting svc v name = ground (arith, lookup-insert svc.name name svc v)

  at : (m n : Text) (v : Dict Text Service) → (m == n) ≡ true → lookup m v ≡ lookup n v
  at m n v e = ap (λ (k : Text). lookup k v) ((text_beq_iff m n).0 e)

  module _ (svc : Service) (v : Dict Text Service) (h : Handled) (m : Mirrors v h) where
    svcfwd : Reconnection
    svcfwd = new_service_fwd c w.namespace w.cluster w.cluster_n w.namespace_n svc

    -- Nothing is done for a service whose place in the registry is right.
    kept-Mirrors :
        is_selecting (lookup svc.name v) ≡ not (is_blank svc.selector)
        → Mirrors (insert svc.name svc v) h
    kept-Mirrors e = record {
      open_for_adding = m.open_for_adding;
      same = λ name. elim (Bool-cases (svc.name == name)) [
        | inl here ↦
            m.same name
            ∙ ap is_selecting (sym (at svc.name name v here))
            ∙ e
            ∙ sym (rw (insert-is_selecting svc v name, here) refl)
        | inr away ↦ m.same name ∙ sym (rw (insert-is_selecting svc v name, away) refl)
      ];
    }

    added-Mirrors :
        is_blank svc.selector ≡ false
        → is_selecting (lookup svc.name v) ≡ false
        → Mirrors (insert svc.name svc v) (record h { registry = add_service svcfwd h.registry })
    unfolding svcfwd new_service_fwd service_string
    added-Mirrors has fresh = record {
      open_for_adding = add_service-shut_down_signal svcfwd h.registry ∙ m.open_for_adding;
      same = λ name.
          add_service-is_registered svcfwd h.registry (full_name name) m.open_for_adding
          ∙ elim (Bool-cases (svc.name == name)) [
            | inl here ↦ ground (arith, insert-is_selecting svc v name, full_name-inj svc.name name)
            | inr away ↦
                ground
                  (arith, insert-is_selecting svc v name, full_name-inj svc.name name, m.same name)
          ];
    }

    removed-Mirrors :
        (v' : Dict Text Service)
        → ((name : Text)
            → is_selecting (lookup name v')
              ≡ (if svc.name == name then false else is_selecting (lookup name v)))
        → svc.namespace ≡ w.namespace
        → Mirrors v'
            (record h { registry = remove_by_name (registry_key svc w.cluster) h.registry })
    removed-Mirrors v' view e = record {
      open_for_adding =
          remove_by_name-shut_down_signal (registry_key svc w.cluster) h.registry
          ∙ m.open_for_adding;
      same = λ name.
          remove_by_name-is_registered (registry_key svc w.cluster) h.registry (full_name name)
          ∙ ground (arith, view name, m.same name, full_name-inj svc.name name, key_eq name);
    }
      where
        key_eq :
            (name : Text)
            → (registry_key svc w.cluster == full_name name)
              ≡ (full_name svc.name == full_name name)
        key_eq name =
            ap (λ (n : Text). svc.name ++ b'.' ∷ (n ++ b'.' ∷ w.cluster) == full_name name) e

  add_service_object-Mirrors :
      (svc : Service) (v : Dict Text Service) (h : Handled)
      → is_selecting (lookup svc.name v) ≡ false
      → Mirrors v h
      → Mirrors (insert svc.name svc v) (add_service_object c w svc h)
  unfolding add_service_object svcfwd
  add_service_object-Mirrors svc v h fresh m = elim (Bool-cases (is_blank svc.selector)) [
    | inl none_selected ↦ rw none_selected (kept-Mirrors svc v h m (ground arith))
    | inr selects ↦ rw selects (added-Mirrors svc v h m selects fresh)
  ]

  update_service_object-Mirrors :
      (changed : Bool) (old new : Service) (v : Dict Text Service) (h : Handled)
      → new.namespace ≡ w.namespace
      → is_selecting (lookup new.name v) ≡ not (is_blank old.selector)
      → Mirrors v h
      → Mirrors (insert new.name new v) (update_service_object c w changed old new h)
  unfolding update_service_object svcfwd
  update_service_object-Mirrors changed old new v h e found m =
      elim (Bool-cases (old.selector == new.selector && not changed)) [
        | inl unchanged ↦
            rw unchanged (
              kept-Mirrors new v h m
                (found ∙ ap (λ (s : Text). not (is_blank s)) (equal unchanged)))
        | inr changed ↦ rw changed (elim (Bool-cases (is_blank new.selector)) [
          | inl gone ↦ rw gone (
              removed-Mirrors new v h m (insert new.name new v)
                (λ name. ground (arith, insert-is_selecting new v name)) e)
          | inr selects ↦ rw selects (elim (Bool-cases (is_blank old.selector)) [
            | inl selected_none ↦ rw selected_none (added-Mirrors new v h m selects (ground arith))
            | inr selected ↦ rw selected (rebuilt (kept-Mirrors new v h m (ground arith)))
          ])
        ])
      ]
    where
      equal : (old.selector == new.selector && not changed) ≡ true → old.selector ≡ new.selector
      equal u = (text_beq_iff old.selector new.selector).0 (ground arith)

      rebuilt :
          Mirrors (insert new.name new v) h
          → Mirrors
              (insert new.name new v)
              (elim (get (registry_key new w.cluster) h.registry) as (λ x. Handled) [
                | none ↦ h
                | some found_one ↦ record h {
                  updates = h.updates ++ (registry_key new w.cluster, new) ∷ [];
                }
              ])
      rebuilt k = elim (Option-cases (get (registry_key new w.cluster) h.registry)) [
        | inl f ↦ rw f k
        | inr (found_one, f) ↦ rw f (record { open_for_adding = k.open_for_adding; same = k.same })
      ]

  Shown-Mirrors :
      (start : Handled)
      → Mirrors [] start
      → (v : Dict Text Service) (h : Handled) → Shown start v h
      → Mirrors v h
  unfolding add_service_handler delete_service_handler update_service_handler
  Shown-Mirrors start m v h nothing = m
  Shown-Mirrors start m v h (added svc v' h' e fresh s) =
      add_service_object-Mirrors svc v' h' (rw fresh refl) (Shown-Mirrors start m v' h' s)
  Shown-Mirrors start m v h (updated old new v' h' same_name e found s) =
      update_service_object-Mirrors (ports_changed old new) old new v' h' e
        (ap (λ (k : Text). is_selecting (lookup k v')) same_name ∙ ap is_selecting found)
        (Shown-Mirrors start m v' h' s)
  Shown-Mirrors start m v h (deleted svc v' h' e s) =
      removed-Mirrors svc v' h' (Shown-Mirrors start m v' h' s) (erase svc.name v')
        (λ name. ground (arith, lookup-erase svc.name name v')) e

  -- From a registry that is not shut down and has nothing of the namespace, whatever the informer
  -- shows, in whatever order: a service of the namespace is registered exactly when the view has it
  -- with a selector.
  pub Shown-is_registered :
      (start h : Handled) (v : Dict Text Service) (name : Text)
      → start.registry.shut_down_signal ≡ false
      → ((n : Text) → lookup (full_name n) start.registry.services ≡ none)
      → Shown start v h
      → is_registered (full_name name) h.registry ≡ is_selecting (lookup name v)
  unfolding lookup
  Shown-is_registered start h v name up empty s =
      Mirrors.same
        (Shown-Mirrors start (record { open_for_adding = up; same = λ n. rw (empty n) refl }) v h s)
        name

  -- When the informer has missed the deletion of a service with a selector and hands over its
  -- tombstone, the service stays registered, though the view no longer has it.
  pub delete_service_handler-tombstone :
      (start h : Handled) (v : Dict Text Service) (svc : Service)
      → start.registry.shut_down_signal ≡ false
      → ((n : Text) → lookup (full_name n) start.registry.services ≡ none)
      → Shown start v h
      → lookup svc.name v ≡ some svc
      → is_blank svc.selector ≡ false
      → (is_registered (full_name svc.name) (delete_service_handler c w (tombstone svc) h).registry
          ≡ true)
        × (is_selecting (lookup svc.name (erase svc.name v)) ≡ false)
  unfolding delete_service_handler
  delete_service_handler-tombstone start h v svc up empty s found selects = (
    Shown-is_registered start h v svc.name up empty s ∙ rw (found, selects) refl,
    ground (arith, lookup-erase svc.name svc.name v, text_beq_iff svc.name svc.name),
  )
