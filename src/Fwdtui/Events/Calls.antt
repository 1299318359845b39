-- ===== src/Fwdtui/Events/Calls.antt =====
-- Which handlers an event of pkg/fwdtui/events/bus.go is handed to.
use native.Mathlib.Nat.{mod-eq_of_lt}
use kubefwd.Base.{
  ℕ, ◌+◌, ◌%◌, ◌^◌, ◌<◌, ◌≤◌, ◌≡◌, refl, sym, ap, ◌∙◌, List, [], ◌∷◌, ◌++◌, Option, ℤ, Bool, true,
  false, ◌&&◌, nat_key, Dict, lookup, insert, lookup-insert, nat_beq, inl, inr, Bool-cases,
  Option-cases, arith, if◌then◌else◌,
}
use kubefwd.Fwdtui.Events.{
  HandlerEntry, Bus, Event, new_bus, or_nil, id_after, handlers_of, subscribe, subscribe_all,
  swap_remove, unsubscribe, unsubscribe_all, dispatch,
}
use kubefwd.Fwdtui.Events.Times.{times, times-append, times-swap_remove}

-- What is done with a bus; the functions that unsubscribe are known by what they remove.
pub data Op : Type 0 where
  on : ℕ → ℕ → Op
  on_all : ℕ → Op
  off : ℕ → ℕ → Op
  off_all : ℕ → Op

unfoldable pub apply_op : Op → Bus → Bus
apply_op (on type handler) b = (subscribe type handler b).1
apply_op (on_all handler) b = (subscribe_all handler b).1
apply_op (off type id) b = unsubscribe type id b
apply_op (off_all id) b = unsubscribe_all id b

unfoldable pub apply_ops : List Op → Bus → Bus
unfolding apply_op
apply_ops [] b = b
apply_ops (op ∷ rest) b = apply_ops rest (apply_op op b)

-- Whether a number is subscribed to a type, or to all of them, after a row of operations: `n` is the
-- number that is given next, and `f` says whether it is so before.
unfoldable pub is_on : ℕ → ℕ → ℕ → List Op → Bool → Bool
is_on i t n [] f = f
is_on i t n (on type handler ∷ rest) f =
    is_on i t (n + 1) rest (if nat_beq n i then nat_beq type t else f)
is_on i t n (on_all handler ∷ rest) f = is_on i t (n + 1) rest (if nat_beq n i then false else f)
is_on i t n (off type id ∷ rest) f =
    is_on i t n rest (if nat_beq id i && nat_beq type t then false else f)
is_on i t n (off_all id ∷ rest) f = is_on i t n rest f

unfoldable pub is_on_all : ℕ → ℕ → List Op → Bool → Bool
is_on_all i n [] f = f
is_on_all i n (on type handler ∷ rest) f =
    is_on_all i (n + 1) rest (if nat_beq n i then false else f)
is_on_all i n (on_all handler ∷ rest) f = is_on_all i (n + 1) rest (if nat_beq n i then true else f)
is_on_all i n (off type id ∷ rest) f = is_on_all i n rest f
is_on_all i n (off_all id ∷ rest) f = is_on_all i n rest (if nat_beq id i then false else f)

abbrev pub once_if : Bool → ℕ
once_if true = 1
once_if false = 0

-- The bus, as one number and one type see it.
record Sees (i t n : ℕ) (f g : Bool) (b : Bus) : Type 0 where
  next : b.next_id ≡ n
  typed : times i (handlers_of t b) ≡ once_if f
  general : times i b.all_handle ≡ once_if g
  unused : n ≤ i → (f ≡ false) × (g ≡ false)

times-insert :
    (i t type : ℕ) (xs : List HandlerEntry) (d : Dict ℕ (List HandlerEntry))
    → times i (or_nil (lookup t (insert type xs d)))
      ≡ (if nat_beq type t then times i xs else times i (or_nil (lookup t d)))
times-insert i t type xs d = elim (Bool-cases (nat_beq type t)) [
  | inl same ↦ rw (lookup-insert type t xs d, same) refl
  | inr other ↦ rw (lookup-insert type t xs d, other) refl
]

times-snoc :
    (i n handler : ℕ) (xs : List HandlerEntry)
    → times i (xs ++ record { id = n; handler = handler } ∷ [])
      ≡ times i xs + (if nat_beq n i then 1 else 0)
unfolding times
times-snoc i n handler xs =
    ground (arith, times-append i xs (record { id = n; handler = handler } ∷ []))

next-id : (m n : ℕ) → m ≡ n → n + 1 < 2 ^ 64 → id_after m ≡ n + 1
next-id m n e h = ap (λ (k : ℕ). (k + 1) % 2 ^ 64) e ∙ mod-eq_of_lt {n = n + 1} {m = 2 ^ 64} h

apply_op-on :
    (i t n type handler : ℕ) (f g : Bool) (b : Bus)
    → n + 1 < 2 ^ 64
    → Sees i t n f g b
    → Sees i t
        (n + 1)
        (if nat_beq n i then nat_beq type t else f)
        (if nat_beq n i then false else g)
        (apply_op (on type handler) b)
unfolding apply_op subscribe handlers_of
apply_op-on i t n type handler f g b h s = record {
  next = next-id b.next_id n s.next h;
  typed =
      let e = s.next in
      let same : nat_beq type t ≡ true → times i (handlers_of type b) ≡ times i (handlers_of t b) =
        λ d. ap (λ (k : ℕ). times i (handlers_of k b)) (ground (arith, d)) in
      times-insert i t type
        (handlers_of type b ++ record { id = b.next_id; handler = handler } ∷ []) b.handlers
      ∙ ground
          (arith, e, same, times-snoc i b.next_id handler (handlers_of type b), s.typed, s.unused);
  general = ground (arith, s.general, s.unused);
  unused = λ le. ground (arith, s.unused, le);
}

apply_op-on_all :
    (i t n handler : ℕ) (f g : Bool) (b : Bus)
    → n + 1 < 2 ^ 64
    → Sees i t n f g b
    → Sees i t
        (n + 1)
        (if nat_beq n i then false else f)
        (if nat_beq n i then true else g)
        (apply_op (on_all handler) b)
unfolding apply_op subscribe_all handlers_of
apply_op-on_all i t n handler f g b h s = record {
  next = next-id b.next_id n s.next h;
  typed = ground (arith, s.typed, s.unused);
  general =
      ground (arith, s.next, times-snoc i b.next_id handler b.all_handle, s.general, s.unused);
  unused = λ le. ground (arith, s.unused, le);
}

type_eq : (type t : ℕ) → nat_beq type t ≡ true → type ≡ t
type_eq type t d = ground (arith, d)

apply_op-off :
    (i t n type id : ℕ) (f g : Bool) (b : Bus)
    → Sees i t n f g b
    → Sees i t n (if nat_beq id i && nat_beq type t then false else f) g (apply_op (off type id) b)
unfolding apply_op unsubscribe handlers_of times
apply_op-off i t n type id f g b s = elim (Option-cases (lookup type b.handlers)) [
  | inl e ↦
      rw (e, unsubscribe)
        (let none_of : nat_beq type t ≡ true → times i (or_nil (lookup t b.handlers)) ≡ 0 = λ d.
            ap (λ (k : ℕ). times i (or_nil (lookup k b.handlers))) (sym (type_eq type t d))
            ∙ ap (λ (o : Option (List HandlerEntry)). times i (or_nil o)) e in
          record {
            next = s.next;
            typed = ground (arith, s.typed, none_of);
            general = s.general;
            unused = λ le. ground (arith, s.unused, le);
          })
  | inr (entries, e) ↦
      rw (e, unsubscribe)
        (let all_of : nat_beq type t ≡ true
              → times i entries ≡ times i (or_nil (lookup t b.handlers)) =
            λ d.
              ap (λ (o : Option (List HandlerEntry)). times i (or_nil o)) (sym e)
              ∙ ap (λ (k : ℕ). times i (or_nil (lookup k b.handlers))) (type_eq type t d) in
          record {
            next = s.next;
            typed =
                times-insert i t type (swap_remove id entries) b.handlers
                ∙ ground (arith, s.typed, all_of, times-swap_remove id i entries);
            general = s.general;
            unused = λ le. ground (arith, s.unused, le);
          })
]

apply_op-off_all :
    (i t n id : ℕ) (f g : Bool) (b : Bus)
    → Sees i t n f g b
    → Sees i t n f (if nat_beq id i then false else g) (apply_op (off_all id) b)
unfolding apply_op unsubscribe_all handlers_of
apply_op-off_all i t n id f g b s = record {
  next = s.next;
  typed = s.typed;
  general = times-swap_remove id i b.all_handle ∙ ground (arith, s.general);
  unused = λ le. ground (arith, s.unused, le);
}

-- How many numbers a row of operations gives out.
unfoldable pub subscriptions : List Op → ℕ
subscriptions [] = 0
subscriptions (on type handler ∷ rest) = 1 + subscriptions rest
subscriptions (on_all handler ∷ rest) = 1 + subscriptions rest
subscriptions (off type id ∷ rest) = subscriptions rest
subscriptions (off_all id ∷ rest) = subscriptions rest

times-apply_ops :
    (i t n : ℕ) (ops : List Op) (f g : Bool) (b : Bus)
    → n + subscriptions ops < 2 ^ 64
    → Sees i t n f g b
    → times i (handlers_of t (apply_ops ops b) ++ (apply_ops ops b).all_handle)
      ≡ once_if (is_on i t n ops f) + once_if (is_on_all i n ops g)
unfolding apply_ops subscriptions is_on is_on_all
times-apply_ops i t n [] f g b h s =
    times-append i (handlers_of t b) b.all_handle ∙ omega (arith, s.typed, s.general)
times-apply_ops i t n (on type handler ∷ rest) f g b h s =
    times-apply_ops i t (n + 1) rest _ _ (apply_op (on type handler) b) (omega arith)
      (apply_op-on i t n type handler f g b (omega arith) s)
times-apply_ops i t n (on_all handler ∷ rest) f g b h s =
    times-apply_ops i t (n + 1) rest _ _ (apply_op (on_all handler) b) (omega arith)
      (apply_op-on_all i t n handler f g b (omega arith) s)
times-apply_ops i t n (off type id ∷ rest) f g b h s =
    times-apply_ops i t n rest _ _ (apply_op (off type id) b) h (apply_op-off i t n type id f g b s)
times-apply_ops i t n (off_all id ∷ rest) f g b h s =
    times-apply_ops i t n rest _ _ (apply_op (off_all id) b) h (apply_op-off_all i t n id f g b s)

-- After any subscriptions, fewer than 2^64 of them, and any removals on a new bus, an event is handed
-- to the handler with any number once if that number is subscribed to the event's type and has not been
-- removed there since, once if it is subscribed to all types and has not been removed there since, and
-- otherwise not at all.
pub dispatch-apply_ops :
    (size : ℤ) (ops : List Op) (event : Event) (i : ℕ)
    → subscriptions ops < 2 ^ 64
    → times i (dispatch event (apply_ops ops (new_bus size)))
      ≡ once_if (is_on i event.event_type 0 ops false) + once_if (is_on_all i 0 ops false)
unfolding dispatch new_bus handlers_of times lookup
dispatch-apply_ops size ops event i h =
    times-apply_ops i event.event_type 0 ops false false (new_bus size) (omega arith)
      (record { next = refl; typed = refl; general = refl; unused = λ le. (refl, refl) })
