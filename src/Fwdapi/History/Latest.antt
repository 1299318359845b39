-- ===== src/Fwdapi/History/Latest.antt =====
-- What the store of the history answers after a row of records.
use kubefwd.Base.{
  is_blank, ℕ, zero, suc, ◌+◌, ◌<◌, ◌≡◌, inl, inr, refl, ap, sym, ◌∙◌, List, [], ◌∷◌, reverse,
  Option, none, some, Bool, ◌||◌, Text, text_key, ◌==◌, ℤ, pos, negsuc, nat_beq, take, length, All,
  All-append, arith, Bool-cases, Option-cases,
}
use mathlib.Core.List.{reverse-cons}
use kubefwd.Ring.{Ring, put, contents}
use kubefwd.Ring.Contents.{put_all, put_all-fresh}
use kubefwd.Ring.Filtered.{select, select-agree, select-empty, scan-contents}
use kubefwd.Fwdapi.History.Records.{Event, no_event}
use kubefwd.Fwdapi.History.{
  Store, Config, new_store, positive_or, EventArgs, new_event, record_event, keeps_event,
  get_events,
}

module _ {A B : Type 0} (make : ℕ → B → A) where
  -- The records of a row of calls, numbered from `id` on.
  abbrev pub numbered : ℕ → List B → List A
  numbered id [] = []
  numbered id (a ∷ rest) = make id a ∷ numbered (id + 1) rest

pub All-reverse {ℓ κ} : {A : Type ℓ} (P : A → Type κ) (xs : List A) → All P xs → All P (reverse xs)
All-reverse P [] h = tt
All-reverse P (x ∷ xs) h =
    rw (reverse-cons x xs) (All-append P (reverse xs) (x ∷ []) (All-reverse P xs h.1) (h.0, tt))

pub All-take {ℓ κ} :
    {A : Type ℓ} (P : A → Type κ) (n : ℕ) (xs : List A) → All P xs → All P (take n xs)
All-take P zero xs h = tt
All-take P (suc n) [] h = tt
All-take P (suc n) (x ∷ xs) h = (h.0, All-take P n xs h.1)

pub positive_or-pos : (z : ℤ) (fallback : ℕ) → 0 < fallback → 0 < positive_or z fallback
unfolding positive_or
positive_or-pos (negsuc n) fallback h = h
positive_or-pos (pos n) fallback h = ground arith

-- A row of calls of `RecordEvent`.
pub record_events : List EventArgs → Store → Option Store
record_events [] s = some s
record_events (a ∷ rest) s = elim (record_event a s) [
  | none ↦ none
  | some (id, s') ↦ record_events rest s'
]

abbrev with_events : Store → ℕ → Option (Ring Event) → Option Store
with_events s next none = none
with_events s next (some r) = some (record s { events = r; event_next_id = next })

with_events_again :
    (s : Store) (r : Ring Event) (k next next' : ℕ) (x : Option (Ring Event))
    → next ≡ next'
    → with_events (record s { events = r; event_next_id = k }) next x ≡ with_events s next' x
with_events_again s r k next next' none e = refl
with_events_again s r k next next' (some r') e = rw e

record_events-put_all :
    (args : List EventArgs) (s : Store)
    → record_events args s
      ≡ with_events s
          (s.event_next_id + length args)
          (put_all no_event (numbered new_event s.event_next_id args) s.events)
unfolding record_events put_all record_event
record_events-put_all [] s = ground arith
record_events-put_all (a ∷ rest) s =
    elim (Option-cases (put (new_event s.event_next_id a) s.events)) [
      | inl e ↦ rw (e, record_events, put_all) refl
      | inr (r, e) ↦
          rw (e, record_events, put_all)
            (record_events-put_all rest
                (record s { events = r; event_next_id = s.event_next_id + 1 })
              ∙ with_events_again s r (s.event_next_id + 1) _ _ _ (omega arith))
    ]

-- Whether an event is of the type asked for; the empty type asks for all.
abbrev pub is_of_type : Text → Event → Bool
is_of_type type e = is_blank type || e.type == type

get_events-select :
    (n : ℕ) (type : Text) (s : Store)
    → get_events (pos n) type s ≡ take n (select (keeps_event type) (contents no_event s.events))
unfolding get_events
get_events-select n type s = elim (Bool-cases (nat_beq n 0)) [
  | inl none_wanted ↦ rw none_wanted (let e : n ≡ 0 = ground arith in rw e refl)
  | inr wanted ↦ elim (Bool-cases (nat_beq s.events.count 0)) [
    | inl empty ↦
        rw (wanted, empty)
          (sym (select-empty no_event (keeps_event type) s.events n (ground arith)))
    | inr held ↦ rw (wanted, held) (scan-contents no_event (keeps_event type) s.events n)
  ]
]

-- The numbers of the records are positive.
pub numbered-All {ℓ} :
    {A B : Type 0} (P : A → Type ℓ) (make : ℕ → B → A)
    → ((id : ℕ) (b : B) → 0 < id → P (make id b))
    → (id : ℕ) (args : List B) → 0 < id
    → All P (numbered make id args)
numbered-All P make f id [] h = tt
numbered-All P make f id (a ∷ rest) h =
    (f id a h, numbered-All P make f (id + 1) rest (omega arith))

-- Recording any events in a new store never panics and leaves errors and reconnections alone;
-- afterwards `GetEvents` returns the newest events of the type asked for among those that the ring
-- still holds, newest first, each with its number in the row.
pub get_events-record_events :
    (c : Config) (args : List EventArgs)
    → (s : Store) × (record_events args (new_store c) ≡ some s)
      × (s.errors ≡ (new_store c).errors)
      × (s.reconnects ≡ (new_store c).reconnects)
      × ((n : ℕ) (type : Text)
          → get_events (pos n) type s
            ≡ take n (
                select
                  (is_of_type type)
                  (take (positive_or c.max_events 1000) (reverse (numbered new_event 1 args)))))
unfolding new_store
get_events-record_events c args =
    let (r, e, _, _, held) =
      put_all-fresh no_event (numbered new_event 1 args) (positive_or c.max_events 1000)
        (positive_or-pos c.max_events 1000 (omega arith)) in
    let s : Store = record (new_store c) { events = r; event_next_id = 1 + length args } in
    (
      s,
      record_events-put_all args (new_store c) ∙ ap (with_events (new_store c) (1 + length args)) e,
      refl,
      refl,
      λ n type.
          get_events-select n type s
          ∙ ap (λ l. take n (select (keeps_event type) l)) held
          ∙ ap (take n) (select-agree (keeps_event type) (is_of_type type) _ (positive type)),
    )
  where
    positive :
        (type : Text)
        → All
            (λ e. keeps_event type e ≡ is_of_type type e)
            (take (positive_or c.max_events 1000) (reverse (numbered new_event 1 args)))
    positive type = All-take _ (positive_or c.max_events 1000) _ (
        All-reverse _ (numbered new_event 1 args)
          (numbered-All _ new_event (λ id b h. ground arith) 1 args (omega arith)))
