-- ===== src/Fwdapi/History/Errors.antt =====
-- What the store of the history in pkg/fwdapi/history/store.go answers about errors.
use kubefwd.Base.{
  ℕ, ◌+◌, ◌≡◌, refl, ap, ◌∙◌, List, [], ◌∷◌, reverse, Option, none, some, Bool, true, not, inl, inr,
  pos, nat_beq, take, length, min, All, arith, Option-cases,
}
use kubefwd.Ring.{Ring, put, contents, bounded_size}
use kubefwd.Ring.Contents.{put_all, put_all-fresh, take-contents, newest-none}
use kubefwd.Ring.Filtered.{select}
use kubefwd.Fwdapi.History.Records.{ErrorRecord, no_error}
use kubefwd.Fwdapi.History.{
  Store, Config, new_store, positive_or, ErrorArgs, new_error, record_error, get_errors,
}
use kubefwd.Fwdapi.History.Latest.{numbered, All-reverse, All-take, positive_or-pos, numbered-All}

-- A row of calls of `RecordError`.
pub record_errors : List ErrorArgs → Store → Option Store
record_errors [] s = some s
record_errors (a ∷ rest) s = elim (record_error a s) [
  | none ↦ none
  | some (id, s') ↦ record_errors rest s'
]

abbrev with_errors : Store → ℕ → Option (Ring ErrorRecord) → Option Store
with_errors s next none = none
with_errors s next (some r) = some (record s { errors = r; error_next_id = next })

with_errors_again :
    (s : Store) (r : Ring ErrorRecord) (k next next' : ℕ) (x : Option (Ring ErrorRecord))
    → next ≡ next'
    → with_errors (record s { errors = r; error_next_id = k }) next x ≡ with_errors s next' x
with_errors_again s r k next next' none e = refl
with_errors_again s r k next next' (some r') e = rw e

record_errors-put_all :
    (args : List ErrorArgs) (s : Store)
    → record_errors args s
      ≡ with_errors s
          (s.error_next_id + length args)
          (put_all no_error (numbered new_error s.error_next_id args) s.errors)
unfolding record_errors put_all record_error
record_errors-put_all [] s = ground arith
record_errors-put_all (a ∷ rest) s =
    elim (Option-cases (put (new_error s.error_next_id a) s.errors)) [
      | inl e ↦ rw (e, record_errors, put_all) refl
      | inr (r, e) ↦
          rw (e, record_errors, put_all)
            (record_errors-put_all rest
                (record s { errors = r; error_next_id = s.error_next_id + 1 })
              ∙ with_errors_again s r (s.error_next_id + 1) _ _ _ (omega arith))
    ]

abbrev has_id : ErrorRecord → Bool
has_id e = not (nat_beq e.id 0)

select-unchanged : (es : List ErrorRecord) → All (λ e. has_id e ≡ true) es → select has_id es ≡ es
unfolding select
select-unchanged [] h = refl
select-unchanged (e ∷ es) h = rw (h.0, select-unchanged es h.1) refl

get_errors-take :
    (n : ℕ) (s : Store)
    → All (λ e. has_id e ≡ true) (contents no_error s.errors)
    → get_errors (pos n) s ≡ take n (contents no_error s.errors)
unfolding get_errors bounded_size
get_errors-take n s h =
    let taken = take-contents no_error s.errors n in
    let all = All-take (λ e. has_id e ≡ true) n (contents no_error s.errors) h in
    ground (
      arith,
      taken,
      select-unchanged (take n (contents no_error s.errors)) all,
      newest-none no_error s.errors 0 (min n s.errors.count),
    )

-- Recording any errors in a new store never panics and leaves events and reconnections alone;
-- afterwards `GetErrors` returns the newest errors that the ring still holds, as many as are asked
-- for, newest first, each with its number in the row.
pub get_errors-record_errors :
    (c : Config) (args : List ErrorArgs)
    → (s : Store) × (record_errors args (new_store c) ≡ some s)
      × (s.events ≡ (new_store c).events)
      × (s.reconnects ≡ (new_store c).reconnects)
      × ((n : ℕ)
          → get_errors (pos n) s
            ≡ take n (take (positive_or c.max_errors 500) (reverse (numbered new_error 1 args))))
unfolding new_store
get_errors-record_errors c args =
    let (r, e, _, _, held) =
      put_all-fresh no_error (numbered new_error 1 args) (positive_or c.max_errors 500)
        (positive_or-pos c.max_errors 500 (omega arith)) in
    let s : Store = record (new_store c) { errors = r; error_next_id = 1 + length args } in
    (
      s,
      record_errors-put_all args (new_store c) ∙ ap (with_errors (new_store c) (1 + length args)) e,
      refl,
      refl,
      λ n. get_errors-take n s (rw held positive) ∙ ap (take n) held,
    )
  where
    positive :
        All
          (λ e. has_id e ≡ true)
          (take (positive_or c.max_errors 500) (reverse (numbered new_error 1 args)))
    positive = All-take _ (positive_or c.max_errors 500) _ (
        All-reverse _ (numbered new_error 1 args)
          (numbered-All _ new_error (λ id b h. ground arith) 1 args (omega arith)))
