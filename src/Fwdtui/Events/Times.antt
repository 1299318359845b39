-- ===== src/Fwdtui/Events/Times.antt =====
-- The numbers in a list of handlers of pkg/fwdtui/events/bus.go, and how a removal changes them.
use kubefwd.Base.{
  ℕ, ◌+◌, ◌-◌, ◌≡◌, refl, ◌∙◌, List, [], ◌∷◌, ◌++◌, nat_key, nat_beq, inl, inr, Bool-cases, arith,
  if◌then◌else◌,
}
use kubefwd.Fwdtui.Events.{HandlerEntry, last_first, swap_remove}

-- How often the entry with a number is in a list.
unfoldable pub times : ℕ → List HandlerEntry → ℕ
times id [] = 0
times id (e ∷ rest) = let n = times id rest in if nat_beq e.id id then 1 + n else n

pub times-append :
    (id : ℕ) (xs ys : List HandlerEntry) → times id (xs ++ ys) ≡ times id xs + times id ys
unfolding times
times-append id [] ys = omega arith
times-append id (e ∷ xs) ys = ground (arith, times-append id xs ys)

times-last_first : (id : ℕ) (xs : List HandlerEntry) → times id (last_first xs) ≡ times id xs
unfolding times last_first
times-last_first id [] = refl
times-last_first id (e ∷ rest) = step (last_first rest) (times-last_first id rest)
  where
    step :
        (l : List HandlerEntry)
        → times id l ≡ times id rest
        → times id
            (elim l as (λ x. List HandlerEntry) [ [] ↦ e ∷ [] | f ∷ others ↦ f ∷ e ∷ others ])
          ≡ (if nat_beq e.id id then 1 + times id rest else times id rest)
    step [] h = ground (arith, h)
    step (f ∷ others) h = ground (arith, h)

-- The entry with the number is taken out once; every other stays as often as it was.
pub times-swap_remove :
    (id j : ℕ) (xs : List HandlerEntry)
    → times j (swap_remove id xs) ≡ (if nat_beq id j then times j xs - 1 else times j xs)
unfolding times swap_remove
times-swap_remove id j [] = ground arith
times-swap_remove id j (e ∷ rest) = elim (Bool-cases (nat_beq e.id id)) [
  | inl found ↦ rw found (times-last_first j rest ∙ ground (arith, found))
  | inr not_found ↦ rw not_found (ground (arith, not_found, times-swap_remove id j rest))
]
