-- ===== src/Base/Maps.antt =====
-- Go maps as association lists: a write keeps the place of a key, and a new key goes to the end.
use mathlib.Core.Path.{◌≡◌}
use mathlib.Core.List.{List, [], ◌∷◌}
use mathlib.Core.Option.{Option, none, some}
use native.Mathlib.Omega.{arith}
use mathlib.Core.Logic.{◌⊎◌, inl, inr, ◌≢◌}
use kubefwd.Base.Tests.{if◌then◌else◌, Bool-cases}
use kubefwd.Base.Classes.{Key, ◌==◌}

abbrev pub Dict {ℓ κ} : Type ℓ → Type κ → Type (ℓ ⊔ κ)
Dict K V = List (K × V)

module _ {ℓ κ} {K : Type ℓ} {V : Type κ} ⦃key : Key K⦄ where
  -- `delete(d, k)`
  unfoldable pub erase : K → Dict K V → Dict K V
  erase k ((j, w) ∷ d) = if k == j then erase k d else (j, w) ∷ erase k d
  erase k [] = []

  -- `d[k] = v`
  unfoldable pub insert : K → V → Dict K V → Dict K V
  insert k v ((j, w) ∷ d) = if k == j then (j, v) ∷ d else (j, w) ∷ insert k v d
  insert k v [] = (k, v) ∷ []

  -- `v, ok := d[k]`
  unfoldable pub lookup : K → Dict K V → Option V
  lookup k ((j, w) ∷ d) = if k == j then some w else lookup k d
  lookup k [] = none

  pub lookup-erase :
      (k j : K) (d : Dict K V) → lookup j (erase k d) ≡ (if k == j then none else lookup j d)
  unfolding lookup erase
  lookup-erase k j ((i, w) ∷ d) =
      ground (arith, lookup-erase k j d, key.same_iff j i, key.same_iff k i, key.same_iff k j)
  lookup-erase k j [] = ground arith

  pub lookup-insert :
      (k j : K) (v : V) (d : Dict K V)
      → lookup j (insert k v d) ≡ (if k == j then some v else lookup j d)
  unfolding lookup insert
  lookup-insert k j v ((i, w) ∷ d) =
      ground (arith, lookup-insert k j v d, key.same_iff j i, key.same_iff k i, key.same_iff k j)
  lookup-insert k j v [] = ground (arith, key.same_iff j k, key.same_iff k j)

  -- What is found after a write is what was written, or was there before.
  pub lookup-insert-eq-some :
      (k j : K) (v w : V) (m : Dict K V)
      → lookup j (insert k v m) ≡ some w
      → ((j ≡ k) × (w ≡ v)) ⊎ (lookup j m ≡ some w)
  lookup-insert-eq-some k j v w m h = elim (Bool-cases (k == j)) [
    | inl same ↦ inl (ground (arith, lookup-insert k j v m, key.same_iff k j))
    | inr other ↦ inr (ground (arith, lookup-insert k j v m))
  ]

  pub lookup-insert_self : (k : K) (v : V) (m : Dict K V) → lookup k (insert k v m) ≡ some v
  lookup-insert_self k v m = ground (arith, lookup-insert k k v m, key.same_iff k k)

  pub lookup-insert_ne :
      (k j : K) (v : V) (m : Dict K V) → k ≢ j → lookup j (insert k v m) ≡ lookup j m
  lookup-insert_ne k j v m h = ground (arith, lookup-insert k j v m, key.same_iff k j)

-- The values of a map, in its order.
unfoldable pub values {ℓ κ} : {K : Type ℓ} {V : Type κ} → Dict K V → List V
values [] = []
values ((k, v) ∷ rest) = v ∷ values rest

-- The keys of a map, in its order.
unfoldable pub keys {ℓ κ} : {K : Type ℓ} {V : Type κ} → Dict K V → List K
keys [] = []
keys ((k, v) ∷ rest) = k ∷ keys rest
