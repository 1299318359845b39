-- ===== src/Fwdtui/State/Erased.antt =====
-- The loops of `RemoveByNamespace` in pkg/fwdtui/state/store.go: collect the keys, then delete them.
use kubefwd.Base.{
  ◌≡◌, ◌⊎◌, inl, inr, refl, List, [], ◌∷◌, Bool, true, false, Text, text_key, text_beq_iff, ◌==◌,
  Dict, erase, contains, All, All-map, Bool-cases, arith, if◌then◌else◌,
}
use kubefwd.Fwdtui.State.{keys_where, erase_each}

module _ {V : Type 0} (p : V → Bool) where
  -- The entry fails the test, or its key is among those to be erased.
  abbrev Waiting : List Text → Text × V → Type 0
  Waiting ks e = (p e.1 ≡ false) ⊎ (contains e.0 ks ≡ true)

  pub keys_where-Waiting : (d : Dict Text V) → All (Waiting (keys_where p d)) d
  unfolding keys_where contains
  keys_where-Waiting [] = tt
  keys_where-Waiting ((k, v) ∷ rest) = of_test (p v) refl (keys_where-Waiting rest)
    where
      later : (e : Text × V) → Waiting (keys_where p rest) e → Waiting (k ∷ keys_where p rest) e
      later e w = ground arith

      of_test :
          (b : Bool)
          → p v ≡ b
          → All (Waiting (keys_where p rest)) rest
          → All (Waiting (if b then k ∷ keys_where p rest else keys_where p rest)) ((k, v) ∷ rest)
      of_test true h ih =
          (inr (ground (arith, text_beq_iff k k)), All-map rest (λ e w. later e w) ih)
      of_test false h ih = (inl h, ih)

  erase-Waiting :
      (k : Text) (ks : List Text) (d : Dict Text V)
      → All (Waiting (k ∷ ks)) d
      → All (Waiting ks) (erase k d)
  unfolding erase contains
  erase-Waiting k ks [] h = tt
  erase-Waiting k ks ((j, v) ∷ rest) h = elim (Bool-cases (k == j)) [
    | inl same ↦ rw same (erase-Waiting k ks rest h.1)
    | inr other ↦ rw other (kept h.0 other, erase-Waiting k ks rest h.1)
  ]
    where
      kept : Waiting (k ∷ ks) (j, v) → k == j ≡ false → Waiting ks (j, v)
      kept w other = ground (arith, text_beq_iff k j)

  pub erase_each-All :
      (ks : List Text) (d : Dict Text V)
      → All (Waiting ks) d
      → All (λ (e : Text × V). p e.1 ≡ false) (erase_each ks d)
  unfolding erase_each contains
  erase_each-All [] d h = All-map d (λ e w. ground arith) h
  erase_each-All (k ∷ ks) d h = erase_each-All ks (erase k d) (erase-Waiting k ks d h)
