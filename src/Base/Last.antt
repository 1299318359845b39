-- ===== src/Base/Last.antt =====
-- The end of a list: `s[len(s)-n:]`, or all of a list that is shorter.
use mathlib.Core.Path.{◌≡◌, refl, sym, ap, ap₂, ◌∙◌}
use mathlib.Core.Logic.{inl, inr}
use mathlib.Core.Bool.{false}
use mathlib.Core.List.{List, [], ◌∷◌, ◌++◌}
use Prim.Native.Nat.{ℕ, suc, ◌+◌, ◌-◌, ◌≤◌, ◌<◌, min}
use native.Mathlib.Omega.{arith}
use kubefwd.Base.Tests.{ltb, Bool-cases, if◌then◌else◌}
use kubefwd.Base.Lists.{length, length-append, get_or}

unfoldable pub last {ℓ} : {A : Type ℓ} → ℕ → List A → List A
last n [] = []
last n (x ∷ xs) = let rest = last n xs in if ltb (length xs) n then x ∷ xs else rest

module _ {ℓ} {A : Type ℓ} where
  pub last-ge : (n : ℕ) (xs : List A) → length xs ≤ n → last n xs ≡ xs
  unfolding last
  last-ge n [] h = refl
  last-ge n (x ∷ xs) h = ground arith

  pub last-cons_lt : (n : ℕ) (x : A) (xs : List A) → n ≤ length xs → last n (x ∷ xs) ≡ last n xs
  unfolding last
  last-cons_lt n x xs h = ground arith

  pub length-last : (n : ℕ) (xs : List A) → length (last n xs) ≡ min n (length xs)
  unfolding last
  length-last n [] = omega arith
  length-last n (x ∷ xs) = ground (arith, length-last n xs)

  -- What was cut before does not matter later.
  pub last-append : (n : ℕ) (xs ys : List A) → last n (last n xs ++ ys) ≡ last n (xs ++ ys)
  unfolding last
  last-append n [] ys = refl
  last-append n (x ∷ xs) ys = elim (Bool-cases (ltb (length xs) n)) [
    | inl h ↦ rw h refl
    | inr h ↦
        let far : ltb (length (xs ++ ys)) n ≡ false = ground (arith, length-append xs ys) in
        rw (h, far) (last-append n xs ys)
  ]

  pub last-min : (n : ℕ) (xs : List A) → last (min n (length xs)) xs ≡ last n xs
  last-min n xs = elim (Bool-cases (ltb n (length xs))) [
    | inl h ↦ ap (λ (k : ℕ). last k xs) (ground arith)
    | inr h ↦ last-ge _ xs (ground arith) ∙ sym (last-ge n xs (ground arith))
  ]

  -- One more at the end of a full list pushes its first out.
  pub last-snoc :
      (n : ℕ) (x y : A) (xs : List A)
      → length xs + 1 ≡ n
      → last n (x ∷ (xs ++ y ∷ [])) ≡ xs ++ y ∷ []
  last-snoc n x y xs h =
      last-cons_lt n x (xs ++ y ∷ []) (omega (arith, length-append xs (y ∷ [])))
      ∙ last-ge n (xs ++ y ∷ []) (omega (arith, length-append xs (y ∷ [])))

  pub get_or-last :
      (n i : ℕ) (xs : List A) (d : A)
      → n ≤ length xs
      → get_or (last n xs) i d ≡ get_or xs (length xs - n + i) d
  unfolding last
  get_or-last n i [] d h = refl
  get_or-last n i (x ∷ xs) d h = elim (Bool-cases (ltb (length xs) n)) [
    | inl all ↦ rw all (ap (λ (k : ℕ). get_or (x ∷ xs) k d) (ground arith))
    | inr some ↦ rw some (
        get_or-last n i xs d (ground arith)
        ∙ sym (ap (λ (k : ℕ). get_or (x ∷ xs) k d) (e (ground arith))))
  ]
    where
      e : n ≤ length xs → suc (length xs) - n + i ≡ suc (length xs - n + i)
      e le = omega arith

  pub last-zero : (xs : List A) → last 0 xs ≡ []
  unfolding last
  last-zero [] = refl
  last-zero (x ∷ xs) = ground (arith, last-zero xs)

  -- The last `n + 1` are the element before the last `n`, and those.
  pub last-suc :
      (n : ℕ) (xs : List A) (d : A)
      → n < length xs
      → last (suc n) xs ≡ get_or xs (length xs - suc n) d ∷ last n xs
  unfolding last
  last-suc n [] d h = absurd (omega arith)
  last-suc n (x ∷ xs) d h = elim (Bool-cases (ltb n (length xs))) [
    | inl more ↦
        last-cons_lt (suc n) x xs (ground arith)
        ∙ last-suc n xs d (ground arith)
        ∙ ap₂ ◌∷◌
            (ap (λ (k : ℕ). get_or (x ∷ xs) k d) {x = suc (length xs - suc n)}
              {y = suc (length xs) - suc n} (ground arith))
            (sym (last-cons_lt n x xs (ground arith)))
    | inr all ↦
        last-ge (suc n) (x ∷ xs) (ground arith)
        ∙ ap₂ ◌∷◌
            (ap (λ (k : ℕ). get_or (x ∷ xs) k d) {x = 0} {y = suc (length xs) - suc n}
              (ground arith))
            (sym (last-cons_lt n x xs (ground arith) ∙ last-ge n xs (ground arith)))
  ]
