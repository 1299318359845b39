-- ===== src/Ring/Oldest.antt =====
-- The loops that read a ring back oldest first.
use mathlib.Core.List.{reverse-cons, reverse-reverse}
use mathlib.Core.Path.{ap₂}
use kubefwd.Base.{
  ℕ, zero, suc, ◌+◌, ◌≤◌, ◌≡◌, refl, sym, ap, ◌∙◌, inl, inr, List, [], ◌∷◌, ◌++◌, reverse, length,
  length-append, get_or, take, ltb, Bool-cases, arith, last, take-ge-length,
}
use kubefwd.Ring.{Ring, back, newest}

module _ {ℓ} {A : Type ℓ} where
  length-reverse : (xs : List A) → length (reverse xs) ≡ length xs
  length-reverse [] = refl
  length-reverse (x ∷ xs) =
      rw (reverse-cons x xs) (omega (arith, length-append (reverse xs) (x ∷ []), length-reverse xs))

  take-append_within : (n : ℕ) (xs ys : List A) → n ≤ length xs → take n (xs ++ ys) ≡ take n xs
  take-append_within zero xs ys h = refl
  take-append_within (suc n) [] ys h = absurd (omega arith)
  take-append_within (suc n) (x ∷ xs) ys h = ap (◌∷◌ x) (take-append_within n xs ys (omega arith))

  -- The newest elements, turned round, are the last ones.
  pub reverse-take-reverse : (n : ℕ) (xs : List A) → reverse (take n (reverse xs)) ≡ last n xs
  unfolding last
  reverse-take-reverse zero [] = refl
  reverse-take-reverse (suc n) [] = refl
  reverse-take-reverse n (x ∷ xs) = elim (Bool-cases (ltb (length xs) n)) [
    | inl all ↦ rw all (
        ap reverse (take-ge-length n (reverse (x ∷ xs)) (ground (arith, length-reverse (x ∷ xs))))
        ∙ reverse-reverse (x ∷ xs))
    | inr some ↦ rw some (
        ap (λ (l : List A). reverse (take n l)) (reverse-cons x xs)
        ∙ ap reverse
            (take-append_within n (reverse xs) (x ∷ []) (ground (arith, length-reverse xs)))
        ∙ reverse-take-reverse n xs)
  ]

  pub reverse-last : (n : ℕ) (xs : List A) → reverse (last n xs) ≡ take n (reverse xs)
  reverse-last n xs =
      ap reverse (sym (reverse-take-reverse n xs)) ∙ reverse-reverse (take n (reverse xs))

  -- The oldest of what is read comes first when it is turned round.
  pub reverse-newest :
      (blank : A) (r : Ring A) (i n : ℕ)
      → reverse (newest blank r i (suc n))
        ≡ get_or r.slots (back r.size r.head (i + n)) blank ∷ reverse (newest blank r i n)
  unfolding newest
  reverse-newest blank r i zero =
      ap (λ (k : ℕ). get_or r.slots (back r.size r.head k) blank ∷ []) (omega arith)
  reverse-newest blank r i (suc n) =
      let x = get_or r.slots (back r.size r.head i) blank in
      reverse-cons x (newest blank r (suc i) (suc n))
      ∙ ap (λ (l : List A). l ++ x ∷ []) (reverse-newest blank r (suc i) n)
      ∙ ap₂ ◌∷◌
          (ap (λ (k : ℕ). get_or r.slots (back r.size r.head k) blank) {y = i + suc n}
            (omega arith))
          (sym (reverse-cons x (newest blank r (suc i) n)))
