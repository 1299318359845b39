-- ===== src/Ring/Filtered.antt =====
-- The loops that read a ring back: the newest entries, and the newest of those that pass a test.
use kubefwd.Base.{
  ℕ, zero, suc, ◌≤◌, ◌≡◌, refl, sym, ap, ltb, Bool-cases, ◌∙◌, ◌⊎◌, inl, inr, All, length,
  take-ge-length, List, [], ◌∷◌, Bool, get_or, take, arith, if◌then◌else◌,
}
use kubefwd.Ring.{Ring, back, newest, contents}
use kubefwd.Ring.Contents.{length-newest, newest-none}

-- The elements that pass a test, in their order.
unfoldable pub select {ℓ} : {A : Type ℓ} → (A → Bool) → List A → List A
select keep [] = []
select keep (x ∷ xs) = let rest = select keep xs in if keep x then x ∷ rest else rest

module _ {ℓ} {A : Type ℓ} (blank : A) (keep : A → Bool) where
  -- `for i := …; i < … && len(result) < count; i++`: `n` rounds are left, and `wanted` entries.
  unfoldable pub scan : Ring A → ℕ → ℕ → ℕ → List A
  scan r i zero wanted = []
  scan r i (suc n) zero = []
  scan r i (suc n) (suc wanted) =
      let x = get_or r.slots (back r.size r.head i) blank in
      let kept = x ∷ scan r (suc i) n wanted in
      let skipped = scan r (suc i) n (suc wanted) in if keep x then kept else skipped

  pub scan-select :
      (r : Ring A) (i n wanted : ℕ)
      → scan r i n wanted ≡ take wanted (select keep (newest blank r i n))
  unfolding scan select newest
  scan-select r i zero zero = refl
  scan-select r i zero (suc wanted) = refl
  scan-select r i (suc n) zero = refl
  scan-select r i (suc n) (suc wanted) =
      ground (arith, scan-select r (suc i) n wanted, scan-select r (suc i) n (suc wanted))

module _ {ℓ} {A : Type ℓ} where
  length-select-le : (keep : A → Bool) (xs : List A) → length (select keep xs) ≤ length xs
  unfolding select
  length-select-le keep [] = omega arith
  length-select-le keep (x ∷ xs) = ground (arith, length-select-le keep xs)

  -- Two tests that agree on a list select alike.
  pub select-agree :
      (p q : A → Bool) (xs : List A) → All (λ x. p x ≡ q x) xs → select p xs ≡ select q xs
  unfolding select
  select-agree p q [] all = refl
  select-agree p q (x ∷ xs) all = ground (arith, all.0, select-agree p q xs all.1)

  -- Reading a ring back with a bound above what it holds asks for no more than the bound.
  pub take-select-contents :
      (blank : A) (keep : A → Bool) (r : Ring A) (n m : ℕ)
      → (m ≡ n) ⊎ ((m ≡ r.count) × (r.count ≤ n))
      → take m (select keep (contents blank r)) ≡ take n (select keep (contents blank r))
  take-select-contents blank keep r n m (inl e) = rw e
  take-select-contents blank keep r n m (inr (e, le)) =
      let short : length (select keep (contents blank r)) ≤ r.count =
        omega (arith, length-select-le keep (contents blank r), length-newest blank r 0 r.count) in
      take-ge-length m _ (omega arith) ∙ sym (take-ge-length n _ (omega arith))

  pub select-empty :
      (blank : A) (keep : A → Bool) (r : Ring A) (n : ℕ)
      → r.count ≡ 0
      → take n (select keep (contents blank r)) ≡ []
  unfolding select
  select-empty blank keep r zero e = refl
  select-empty blank keep r (suc n) e =
      ap (λ c. take (suc n) (select keep c)) (newest-none blank r 0 r.count e)

  -- A scan that asks for at most what the ring holds finds the newest entries that pass.
  pub scan-contents :
      (blank : A) (keep : A → Bool) (r : Ring A) (n : ℕ)
      → scan blank keep r 0 r.count (if ltb r.count n then r.count else n)
        ≡ take n (select keep (contents blank r))
  scan-contents blank keep r n =
      scan-select blank keep r 0 r.count (if ltb r.count n then r.count else n)
      ∙ take-select-contents blank keep r n (if ltb r.count n then r.count else n)
          (elim (Bool-cases (ltb r.count n)) [
            | inl more ↦ inr (ground arith, ground arith)
            | inr fewer ↦ inl (ground arith)
          ])
