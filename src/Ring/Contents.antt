-- ===== src/Ring/Contents.antt =====
-- A ring refines the list of what was put, newest first and cut at its size.
use native.Mathlib.Nat.{mod-eq_of_lt, mod-eq-sub-mod}
use mathlib.Core.Path.{ap₂}
use mathlib.Core.List.{reverse-cons, append_assoc, append-nil}
use kubefwd.Base.{
  ℕ, zero, suc, ◌+◌, ◌-◌, ◌%◌, ◌<◌, ◌≤◌, ◌≡◌, ◌≢◌, ◌⊎◌, inl, inr, refl, sym, ap, ◌∙◌, List, [], ◌∷◌,
  Option, none, some, ltb, ltb→lt, lt→ltb, take-ge-length, take-cons, take-append_take, length,
  length-set, length-replicate, get_or, get_or-set_self, get_or-set_ne, set, take, min, arith,
  if◌then◌else◌, Bool-cases, reverse, ◌++◌,
}
use kubefwd.Ring.{Ring, fresh, put, back, newest, contents, IsValid}

back-near : (size head i : ℕ) → head < size → i < head → back size head i ≡ head - (1 + i)
unfolding back
back-near size head i h lt =
    mod-eq-sub-mod {n = head + size - (1 + i)} {m = size} (omega arith)
    ∙ ap (λ k. k % size) (omega arith)
    ∙ mod-eq_of_lt {n = head - (1 + i)} {m = size} (omega arith)

back-far :
    (size head i : ℕ) → head < size → head ≤ i → i < size → back size head i ≡ head + size - (1 + i)
unfolding back
back-far size head i h le lt = mod-eq_of_lt (omega arith)

-- The head moves on, or round to the start.
pub step-cases :
    (size head : ℕ)
    → head < size
    → ((head + 1 < size) × ((head + 1) % size ≡ head + 1))
      ⊎ ((head + 1 ≡ size) × ((head + 1) % size ≡ 0))
step-cases size head h = elim (Bool-cases (ltb (head + 1) size)) [
  | inl lt ↦ inl (ground arith, mod-eq_of_lt {n = head + 1} {m = size} (ground arith))
  | inr ge ↦
      let e : head + 1 ≡ size = ground arith in
      inr (
        e,
        mod-eq-sub-mod {n = head + 1} {m = size} (omega arith)
            ∙ ap (λ k. k % size) (omega arith)
            ∙ mod-eq_of_lt {n = 0} {m = size} (omega arith),
      )
]

-- The index of the newest entry after a write is that of the write.
back-next : (size head : ℕ) → head < size → back size ((head + 1) % size) 0 ≡ head
back-next size head h = elim (step-cases size head h) [
  | inl (lt, e) ↦ rw e (back-near size (head + 1) 0 lt (omega arith) ∙ omega arith)
  | inr (eq, e) ↦ rw e (back-far size 0 0 (omega arith) (omega arith) (omega arith) ∙ omega arith)
]

-- Every other index is one further back.
back-later :
    (size head i : ℕ)
    → head < size
    → suc i < size
    → back size ((head + 1) % size) (suc i) ≡ back size head i
back-later size head i h lt = elim (step-cases size head h) [
  | inr (eq, e) ↦ rw e (
      back-far size 0 (suc i) (omega arith) (omega arith) lt
      ∙ omega arith
      ∙ sym (back-near size head i h (omega arith)))
  | inl (within, e) ↦ rw e (elim (Bool-cases (ltb i head)) [
    | inl near ↦
        back-near size (head + 1) (suc i) within (ground arith)
        ∙ omega arith
        ∙ sym (back-near size head i h (ground arith))
    | inr far ↦
        back-far size (head + 1) (suc i) within (ground arith) lt
        ∙ omega arith
        ∙ sym (back-far size head i h (ground arith) (omega arith))
  ])
]

-- No entry but the oldest of a full ring stands at the head.
back-ne-head : (size head i : ℕ) → head < size → suc i < size → head ≢ back size head i
back-ne-head size head i h lt = elim (Bool-cases (ltb i head)) [
  | inl near ↦ let le : i < head = ground arith in omega (arith, back-near size head i h le)
  | inr far ↦
      let le : head ≤ i = ground arith in omega (arith, back-far size head i h le (omega arith))
]

module _ {ℓ} {A : Type ℓ} (blank : A) where
  pub length-newest : (r : Ring A) (i n : ℕ) → length (newest blank r i n) ≡ n
  unfolding newest
  length-newest r i zero = refl
  length-newest r i (suc n) = ap suc (length-newest r (suc i) n)

  pub take-newest :
      (r : Ring A) (i m n : ℕ) → m ≤ n → take m (newest blank r i n) ≡ newest blank r i m
  unfolding newest
  take-newest r i zero n h = refl
  take-newest r i (suc m) zero h = absurd (omega arith)
  take-newest r i (suc m) (suc n) h =
      ap (◌∷◌ (get_or r.slots (back r.size r.head i) blank))
        (take-newest r (suc i) m n (omega arith))

  -- The ring after a write that is in range.
  abbrev written : A → Ring A → Ring A
  written x r = record r {
    slots = set r.slots r.head x;
    head = (r.head + 1) % r.size;
    count = if ltb r.count r.size then r.count + 1 else r.count;
  }

  newest-written :
      (x : A) (r : Ring A) (i n : ℕ)
      → IsValid r
      → i + n < r.size
      → newest blank (written x r) (suc i) n ≡ newest blank r i n
  unfolding newest
  newest-written x r i zero v h = refl
  newest-written x r i (suc n) v h =
      ap₂ ◌∷◌
        (ap (λ k. get_or (set r.slots r.head x) k blank)
            (back-later r.size r.head i v.head_within (omega arith))
          ∙ get_or-set_ne r.slots x blank
              (back-ne-head r.size r.head i v.head_within (omega arith)))
        (newest-written x r (suc i) n v (omega arith))

  -- A valid ring takes any entry: no write is out of range.
  pub put-valid : (x : A) (r : Ring A) → IsValid r → put x r ≡ some (written x r)
  unfolding put
  put-valid x r v =
      rw (lt→ltb r.head (length r.slots) (omega (arith, v.full_length, v.head_within)))

  written-IsValid : (x : A) (r : Ring A) → IsValid r → IsValid (written x r)
  written-IsValid x r v = record {
    full_length = length-set r.slots r.head x ∙ v.full_length;
    head_within = elim (step-cases r.size r.head v.head_within) [
      | inl (lt, e) ↦ rw e lt
      | inr (eq, e) ↦ rw e (omega arith)
    ];
    count_within = ground arith;
  }

  pub put-IsValid :
      (x : A) (r : Ring A) → IsValid r → (r' : Ring A) × (put x r ≡ some r') × IsValid r'
  put-IsValid x r v = (written x r, put-valid x r v, written-IsValid x r v)

  newest-first :
      (x : A) (r : Ring A) (k : ℕ)
      → IsValid r
      → k < r.size
      → newest blank (written x r) 0 (suc k) ≡ x ∷ newest blank r 0 k
  unfolding newest
  newest-first x r k v h =
      ap₂ ◌∷◌
        (ap (λ i. get_or (set r.slots r.head x) i blank) (back-next r.size r.head v.head_within)
          ∙ get_or-set_self r.slots r.head x blank (omega (arith, v.full_length, v.head_within)))
        (newest-written x r 0 k v (omega arith))

  -- The newest entry comes first, and at the size the oldest falls out.
  pub contents-written :
      (x : A) (r : Ring A)
      → IsValid r
      → contents blank (written x r) ≡ take r.size (x ∷ contents blank r)
  contents-written x r v = elim (Bool-cases (ltb r.count r.size)) [
    | inl room ↦
        ap (newest blank (written x r) 0) (rw room (omega arith))
        ∙ newest-first x r r.count v (ltb→lt _ _ room)
        ∙ sym (
            take-ge-length r.size (x ∷ contents blank r)
              (omega (arith, length-newest r 0 r.count, ltb→lt r.count r.size room)))
    | inr full ↦
        let e : r.count ≡ r.size = ground (arith, v.count_within) in
        ap (newest blank (written x r) 0) (rw full (omega (arith, v.head_within)))
        ∙ newest-first x r (r.size - 1) v (omega (arith, v.head_within))
        ∙ ap (◌∷◌ x) (sym (take-newest r 0 (r.size - 1) r.count (omega arith)))
        ∙ sym (take-cons r.size x (contents blank r) (omega (arith, v.head_within)))
  ]

  pub fresh-IsValid : (n : ℕ) → 0 < n → IsValid (fresh blank n)
  unfolding fresh
  fresh-IsValid n h = record {
    full_length = length-replicate n blank;
    head_within = h;
    count_within = omega arith;
  }

  -- A row of writes, the first of them first; `none` is a panic of one of them.
  unfoldable pub put_all : List A → Ring A → Option (Ring A)
  put_all [] r = some r
  put_all (x ∷ xs) r = elim (put x r) [ none ↦ none | some r' ↦ put_all xs r' ]

  -- What a row of writes leaves behind.
  pub record Wrote (xs : List A) (r r' : Ring A) : Type ℓ where
    pub valid : IsValid r'
    pub same_size : r'.size ≡ r.size
    pub held : contents blank r' ≡ take r.size (reverse xs ++ contents blank r)

  pub put_all-Wrote :
      (xs : List A) (r : Ring A)
      → IsValid r
      → (r' : Ring A) × (put_all xs r ≡ some r') × Wrote xs r r'
  unfolding put_all
  put_all-Wrote [] r v = (
    r,
    refl,
    record {
      valid = v;
      same_size = refl;
      held = sym (
          take-ge-length r.size (contents blank r)
            (omega (arith, length-newest r 0 r.count, v.count_within)));
    },
  )
  put_all-Wrote (x ∷ xs) r v =
      let (r', e, w) = put_all-Wrote xs (written x r) (written-IsValid x r v) in
      (
        r',
        rw (put-valid x r v, put_all) e,
        record {
          valid = w.valid;
          same_size = w.same_size;
          held =
              w.held
              ∙ ap (λ c. take r.size (reverse xs ++ c)) (contents-written x r v)
              ∙ take-append_take r.size r.size (reverse xs) (x ∷ contents blank r) (omega arith)
              ∙ ap (take r.size) (rw (reverse-cons x xs, append_assoc));
        },
      )

  pub newest-none : (r : Ring A) (i k : ℕ) → k ≡ 0 → newest blank r i k ≡ []
  unfolding newest
  newest-none r i k e = rw e

  pub take-contents :
      (r : Ring A) (m : ℕ) → take m (contents blank r) ≡ newest blank r 0 (min m r.count)
  take-contents r m = elim (Bool-cases (ltb m r.count)) [
    | inl below ↦ take-newest r 0 m r.count (ground arith) ∙ ap (newest blank r 0) (ground arith)
    | inr above ↦
        take-ge-length m (contents blank r)
          (let le : r.count ≤ m = ground arith in omega (arith, length-newest r 0 r.count))
        ∙ ap (newest blank r 0) (ground arith)
  ]

  -- A row of writes into a fresh ring leaves the newest of them, newest first.
  pub put_all-fresh :
      (xs : List A) (n : ℕ)
      → 0 < n
      → (r : Ring A) × (put_all xs (fresh blank n) ≡ some r)
        × IsValid r
        × (r.size ≡ n)
        × (contents blank r ≡ take n (reverse xs))
  unfolding fresh
  put_all-fresh xs n h =
      let (r, e, w) = put_all-Wrote xs (fresh blank n) (fresh-IsValid n h) in
      (
        r,
        e,
        w.valid,
        w.same_size,
        w.held
            ∙ ap (λ c. take n (reverse xs ++ c)) (newest-none (fresh blank n) 0 0 refl)
            ∙ ap (take n) (append-nil (reverse xs)),
      )
