-- ===== src/Fwdmetrics/Rate/Window.antt =====
-- The window of pkg/fwdmetrics/rate.go read from its oldest sample on.
use mathlib.Core.Path.{ap₂}
use mathlib.Core.List.{append-nil, append_assoc}
use kubefwd.Base.{
  ℕ, suc, ◌+◌, ◌-◌, ◌%◌, ◌<◌, ◌≤◌, ◌≡◌, refl, sym, ap, ◌∙◌, inl, inr, List, [], ◌∷◌, ◌++◌, ℤ, pos,
  negsuc, ltb, arith, Bool-cases, length, length-append, length-set, length-take, length-drop,
  get_or, set, take, drop, take-ge-length, drop-ge-length, drop-set, take-set, drop-cons,
  get_or-append_left, get_or-append_right, get_or-drop, get_or-take, last, last-ge, last-append,
  last-snoc,
}
use native.Mathlib.Nat.{mod-eq_of_lt, mod-eq-sub-mod}
use kubefwd.Ring.Contents.{step-cases}
use kubefwd.Fwdmetrics.Rate.{
  RateSample, RateCalculator, no_sample, new_rate_calculator, add_sample, sample_limit, sample_back,
}

-- A list from the `i`th element on, then up to it.
unfoldable pub rotate {ℓ} : {A : Type ℓ} → ℕ → List A → List A
rotate i xs = drop i xs ++ take i xs

rotate-all {ℓ} : {A : Type ℓ} (i : ℕ) (xs : List A) → length xs ≤ i → rotate i xs ≡ xs
unfolding rotate
rotate-all i xs h = rw (drop-ge-length i xs h) (take-ge-length i xs h)

rotate-none {ℓ} : {A : Type ℓ} (xs : List A) → rotate 0 xs ≡ xs
unfolding rotate
rotate-none xs = append-nil xs

-- An index that goes round at the end of a list starts it again.
rotate-next {ℓ} :
    {A : Type ℓ} (size i : ℕ) (xs : List A)
    → i < size
    → length xs ≤ size
    → (i + 1 ≡ size → length xs ≡ size)
    → rotate ((i + 1) % size) xs ≡ rotate (i + 1) xs
rotate-next size i xs h le full = elim (step-cases size i h) [
  | inl (lt, e) ↦ rw e refl
  | inr (eq, e) ↦ rw e (rotate-none xs ∙ sym (rotate-all (i + 1) xs (omega arith)))
]

length-rotate {ℓ} :
    {A : Type ℓ} (i : ℕ) (xs : List A) → i ≤ length xs → length (rotate i xs) ≡ length xs
unfolding rotate
length-rotate i xs h =
    omega (arith, length-append (drop i xs) (take i xs), length-drop i xs, length-take i xs)

get_or-rotate {ℓ} :
    {A : Type ℓ} (i j : ℕ) (xs : List A) (d : A)
    → i ≤ length xs
    → j < length xs
    → get_or (rotate i xs) j d ≡ get_or xs ((i + j) % length xs) d
unfolding rotate
get_or-rotate i j xs d h k = elim (Bool-cases (ltb (i + j) (length xs))) [
  | inl near ↦
      get_or-append_left (drop i xs) (take i xs) j d (ground (arith, length-drop i xs))
      ∙ get_or-drop i j xs d
      ∙ ap (λ (k : ℕ). get_or xs k d)
          (sym (mod-eq_of_lt {n = i + j} {m = length xs} (ground arith)))
  | inr far ↦
      let past : length xs ≤ i + j = ground arith in
      get_or-append_right (drop i xs) (take i xs) j d (omega (arith, length-drop i xs))
      ∙ get_or-take i (j - length (drop i xs)) xs d (omega (arith, length-drop i xs))
      ∙ ap (λ (k : ℕ). get_or xs k d)
          (omega (arith, length-drop i xs)
            ∙ sym (mod-eq_of_lt {n = i + j - length xs} {m = length xs} (omega arith))
            ∙ sym (mod-eq-sub-mod {n = i + j} {m = length xs} past))
]

-- The samples, oldest first.
pub window : RateCalculator → List RateSample
window rc = rotate rc.current_index rc.samples

-- What a new calculator satisfies and adding keeps: the next sample goes to the end, or over the oldest.
pub record IsRolling (rc : RateCalculator) : Type 0 where
  pub index_within : rc.current_index < rc.max_samples
  pub length_within : length rc.samples ≤ rc.max_samples
  pub at_end : length rc.samples < rc.max_samples → rc.current_index ≡ length rc.samples

index-le-length : (rc : RateCalculator) → IsRolling rc → rc.current_index ≤ length rc.samples
index-le-length rc v = elim (Bool-cases (ltb (length rc.samples) rc.max_samples)) [
  | inl room ↦ let e = v.at_end (ground arith) in omega arith
  | inr full ↦ ground (arith, v.index_within)
]

pub length-window : (rc : RateCalculator) → IsRolling rc → length (window rc) ≡ length rc.samples
unfolding window
length-window rc v = length-rotate rc.current_index rc.samples (index-le-length rc v)

-- The samples after one is added.
module _ (x : RateSample) (rc : RateCalculator) (v : IsRolling rc) where
  appended :
      length rc.samples < rc.max_samples
      → rotate ((rc.current_index + 1) % rc.max_samples) (rc.samples ++ x ∷ [])
        ≡ last rc.max_samples (window rc ++ x ∷ [])
  unfolding window
  appended room =
      let e = v.at_end room in
      let n = length-append rc.samples (x ∷ []) in
      rotate-next rc.max_samples rc.current_index (rc.samples ++ x ∷ []) v.index_within
        (omega arith) (λ k. omega arith)
      ∙ rotate-all (rc.current_index + 1) (rc.samples ++ x ∷ []) (omega arith)
      ∙ sym (last-ge rc.max_samples (rc.samples ++ x ∷ []) (omega arith))
      ∙ ap (λ (w : List RateSample). last rc.max_samples (w ++ x ∷ []))
          (sym (rotate-all rc.current_index rc.samples (omega arith)))

  replaced :
      length rc.samples ≡ rc.max_samples
      → rotate ((rc.current_index + 1) % rc.max_samples) (set rc.samples rc.current_index x)
        ≡ last rc.max_samples (window rc ++ x ∷ [])
  unfolding window rotate
  replaced full =
      let i = rc.current_index in
      let xs = rc.samples in
      let rest = drop (suc i) xs ++ take i xs in
      let below : i < length xs = omega (arith, v.index_within) in
      let n = length-set xs i x in
      rotate-next rc.max_samples i (set xs i x) v.index_within (omega arith) (λ k. omega arith)
      ∙ ap (λ (k : ℕ). rotate k (set xs i x)) {y = suc i} (omega arith)
      ∙ ap₂ ◌++◌ (drop-set i x xs) (take-set i x xs below)
      ∙ sym (append_assoc (drop (suc i) xs) (take i xs) (x ∷ []))
      ∙ sym (
          last-snoc rc.max_samples (get_or xs i no_sample) x rest (
            omega (
              arith,
              length-append (drop (suc i) xs) (take i xs),
              length-drop (suc i) xs,
              length-take i xs,
            )))
      ∙ ap (λ (w : List RateSample). last rc.max_samples ((w ++ take i xs) ++ x ∷ []))
          (sym (drop-cons i xs no_sample below))

  pub window-add_sample : window (add_sample x rc) ≡ last rc.max_samples (window rc ++ x ∷ [])
  unfolding window add_sample
  window-add_sample = elim (Bool-cases (ltb (length rc.samples) rc.max_samples)) [
    | inl room ↦ rw room (appended (ground arith))
    | inr full ↦ rw full (replaced (ground (arith, v.length_within)))
  ]

  pub add_sample-IsRolling : IsRolling (add_sample x rc)
  unfolding add_sample
  add_sample-IsRolling =
      let n = length-append rc.samples (x ∷ []) in
      let m = length-set rc.samples rc.current_index x in
      elim (Bool-cases (ltb (length rc.samples) rc.max_samples)) [
        | inl room ↦ rw room (record {
          index_within = next-within;
          length_within = let lt : length rc.samples < rc.max_samples = ground arith in omega arith;
          at_end = λ k.
              let e = v.at_end (ground arith) in
              mod-eq_of_lt {n = rc.current_index + 1} {m = rc.max_samples} (omega arith)
              ∙ omega arith;
        })
        | inr full ↦ rw full (record {
          index_within = next-within;
          length_within = omega (arith, v.length_within);
          at_end = λ k. absurd (ground (arith, v.length_within));
        })
      ]
    where
      next-within : (rc.current_index + 1) % rc.max_samples < rc.max_samples
      next-within = elim (step-cases rc.max_samples rc.current_index v.index_within) [
        | inl (lt, e) ↦ rw e lt
        | inr (eq, e) ↦ rw e (omega (arith, v.index_within))
      ]

sample_limit-positive : (n : ℤ) → 0 < sample_limit n
unfolding sample_limit
sample_limit-positive (negsuc n) = omega arith
sample_limit-positive (pos n) = ground arith

-- A row of samples, the first of them first.
pub add_samples : List RateSample → RateCalculator → RateCalculator
add_samples [] rc = rc
add_samples (x ∷ rest) rc = add_samples rest (add_sample x rc)

window-add_samples :
    (samples : List RateSample) (rc : RateCalculator)
    → IsRolling rc
    → IsRolling (add_samples samples rc)
      × (window (add_samples samples rc) ≡ last rc.max_samples (window rc ++ samples))
unfolding add_sample add_samples
window-add_samples [] rc v = (
  v,
  sym (
      last-ge rc.max_samples (window rc ++ [])
        (rw (append-nil (window rc), length-window rc v) v.length_within)
      ∙ append-nil (window rc)),
)
window-add_samples (x ∷ rest) rc v =
    let (w, e) = window-add_samples rest (add_sample x rc) (add_sample-IsRolling x rc v) in
    (
      w,
      e
          ∙ ap (λ (l : List RateSample). last rc.max_samples (l ++ rest)) (window-add_sample x rc v)
          ∙ last-append rc.max_samples (window rc ++ x ∷ []) rest
          ∙ ap (last rc.max_samples) (append_assoc (window rc) (x ∷ []) rest),
    )

-- What a new calculator holds after a row of samples.
pub window-new :
    (n : ℤ) (samples : List RateSample)
    → IsRolling (add_samples samples (new_rate_calculator n))
      × (window (add_samples samples (new_rate_calculator n)) ≡ last (sample_limit n) samples)
unfolding new_rate_calculator window rotate
window-new n samples = window-add_samples samples (new_rate_calculator n) (record {
  index_within = sample_limit-positive n;
  length_within = omega arith;
  at_end = λ k. refl;
})

-- Counting back from the write index is counting back in the window.
pub sample_back-window :
    (k : ℕ) (rc : RateCalculator)
    → IsRolling rc
    → 0 < k
    → k ≤ length rc.samples
    → sample_back k rc ≡ get_or (window rc) (length rc.samples - k) no_sample
unfolding sample_back window
sample_back-window k rc v h le =
    ap (λ (i : ℕ). get_or rc.samples (i % length rc.samples) no_sample) (omega arith)
    ∙ sym (
        get_or-rotate rc.current_index (length rc.samples - k) rc.samples no_sample
          (index-le-length rc v) (omega arith))
