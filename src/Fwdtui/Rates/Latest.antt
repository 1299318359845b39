-- ===== src/Fwdtui/Rates/Latest.antt =====
-- What pkg/fwdtui/state/history.go holds of one forward after the samples of many.
use mathlib.Core.List.{append_assoc, append-nil}
use mathlib.Core.Path.{ap₂}
use kubefwd.Base.{
  ℕ, ◌≡◌, refl, sym, ap, ◌∙◌, List, [], ◌∷◌, ◌++◌, ℤ, Text, text_key, text_beq_iff, ◌==◌, lookup,
  lookup-insert_self, lookup-insert_ne, length, last, last-ge, last-append, ltb, inl, inr, ◌≢◌,
  subst, Bool-cases, Option-cases, arith, if◌then◌else◌,
}
use kubefwd.Fwdtui.Rates.{
  RateHistory, new_rate_history, history_size, trim, or_new, add_rates, add_rate_sample,
  get_all_rate_history,
}

-- A sample of a forward: its key and the rates.
pub record Sample (Rate : Type 0) : Type 0 where
  pub key : Text
  pub rate_in : Rate
  pub rate_out : Rate

append-snoc {ℓ} :
    {A : Type ℓ} (xs : List A) (y : A) (ys : List A) → xs ++ y ∷ ys ≡ (xs ++ y ∷ []) ++ ys
append-snoc xs y ys = sym (append_assoc xs (y ∷ []) ys)

module _ {Rate : Type 0} where
  trim-last : (n : ℕ) (xs : List Rate) → trim n xs ≡ last n xs
  unfolding trim
  trim-last n xs = elim (Bool-cases (ltb n (length xs))) [
    | inl more ↦ rw more refl
    | inr fewer ↦ rw fewer (sym (last-ge n xs (ground arith)))
  ]

  pub add_rate_samples : List (Sample Rate) → RateHistory Rate → RateHistory Rate
  add_rate_samples [] h = h
  add_rate_samples (s ∷ rest) h =
      add_rate_samples rest (add_rate_sample s.key s.rate_in s.rate_out h)

  -- The incoming rates of one forward's samples.
  pub rates_of : Text → List (Sample Rate) → List Rate
  rates_of key [] = []
  rates_of key (s ∷ rest) =
      let later = rates_of key rest in if s.key == key then s.rate_in ∷ later else later

  -- The forward's history is this long, and holds these rates.
  record Holds (key : Text) (h : RateHistory Rate) (xs : List Rate) : Type 0 where
    held : (or_new h.max_size (lookup key h.forwards)).rate_in ≡ last h.max_size xs
    sized : (or_new h.max_size (lookup key h.forwards)).max_size ≡ h.max_size

  add_own-Holds :
      (key : Text) (i o : Rate) (h : RateHistory Rate) (xs : List Rate)
      → Holds key h xs
      → Holds key (add_rate_sample key i o h) (xs ++ i ∷ [])
  unfolding add_rate_sample or_new add_rates
  add_own-Holds key i o h xs w =
      let fh = or_new h.max_size (lookup key h.forwards) in
      let e = lookup-insert_self key (add_rates i o fh) h.forwards in
      record {
        held = rw e (
            trim-last fh.max_size (fh.rate_in ++ i ∷ [])
            ∙ ap₂ (λ (n : ℕ) (l : List Rate). last n (l ++ i ∷ [])) w.sized w.held
            ∙ last-append h.max_size xs (i ∷ []));
        sized = rw e w.sized;
      }

  add_other-Holds :
      (key k : Text) (i o : Rate) (h : RateHistory Rate) (xs : List Rate)
      → k ≢ key
      → Holds key h xs
      → Holds key (add_rate_sample k i o h) xs
  unfolding add_rate_sample
  add_other-Holds key k i o h xs ne w =
      let e =
        lookup-insert_ne k key (add_rates i o (or_new h.max_size (lookup k h.forwards))) h.forwards
          ne in
      record { held = rw e w.held; sized = rw e w.sized }

  add_rate_samples-Holds :
      (key : Text) (samples : List (Sample Rate)) (h : RateHistory Rate) (xs : List Rate)
      → Holds key h xs
      → Holds key (add_rate_samples samples h) (xs ++ rates_of key samples)
  unfolding add_rate_samples rates_of
  add_rate_samples-Holds key [] h xs w = rw (append-nil xs) w
  add_rate_samples-Holds key (s ∷ rest) h xs w = elim (Bool-cases (s.key == key)) [
    | inl same ↦
        let e : s.key ≡ key = ground (arith, text_beq_iff s.key key) in
        rw (same, append-snoc xs s.rate_in (rates_of key rest))
          (add_rate_samples-Holds key rest (add_rate_sample s.key s.rate_in s.rate_out h)
            (xs ++ s.rate_in ∷ [])
            (subst
              (λ (k : Text).
                Holds key (add_rate_sample k s.rate_in s.rate_out h) (xs ++ s.rate_in ∷ []))
              (sym e) (add_own-Holds key s.rate_in s.rate_out h xs w)))
    | inr other ↦
        let ne : s.key ≢ key = λ e. ground (arith, text_beq_iff s.key key, e) in
        rw other (
          add_rate_samples-Holds key rest (add_rate_sample s.key s.rate_in s.rate_out h) xs
            (add_other-Holds key s.key s.rate_in s.rate_out h xs ne w))
  ]

  max_size-add_rate_samples :
      (samples : List (Sample Rate)) (h : RateHistory Rate)
      → (add_rate_samples samples h).max_size ≡ h.max_size
  unfolding add_rate_samples add_rate_sample
  max_size-add_rate_samples [] h = refl
  max_size-add_rate_samples (s ∷ rest) h =
      max_size-add_rate_samples rest (add_rate_sample s.key s.rate_in s.rate_out h)

  get_all-or_new :
      (key : Text) (h : RateHistory Rate)
      → (get_all_rate_history key h).0 ≡ (or_new h.max_size (lookup key h.forwards)).rate_in
  unfolding get_all_rate_history or_new
  get_all-or_new key h = elim (Option-cases (lookup key h.forwards)) [
    | inl e ↦ rw (e, get_all_rate_history, or_new) refl
    | inr (fh, e) ↦ rw (e, get_all_rate_history, or_new) refl
  ]

  -- After the samples of any forwards, the history of one of them holds its latest incoming rates, in
  -- their order and as many as fit.
  pub rate_in-add_rate_samples :
      (n : ℤ) (key : Text) (samples : List (Sample Rate))
      → (get_all_rate_history key (add_rate_samples samples (new_rate_history n))).0
        ≡ last (history_size n) (rates_of key samples)
  unfolding or_new new_rate_history lookup last
  rate_in-add_rate_samples n key samples =
      let h = add_rate_samples samples (new_rate_history {Rate = Rate} n) in
      let w =
        add_rate_samples-Holds key samples (new_rate_history n) []
          (record { held = refl; sized = refl }) in
      get_all-or_new key h
      ∙ w.held
      ∙ ap (λ (k : ℕ). last k (rates_of key samples))
          (max_size-add_rate_samples samples (new_rate_history n))
