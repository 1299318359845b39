-- ===== src/Fwdmetrics/Rate/Average.antt =====
-- What pkg/fwdmetrics/rate.go returns after a row of samples: the history, and the rates.
use kubefwd.Base.{
  some, ℕ, zero, suc, ◌+◌, ◌-◌, ◌%◌, ◌^◌, ◌<◌, ◌≤◌, ◌≡◌, refl, sym, ap, ◌∙◌, inl, inr, List, [],
  ◌∷◌, ◌||◌, ℤ, pos, ltb, leb, lt→ltb, nat_beq, false, min, arith, Bool-cases, All, length, get_or,
  last, last-min, last-zero, last-suc, length-last, get_or-last, if◌then◌else◌,
}
use mathlib.Core.Path.{ap₂}
use native.Mathlib.Nat.{mod-eq_of_lt, mod-eq-sub-mod}
use kubefwd.Fwdmetrics.Rate.{
  RateSample, RateCalculator, no_sample, new_rate_calculator, sample_limit, sample_back,
  oldest_sample, sub_uint64, rate_between, get_instant_rate, get_average_rate, read_history,
  get_history,
}
use kubefwd.Fwdmetrics.Rate.Window.{
  window, IsRolling, length-window, add_samples, window-new, sample_back-window,
}

read_history-window :
    (left : ℕ) (rc : RateCalculator)
    → IsRolling rc
    → left ≤ length rc.samples
    → read_history rc left ≡ last left (window rc)
unfolding read_history
read_history-window zero rc v h = sym (last-zero (window rc))
read_history-window (suc left) rc v h =
    let n = length-window rc v in
    ap₂ ◌∷◌
      (sample_back-window (suc left) rc v (omega arith) h
        ∙ ap (λ (k : ℕ). get_or (window rc) (k - suc left) no_sample) (sym n))
      (read_history-window left rc v (omega arith))
    ∙ sym (last-suc left (window rc) no_sample (omega arith))

read_history-none : (k : ℕ) (rc : RateCalculator) → k ≡ 0 → read_history rc k ≡ []
unfolding read_history
read_history-none k rc e = rw e refl

get_history-window :
    (count : ℕ) (rc : RateCalculator)
    → IsRolling rc
    → get_history (pos count) rc ≡ last count (window rc)
unfolding get_history
get_history-window count rc v =
    let n = length-window rc v in
    let read = read_history-window (min count (length rc.samples)) rc v (omega arith) in
    let all = ap (λ (k : ℕ). last (min count k) (window rc)) (sym n) ∙ last-min count (window rc) in
    ground (arith, read ∙ all, read_history-none (min count (length rc.samples)) rc)

-- After any samples, `GetHistory` for a count that is not negative returns the latest of them, oldest
-- first: as many as are asked for, and at most the size of the window.
pub get_history-add_samples :
    (n : ℤ) (count : ℕ) (samples : List RateSample)
    → get_history (pos count) (add_samples samples (new_rate_calculator n))
      ≡ last count (last (sample_limit n) samples)
get_history-add_samples n count samples =
    let (v, e) = window-new n samples in
    get_history-window count (add_samples samples (new_rate_calculator n)) v ∙ ap (last count) e

-- Between counters that have not gone back, the difference of two uint64 does not wrap.
sub_uint64-exact : (a b : ℕ) → b ≤ a → a < 2 ^ 64 → sub_uint64 a b ≡ a - b
unfolding sub_uint64
sub_uint64-exact a b le lt =
    mod-eq-sub-mod {n = a + 2 ^ 64 - b} {m = 2 ^ 64} (omega arith)
    ∙ ap (λ (k : ℕ). k % 2 ^ 64) (omega arith)
    ∙ mod-eq_of_lt {n = a - b} {m = 2 ^ 64} (omega arith)

-- The counters of a sample are uint64.
pub record IsUint64 (s : RateSample) : Type 0 where
  pub in_within : s.bytes_in < 2 ^ 64
  pub out_within : s.bytes_out < 2 ^ 64

All-last {ℓ κ} : {A : Type ℓ} (P : A → Type κ) (n : ℕ) (xs : List A) → All P xs → All P (last n xs)
unfolding last
All-last P n [] all = tt
All-last P n (x ∷ xs) all = elim (Bool-cases (ltb (length xs) n)) [
  | inl h ↦ rw h all
  | inr h ↦ rw h (All-last P n xs all.1)
]

All-get_or {ℓ κ} :
    {A : Type ℓ} (P : A → Type κ) (xs : List A) (i : ℕ) (d : A) → All P xs → P d → P (get_or xs i d)
All-get_or P [] i d all h = h
All-get_or P (x ∷ xs) zero d all h = all.0
All-get_or P (x ∷ xs) (suc i) d all h = All-get_or P xs i d all.1 h

module _ {Rate : Type 0} (per_second : ℕ → ℕ → Rate) (no_rate : Rate) where
  -- The traffic between two samples per second: none where no time has passed or a counter has gone
  -- back.
  pub traffic : RateSample → RateSample → Rate × Rate
  traffic newest oldest =
      let duration = newest.timestamp - oldest.timestamp in
      if leb newest.timestamp oldest.timestamp
        || (ltb newest.bytes_in oldest.bytes_in || ltb newest.bytes_out oldest.bytes_out)
      then (no_rate, no_rate)
      else (
        per_second (newest.bytes_in - oldest.bytes_in) duration,
        per_second (newest.bytes_out - oldest.bytes_out) duration,
      )

  -- The traffic between the first and the last of a row of samples.
  pub traffic_over : List RateSample → Rate × Rate
  traffic_over xs =
      if ltb (length xs) 2
      then (no_rate, no_rate)
      else traffic (get_or xs (length xs - 1) no_sample) (get_or xs 0 no_sample)

  rate_between-traffic :
      (newest oldest : RateSample)
      → IsUint64 newest
      → rate_between per_second no_rate newest oldest ≡ traffic newest oldest
  unfolding rate_between traffic
  rate_between-traffic newest oldest u = ground (
    arith,
    sub_uint64-exact newest.bytes_in oldest.bytes_in,
    sub_uint64-exact newest.bytes_out oldest.bytes_out,
    u.in_within,
    u.out_within,
  )

  traffic_over-short : (xs : List RateSample) → length xs < 2 → traffic_over xs ≡ (no_rate, no_rate)
  unfolding traffic_over
  traffic_over-short xs h = rw (lt→ltb (length xs) 2 h) refl

  -- Two samples or more of the window: the ends are found by counting back.
  rate_between-window :
      (k : ℕ) (rc : RateCalculator)
      → IsRolling rc
      → All IsUint64 (window rc)
      → 2 ≤ k
      → k ≤ length rc.samples
      → rate_between per_second no_rate (sample_back 1 rc) (sample_back k rc)
        ≡ traffic_over (last k (window rc))
  unfolding traffic_over
  rate_between-window k rc v u two le =
      let n = length-window rc v in
      let m : length (last k (window rc)) ≡ k = omega (arith, length-last k (window rc)) in
      let more : ltb k 2 ≡ false = ground arith in
      let newest = get_or (window rc) (length rc.samples - 1) no_sample in
      let oldest = get_or (window rc) (length rc.samples - k) no_sample in
      ap₂ (rate_between per_second no_rate) (sample_back-window 1 rc v (omega arith) (omega arith))
        (sample_back-window k rc v (omega arith) le)
      ∙ rate_between-traffic newest oldest (
          All-get_or IsUint64 (window rc) (length rc.samples - 1) no_sample u
            (record { in_within = omega arith; out_within = omega arith }))
      ∙ sym (
          rw (m, more)
            (ap₂ traffic
              (get_or-last k (k - 1) (window rc) no_sample (omega arith)
                ∙ ap (λ (i : ℕ). get_or (window rc) i no_sample) (omega arith))
              (get_or-last k 0 (window rc) no_sample (omega arith)
                ∙ ap (λ (i : ℕ). get_or (window rc) i no_sample) (omega arith))))

  oldest_sample-window :
      (w : ℕ) (rc : RateCalculator)
      → w + 1 < 2 ^ 63
      → oldest_sample w rc ≡ some (sample_back (min (w + 1) (length rc.samples)) rc)
  unfolding oldest_sample
  oldest_sample-window w rc h = ground arith

  get_average_rate-window :
      (w : ℕ) (rc : RateCalculator)
      → w + 1 < 2 ^ 63
      → IsRolling rc
      → All IsUint64 (window rc)
      → get_average_rate per_second no_rate (pos w) rc
        ≡ some (traffic_over (last (w + 1) (window rc)))
  unfolding get_average_rate
  get_average_rate-window w rc int v u =
      let n = length-window rc v in
      let m = length-last (w + 1) (window rc) in
      elim (Bool-cases (ltb (length rc.samples) 2 || nat_beq w 0)) [
        | inl short ↦
            rw short (ap some (sym (traffic_over-short (last (w + 1) (window rc)) (ground arith))))
        | inr long ↦
            let two : 2 ≤ min (w + 1) (length rc.samples) = ground arith in
            rw (long, oldest_sample-window w rc int)
              (ap some
                  (rate_between-window (min (w + 1) (length rc.samples)) rc v u two (omega arith))
                ∙ ap (λ (k : ℕ). some (traffic_over (last (min (w + 1) k) (window rc)))) (sym n)
                ∙ ap (λ (l : List RateSample). some (traffic_over l))
                    (last-min (w + 1) (window rc)))
      ]

  -- After samples of uint64 counters, `GetAverageRate` for a window of `w` seconds, `w` not negative
  -- and below the greatest int, does not panic and is the traffic between the first and the last of
  -- the latest `w + 1` samples that are kept, without any wrap-around; it is zero where there are fewer
  -- than two, no time has passed or a counter has gone back.
  pub get_average_rate-add_samples :
      (n : ℤ) (w : ℕ) (samples : List RateSample)
      → w + 1 < 2 ^ 63
      → All IsUint64 samples
      → get_average_rate per_second no_rate (pos w) (add_samples samples (new_rate_calculator n))
        ≡ some (traffic_over (last (w + 1) (last (sample_limit n) samples)))
  get_average_rate-add_samples n w samples int u =
      let (v, e) = window-new n samples in
      get_average_rate-window w (add_samples samples (new_rate_calculator n)) int v
        (rw e (All-last IsUint64 (sample_limit n) samples u))
      ∙ ap (λ (l : List RateSample). some (traffic_over (last (w + 1) l))) e

  -- The instant rate is the average rate over one second.
  pub get_average_rate-get_instant_rate :
      (rc : RateCalculator)
      → get_average_rate per_second no_rate (pos 1) rc
        ≡ some (get_instant_rate per_second no_rate rc)
  unfolding get_average_rate get_instant_rate oldest_sample
  get_average_rate-get_instant_rate rc = ground arith
