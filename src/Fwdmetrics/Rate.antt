-- ===== src/Fwdmetrics/Rate.antt =====
-- pkg/fwdmetrics/rate.go: a rolling window of samples, and the rates between them. A rate is `Rate`,
-- `per_second bytes nanoseconds` the quotient that the source takes of two float64, and `no_rate` its
-- 0. Counters are below 2^64, an int below 2^63, and a sum of an index and a length is one.
pub mod Window
pub mod Average
use mathlib.Core.Option
use kubefwd.Base.{
  Option, none, some, ℕ, zero, suc, ◌+◌, ◌-◌, ◌%◌, ◌^◌, List, [], ◌∷◌, ◌++◌, Bool, ◌||◌, ℤ, pos,
  negsuc, ltb, leb, nat_beq, length, get_or, set, if◌then◌else◌,
}

-- `RateSample`; the time is in nanoseconds.
pub record RateSample : Type 0 where
  pub timestamp : ℕ
  pub bytes_in : ℕ
  pub bytes_out : ℕ

abbrev pub no_sample : RateSample
no_sample = record { timestamp = 0; bytes_in = 0; bytes_out = 0 }

pub record RateCalculator : Type 0 where
  pub samples : List RateSample
  pub max_samples : ℕ
  pub current_index : ℕ

-- `DefaultMaxSamples`
abbrev pub default_max_samples : ℕ
default_max_samples = 60

unfoldable pub sample_limit : ℤ → ℕ
sample_limit (negsuc n) = default_max_samples
sample_limit (pos n) = if nat_beq n 0 then default_max_samples else n

-- `NewRateCalculator`
unfoldable pub new_rate_calculator : ℤ → RateCalculator
unfolding sample_limit
new_rate_calculator n = record { samples = []; max_samples = sample_limit n; current_index = 0 }

-- `AddSample` of the sample that it makes.
unfoldable pub add_sample : RateSample → RateCalculator → RateCalculator
add_sample sample rc = record rc {
  samples =
      if ltb (length rc.samples) rc.max_samples
      then rc.samples ++ sample ∷ []
      else set rc.samples rc.current_index sample;
  current_index = (rc.current_index + 1) % rc.max_samples;
}

-- `rc.samples[(rc.currentIndex - k + len(rc.samples)) % len(rc.samples)]`
unfoldable pub sample_back : ℕ → RateCalculator → RateSample
sample_back k rc =
    get_or rc.samples ((rc.current_index + length rc.samples - k) % length rc.samples) no_sample

-- A difference of two uint64.
unfoldable pub sub_uint64 : ℕ → ℕ → ℕ
sub_uint64 a b = (a + 2 ^ 64 - b) % 2 ^ 64

-- The oldest sample of `GetAverageRate`. `windowSeconds + 1` is an int: past the greatest one it is
-- `-2^63`, the sum of the index wraps too, and its remainder is negative or 0.
unfoldable pub oldest_sample : ℕ → RateCalculator → Option RateSample
oldest_sample window_seconds rc =
    let wanted = window_seconds + 1 in
    let n = length rc.samples in
    if ltb wanted (2 ^ 63)
    then some (sample_back (if ltb n wanted then n else wanted) rc)
    else if nat_beq ((2 ^ 63 - (rc.current_index + n)) % n) 0
    then some (get_or rc.samples 0 no_sample)
    else none

module _ {Rate : Type 0} (per_second : ℕ → ℕ → Rate) (no_rate : Rate) where
  -- The end of `GetInstantRate` and of `GetAverageRate`.
  unfoldable pub rate_between : RateSample → RateSample → Rate × Rate
  rate_between newest oldest =
      let duration = newest.timestamp - oldest.timestamp in
      if leb newest.timestamp oldest.timestamp
      then (no_rate, no_rate)
      else if ltb newest.bytes_in oldest.bytes_in || ltb newest.bytes_out oldest.bytes_out
      then (no_rate, no_rate)
      else (
        per_second (sub_uint64 newest.bytes_in oldest.bytes_in) duration,
        per_second (sub_uint64 newest.bytes_out oldest.bytes_out) duration,
      )

  -- `GetInstantRate`
  unfoldable pub get_instant_rate : RateCalculator → Rate × Rate
  get_instant_rate rc =
      if ltb (length rc.samples) 2
      then (no_rate, no_rate)
      else rate_between (sample_back 1 rc) (sample_back 2 rc)

  -- `GetAverageRate`; `none` is the panic of an index that is negative.
  unfoldable pub get_average_rate : ℤ → RateCalculator → Option (Rate × Rate)
  unfolding oldest_sample
  get_average_rate (negsuc n) rc = some (no_rate, no_rate)
  get_average_rate (pos window_seconds) rc =
      let rate = Option.map (rate_between (sample_back 1 rc)) (oldest_sample window_seconds rc) in
      if ltb (length rc.samples) 2 || nat_beq window_seconds 0
      then some (no_rate, no_rate)
      else rate

-- The loop of `GetHistory`: `left` rounds are left.
unfoldable pub read_history : RateCalculator → ℕ → List RateSample
unfolding sample_back
read_history rc zero = []
read_history rc (suc left) = sample_back (suc left) rc ∷ read_history rc left

-- `GetHistory`
unfoldable pub get_history : ℤ → RateCalculator → List RateSample
unfolding read_history
get_history (negsuc n) rc = []
get_history (pos count) rc =
    if nat_beq count 0 || nat_beq (length rc.samples) 0
    then []
    else read_history rc (if ltb (length rc.samples) count then length rc.samples else count)
