-- ===== src/Fwdtui/Rates.antt =====
-- pkg/fwdtui/state/history.go: the latest rates of each forward. A rate is `Rate`.
pub mod Latest
use kubefwd.Base.{
  ℕ, List, [], ◌∷◌, ◌++◌, Option, none, some, Text, text_key, Dict, lookup, insert, erase, ℤ, pos,
  negsuc, length, last, ltb, nat_beq, if◌then◌else◌,
}

-- `ForwardHistory`
pub record ForwardHistory (Rate : Type 0) : Type 0 where
  pub rate_in : List Rate
  pub rate_out : List Rate
  pub max_size : ℕ

-- `RateHistory`
pub record RateHistory (Rate : Type 0) : Type 0 where
  pub forwards : Dict Text (ForwardHistory Rate)
  pub max_size : ℕ

unfoldable pub history_size : ℤ → ℕ
history_size (negsuc n) = 60
history_size (pos n) = if nat_beq n 0 then 60 else n

module _ {Rate : Type 0} where
  -- `NewRateHistory`
  unfoldable pub new_rate_history : ℤ → RateHistory Rate
  unfolding history_size
  new_rate_history n = record { forwards = []; max_size = history_size n }

  -- `if len(s) > n { s = s[len(s)-n:] }`
  unfoldable pub trim : ℕ → List Rate → List Rate
  trim n rates = if ltb n (length rates) then last n rates else rates

  unfoldable pub or_new : ℕ → Option (ForwardHistory Rate) → ForwardHistory Rate
  or_new size none = record { rate_in = []; rate_out = []; max_size = size }
  or_new size (some fh) = fh

  -- The rest of `AddSample`, with the history of the forward.
  unfoldable pub add_rates : Rate → Rate → ForwardHistory Rate → ForwardHistory Rate
  unfolding trim
  add_rates i o fh = record fh {
    rate_in = trim fh.max_size (fh.rate_in ++ i ∷ []);
    rate_out = trim fh.max_size (fh.rate_out ++ o ∷ []);
  }

  -- `RateHistory.AddSample`
  unfoldable pub add_rate_sample : Text → Rate → Rate → RateHistory Rate → RateHistory Rate
  unfolding add_rates or_new
  add_rate_sample key i o h = record h {
    forwards = insert key (add_rates i o (or_new h.max_size (lookup key h.forwards))) h.forwards;
  }

  -- `RateHistory.GetHistory`; `none` is the panic of a slice of negative length.
  unfoldable pub get_rate_history : Text → ℤ → RateHistory Rate → Option (List Rate × List Rate)
  unfolding trim
  get_rate_history key (negsuc n) h = elim (lookup key h.forwards) [
    | none ↦ some ([], [])
    | some fh ↦ none
  ]
  get_rate_history key (pos n) h = elim (lookup key h.forwards) [
    | none ↦ some ([], [])
    | some fh ↦ some (trim n fh.rate_in, trim n fh.rate_out)
  ]

  -- `GetAllHistory`
  unfoldable pub get_all_rate_history : Text → RateHistory Rate → List Rate × List Rate
  get_all_rate_history key h = elim (lookup key h.forwards) [
    | none ↦ ([], [])
    | some fh ↦ (fh.rate_in, fh.rate_out)
  ]

  -- `Remove` and `Clear`
  unfoldable pub remove_rates : Text → RateHistory Rate → RateHistory Rate
  remove_rates key h = record h { forwards = erase key h.forwards }

  unfoldable pub clear_rates : RateHistory Rate → RateHistory Rate
  clear_rates h = record h { forwards = [] }
