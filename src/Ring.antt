-- ===== src/Ring.antt =====
-- The ring buffer that pkg/fwdapi/logbuffer.go, pkg/fwdapi/history/store.go and
-- pkg/fwdmetrics/httpsniff.go each write out: a slice of fixed size, the index of the next write, and
-- a count that stops at the size.
pub mod Contents
pub mod Filtered
pub mod Oldest
use kubefwd.Base.{
  ℕ, zero, suc, ◌+◌, ◌-◌, ◌%◌, ◌<◌, ◌≤◌, ◌≡◌, List, [], ◌∷◌, Option, none, some, Bool, true, false,
  ℤ, pos, negsuc, ltb, length, get_or, set, replicate, if◌then◌else◌,
}

pub record Ring {ℓ} (A : Type ℓ) : Type ℓ where
  pub slots : List A
  pub size : ℕ
  pub head : ℕ
  pub count : ℕ

-- `boundedSize` of logbuffer.go, history/store.go and fwdtui/state/store.go.
unfoldable pub bounded_size : ℤ → ℕ → ℕ
bounded_size (negsuc n) limit = 0
bounded_size (pos n) limit = if ltb 0 n then (if ltb limit n then limit else n) else 0

-- `(head - 1 - i + size) % size`; the loops stay below the size, so the sum is not negative.
unfoldable pub back : ℕ → ℕ → ℕ → ℕ
back size head i = (head + size - (1 + i)) % size

module _ {ℓ} {A : Type ℓ} where
  -- Write at the head, move the head round, and count up to the size. `none` is the panic of a write
  -- out of range.
  unfoldable pub put : A → Ring A → Option (Ring A)
  put x r =
      if ltb r.head (length r.slots)
      then some (record r {
        slots = set r.slots r.head x;
        head = (r.head + 1) % r.size;
        count = if ltb r.count r.size then r.count + 1 else r.count;
      })
      else none

  pub record IsValid (r : Ring A) : Type ℓ where
    pub full_length : length r.slots ≡ r.size
    pub head_within : r.head < r.size
    pub count_within : r.count ≤ r.size

module _ {ℓ} {A : Type ℓ} (blank : A) where
  -- `make([]T, size)` with both indices at 0.
  unfoldable pub fresh : ℕ → Ring A
  fresh size = record { slots = replicate size blank; size = size; head = 0; count = 0 }

  -- The entries from the `i`th newest on, `n` of them.
  unfoldable pub newest : Ring A → ℕ → ℕ → List A
  newest r i zero = []
  newest r i (suc n) = get_or r.slots (back r.size r.head i) blank ∷ newest r (suc i) n

  -- What the ring holds, newest first.
  abbrev pub contents : Ring A → List A
  contents r = newest r 0 r.count
