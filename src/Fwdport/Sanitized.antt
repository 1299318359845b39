-- ===== src/Fwdport/Sanitized.antt =====
-- `sanitizeHost` of pkg/fwdport/fwdport.go, and the recursion of `addHost` over it.
use mathlib.Core.Path.{ap₂}
use kubefwd.Base.{
  ℕ, suc, ◌≡◌, refl, sym, ap, ◌∙◌, List, [], ◌∷◌, map, some, true, false, Text, text_key,
  text_beq_iff, ◌==◌, nat_beq, All, inl, inr, Bool-cases, if◌then◌else◌,
}
use kubefwd.Fwdport.{
  is_legal, replaced, trim_left, trim_right, before_trimmed, sanitize_host, HostsFile, HostState,
  enter_host, add_host,
}

-- A character that is not replaced.
IsKept : ℕ → Type 0
IsKept c = replaced c ≡ c

replaced-IsKept : (c : ℕ) → IsKept (replaced c)
unfolding IsKept replaced is_legal
replaced-IsKept c = elim (Bool-cases (is_legal c)) [
  | inl legal ↦ rw (legal, legal) refl
  | inr illegal ↦ rw illegal refl
]

map-replaced-IsKept : (s : Text) → All IsKept (map replaced s)
map-replaced-IsKept [] = tt
map-replaced-IsKept (c ∷ s) = (replaced-IsKept c, map-replaced-IsKept s)

map-IsKept : (s : Text) → All IsKept s → map replaced s ≡ s
unfolding IsKept
map-IsKept [] all = refl
map-IsKept (c ∷ s) all = ap₂ ◌∷◌ all.0 (map-IsKept s all.1)

trim_left-IsKept : (s : Text) → All IsKept s → All IsKept (trim_left s)
unfolding trim_left
trim_left-IsKept [] all = tt
trim_left-IsKept (c ∷ s) all = elim (Bool-cases (nat_beq c b'-')) [
  | inl dash ↦ rw dash (trim_left-IsKept s all.1)
  | inr other ↦ rw other all
]

before_trimmed-IsKept :
    (c : ℕ) (s : Text) → IsKept c → All IsKept s → All IsKept (before_trimmed c s)
unfolding before_trimmed
before_trimmed-IsKept c [] k all = elim (Bool-cases (nat_beq c b'-')) [
  | inl dash ↦ rw dash tt
  | inr other ↦ rw other (k, tt)
]
before_trimmed-IsKept c (d ∷ s) k all = (k, all)

trim_right-IsKept : (s : Text) → All IsKept s → All IsKept (trim_right s)
unfolding trim_right
trim_right-IsKept [] all = tt
trim_right-IsKept (c ∷ s) all =
    before_trimmed-IsKept c (trim_right s) all.0 (trim_right-IsKept s all.1)

-- No dash stands in front.
HasNoDash : Text → Type 0
HasNoDash [] = Unit
HasNoDash (c ∷ s) = nat_beq c b'-' ≡ false

trim_left-HasNoDash : (s : Text) → HasNoDash (trim_left s)
unfolding trim_left HasNoDash
trim_left-HasNoDash [] = tt
trim_left-HasNoDash (c ∷ s) = elim (Bool-cases (nat_beq c b'-')) [
  | inl dash ↦ rw dash (trim_left-HasNoDash s)
  | inr other ↦ rw (other, other) refl
]

trim_left-none : (s : Text) → HasNoDash s → trim_left s ≡ s
unfolding trim_left HasNoDash
trim_left-none [] h = refl
trim_left-none (c ∷ s) h = rw h refl

before_trimmed-HasNoDash :
    (c : ℕ) (s : Text) → nat_beq c b'-' ≡ false → HasNoDash (before_trimmed c s)
unfolding before_trimmed HasNoDash
before_trimmed-HasNoDash c [] h = rw (h, h) refl
before_trimmed-HasNoDash c (d ∷ s) h = h

trim_right-HasNoDash : (s : Text) → HasNoDash s → HasNoDash (trim_right s)
unfolding trim_right HasNoDash
trim_right-HasNoDash [] h = tt
trim_right-HasNoDash (c ∷ s) h = before_trimmed-HasNoDash c (trim_right s) h

-- What is trimmed stays as it is.
before_trimmed-again :
    (c : ℕ) (s : Text) → trim_right s ≡ s → trim_right (before_trimmed c s) ≡ before_trimmed c s
unfolding trim_right before_trimmed
before_trimmed-again c [] h = elim (Bool-cases (nat_beq c b'-')) [
  | inl dash ↦ rw dash refl
  | inr other ↦ rw (other, other) refl
]
before_trimmed-again c (d ∷ s) h = ap (before_trimmed c) h

trim_right-again : (s : Text) → trim_right (trim_right s) ≡ trim_right s
unfolding trim_right
trim_right-again [] = refl
trim_right-again (c ∷ s) = before_trimmed-again c (trim_right s) (trim_right-again s)

sanitize_host-again : (s : Text) → sanitize_host (sanitize_host s) ≡ sanitize_host s
unfolding sanitize_host
sanitize_host-again s =
    let left = trim_left (map replaced s) in
    let kept = trim_right-IsKept left (trim_left-IsKept (map replaced s) (map-replaced-IsKept s)) in
    ap (λ (t : Text). trim_right (trim_left t)) (map-IsKept (trim_right left) kept)
    ∙ ap trim_right (
        trim_left-none (trim_right left)
          (trim_right-HasNoDash left (trim_left-HasNoDash (map replaced s))))
    ∙ trim_right-again left

-- The names under which `addHost` enters a host: the host, and what it is sanitized to where that is
-- another name.
pub names_of : Text → List Text
names_of host =
    let sanitized = sanitize_host host in
    if host == sanitized then host ∷ [] else host ∷ sanitized ∷ []

module _ {File : Type 0} (hf : HostsFile File) where
  unfoldable pub enter_all : List Text → HostState File → HostState File
  enter_all [] s = s
  enter_all (host ∷ rest) s = enter_all rest (enter_host hf host s)

  -- `addHost` calls itself at most once: with two rounds or more it ends, for every host, and has
  -- entered the host and, where it is another name, what the host is sanitized to.
  pub add_host-ends :
      (fuel : ℕ) (host : Text) (s : HostState File)
      → add_host hf (suc (suc fuel)) host s ≡ some (enter_all (names_of host) s)
  unfolding add_host enter_all names_of
  add_host-ends fuel host s = elim (Bool-cases (host == sanitize_host host)) [
    | inl same ↦ rw same refl
    | inr other ↦
        let again : (sanitize_host host == sanitize_host (sanitize_host host)) ≡ true =
          (text_beq_iff (sanitize_host host) (sanitize_host (sanitize_host host))).1
            (sym (sanitize_host-again host)) in
        rw (other, again) refl
  ]
