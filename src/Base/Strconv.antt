-- ===== src/Base/Strconv.antt =====
-- Byte strings: literals, decimal printing and parsing (strconv, `%d`), strings.Split.
use Prim.Native.Nat.{ℕ, zero, suc, ◌+◌, ◌-◌, ◌*◌, ◌/◌, ◌%◌, ◌^◌}
use Prim.Native.Char.{code}
use Prim.Native.String.{String}
use mathlib.Core.Bool.{Bool, true, false, ◌&&◌}
use mathlib.Core.List.{List, [], ◌∷◌, ◌++◌}
use mathlib.Core.Option
use mathlib.Core.Option.{Option, none, some}
use kubefwd.Base.Tests.{ltb, leb, nat_beq, if◌then◌else◌}
use kubefwd.Base.Classes.{Text}

-- A literal's bytes, where it is ASCII.
abbrev pub ascii : String → Text
ascii (String.◌∷◌ letter rest) = code letter ∷ ascii rest
ascii String.[] = []

-- `strconv.Itoa` of a number that is not negative, with fuel for the digits.
unfoldable pub digits : ℕ → ℕ → Text
digits zero n = []
digits (suc f) n =
    let rest = digits f (n / 10) ++ (48 + n % 10) ∷ [] in if ltb n 10 then (48 + n) ∷ [] else rest

unfoldable pub itoa : ℕ → Text
unfolding digits
itoa n = digits (suc n) n

-- Go's `int`; `negsuc n` is -(n + 1).
pub data ℤ : Type 0 where
  pos : ℕ → ℤ
  negsuc : ℕ → ℤ

-- The value of a run of digits after those read so far.
unfoldable pub read_digits : ℕ → Text → Option ℕ
read_digits acc [] = some acc
read_digits acc (c ∷ s) =
    let rest = read_digits (acc * 10 + (c - 48)) s in if leb 48 c && leb c 57 then rest else none

unfoldable pub read_number : Text → Option ℕ
unfolding read_digits
read_number [] = none
read_number (c ∷ s) = read_digits 0 (c ∷ s)

abbrev pub within_int : Bool → ℕ → Option ℤ
within_int false n = if ltb n (2 ^ 63) then some (pos n) else none
within_int true zero = some (pos zero)
within_int true (suc n) = if leb (suc n) (2 ^ 63) then some (negsuc n) else none

-- `strconv.Atoi`: an optional sign, then digits, in the range of int64.
unfoldable pub atoi : Text → Option ℤ
unfolding read_number Option.bind
atoi [] = none
atoi (c ∷ s) =
    if nat_beq c b'-'
    then Option.bind (read_number s) (within_int true)
    else if nat_beq c b'+'
    then Option.bind (read_number s) (within_int false)
    else Option.bind (read_number (c ∷ s)) (within_int false)

unfoldable pub cons_first : ℕ → List Text → List Text
cons_first c [] = (c ∷ []) ∷ []
cons_first c (w ∷ ws) = (c ∷ w) ∷ ws

-- `strings.Split` at one byte.
unfoldable pub split : ℕ → Text → List Text
unfolding cons_first
split sep [] = [] ∷ []
split sep (c ∷ s) = let rest = split sep s in if nat_beq c sep then [] ∷ rest else cons_first c rest

-- `strings.SplitN(s, sep, 2)`: the parts before and after the first separator, if there is one.
unfoldable pub cut : ℕ → Text → Option (Text × Text)
cut sep [] = none
cut sep (c ∷ s) =
    let rest = Option.map (λ (p : Text × Text). (c ∷ p.0, p.1)) (cut sep s) in
    if nat_beq c sep then some ([], s) else rest
