-- ===== src/Fwdip/Octets/RoundTrip.antt =====
-- Parsing gives back what was printed, so the text of an address stands for the address.
use kubefwd.Base.{
  ℕ, zero, suc, ◌++◌, ◌<◌, ◌≤◌, ◌≡◌, refl, ap, [], ◌∷◌, Bool, true, false, ◌&&◌, Text, itoa, atoi,
  split, nat_beq, not, arith,
}
use kubefwd.Fwdip.Types.{Ip}
use kubefwd.Fwdip.Octets.{ip_string, ip_from_string, four_octets, octet, ok, IsByteIp, Parsed, err}

-- A test that holds of the numbers up to a bound, found out by evaluation.
holds_up_to : (ℕ → Bool) → ℕ → Bool
holds_up_to test zero = test 0
holds_up_to test (suc n) = holds_up_to test n && test (suc n)

holds_up_to-le : (test : ℕ → Bool) (k n : ℕ) → k ≤ n → holds_up_to test n ≡ true → test k ≡ true
unfolding holds_up_to
holds_up_to-le test k zero le h = let e : k ≡ 0 = omega arith in rw e h
holds_up_to-le test k (suc n) le h = ground (arith, holds_up_to-le test k n)

-- The text is free of dots.
dotless : Text → Bool
dotless [] = true
dotless (c ∷ s) = not (nat_beq c b'.') && dotless s

reads_as : ℕ → Parsed ℕ → Bool
reads_as n (ok m) = nat_beq m n
reads_as n (err e) = false

printed_well : ℕ → Bool
unfolding dotless reads_as
printed_well n = dotless (itoa n) && reads_as n (octet 0 (itoa n))

printed_well_table : holds_up_to printed_well 255 ≡ true
unfolding holds_up_to printed_well itoa atoi octet
printed_well_table = refl

printed_well_byte : (n : ℕ) → n < 256 → printed_well n ≡ true
printed_well_byte n h = holds_up_to-le printed_well n 255 (omega arith) printed_well_table

dotless-itoa : (n : ℕ) → n < 256 → dotless (itoa n) ≡ true
unfolding printed_well
dotless-itoa n h = ground (arith, printed_well_byte n h)

octet-itoa : (k n : ℕ) → n < 256 → octet k (itoa n) ≡ ok n
unfolding printed_well octet
octet-itoa k n h = ground (arith, printed_well_byte n h)

split-dotless : (s : Text) → dotless s ≡ true → split b'.' s ≡ s ∷ []
unfolding split dotless
split-dotless [] h = refl
split-dotless (c ∷ s) h = ground (arith, split-dotless s)

split-append : (s t : Text) → dotless s ≡ true → split b'.' (s ++ b'.' ∷ t) ≡ s ∷ split b'.' t
unfolding split dotless
split-append [] t h = refl
split-append (c ∷ s) t h = ground (arith, split-append s t)

split-ip_string :
    (i : Ip)
    → IsByteIp i
    → split b'.' (ip_string i)
      ≡ itoa i.octet_a ∷ itoa i.octet_b ∷ itoa i.octet_c ∷ itoa i.octet_d ∷ []
unfolding ip_string
split-ip_string i v = rw (
  split-append (itoa i.octet_a) _ (dotless-itoa i.octet_a v.byte_a),
  split-append (itoa i.octet_b) _ (dotless-itoa i.octet_b v.byte_b),
  split-append (itoa i.octet_c) _ (dotless-itoa i.octet_c v.byte_c),
  split-dotless (itoa i.octet_d) (dotless-itoa i.octet_d v.byte_d),
)

-- An address of four bytes is read back from its text.
pub ip_from_string-ip_string : (i : Ip) → IsByteIp i → ip_from_string (ip_string i) ≡ ok i
unfolding ip_from_string
ip_from_string-ip_string i v = rw (
  split-ip_string i v,
  four_octets,
  octet-itoa 0 i.octet_a v.byte_a,
  octet-itoa 1 i.octet_b v.byte_b,
  octet-itoa 2 i.octet_c v.byte_c,
  octet-itoa 3 i.octet_d v.byte_d,
)

-- Two addresses with one text are one address.
pub ip_string-injective : (i j : Ip) → IsByteIp i → IsByteIp j → ip_string i ≡ ip_string j → i ≡ j
ip_string-injective i j v w e =
    ground (arith, ip_from_string-ip_string i v, ip_from_string-ip_string j w, ap ip_from_string e)
