-- ===== src/Fwdip/Octets.antt =====
-- Addresses as text: `net.IP.String` and `ipFromString` of pkg/fwdip/fwdIp.go.
pub mod RoundTrip
use kubefwd.Base.{
  ℕ, ◌++◌, ◌<◌, List, [], ◌∷◌, Option, none, some, Text, ℤ, pos, negsuc, itoa, atoi, split, ltb,
  if◌then◌else◌,
}
use kubefwd.Fwdip.Types.{Ip}

-- The errors of `ipFromString`, by the message that they carry.
pub data ParseError : Type 0 where
  not_four_octets : ParseError
  bad_octet : ℕ → ParseError

pub data Parsed {ℓ} (A : Type ℓ) : Type ℓ where
  ok : A → Parsed A
  err : ParseError → Parsed A

infixl 5 ◌>>=◌
abbrev pub ◌>>=◌ {ℓ κ} : {A : Type ℓ} {B : Type κ} → Parsed A → (A → Parsed B) → Parsed B
ok a >>= f = f a
err e >>= f = err e

-- The dotted decimal form of four bytes.
unfoldable pub ip_string : Ip → Text
ip_string i =
    itoa i.octet_a ++ b'.' ∷ (itoa i.octet_b ++ b'.' ∷ (itoa i.octet_c ++ b'.' ∷ itoa i.octet_d))

-- `octet, err := strconv.Atoi(part); err != nil || octet < 0 || octet > 255`
unfoldable pub octet : ℕ → Text → Parsed ℕ
octet k part = elim (atoi part) [
  | none ↦ err (bad_octet k)
  | some (negsuc n) ↦ err (bad_octet k)
  | some (pos n) ↦ if ltb 255 n then err (bad_octet k) else ok n
]

unfoldable pub four_octets : List Text → Parsed Ip
unfolding octet
four_octets (p ∷ q ∷ r ∷ s ∷ []) = do
  a ← octet 0 p
  b ← octet 1 q
  c ← octet 2 r
  d ← octet 3 s
  ok (record { octet_a = a; octet_b = b; octet_c = c; octet_d = d })
four_octets _ = err not_four_octets

unfoldable pub ip_from_string : Text → Parsed Ip
unfolding four_octets
ip_from_string s = four_octets (split b'.' s)

-- The octets are bytes.
pub record IsByteIp (i : Ip) : Type 0 where
  pub byte_a : i.octet_a < 256
  pub byte_b : i.octet_b < 256
  pub byte_c : i.octet_c < 256
  pub byte_d : i.octet_d < 256
