-- ===== src/Fwdip/Allocation/Distinct.antt =====
-- The registry never gives one address to two keys, and gives loopback addresses only.
use kubefwd.Base.{
  ℕ, ◌<◌, ◌≡◌, ◌≢◌, ◌⊎◌, inl, inr, refl, sym, subst, ap, ◌∙◌, true, false, List, [], ◌∷◌, some,
  Text, lookup, lookup-insert-eq-some, lookup-insert_self, lookup-insert_ne, contains, text_key,
  text_beq_iff, nat_key, arith, Bool-cases, All,
}
use kubefwd.Fwdip.Types.{ForwardIpOpts, Ip, Registry, ServiceConfiguration}
use kubefwd.Fwdip.Octets.{
  ip_string, ip_from_string, four_octets, octet, ok, err, Parsed, ParseError, IsByteIp,
}
use kubefwd.Fwdip.Config.{get_configuration_for_service, parses_to_loopback}
use kubefwd.Fwdip.Matching.{matches}
use kubefwd.Fwdip.Allocation.{enter, taken, add_to_registry, nth_ip}

-- A loopback address of four bytes.
pub record IsLocal (i : Ip) : Type 0 where
  pub bytes : IsByteIp i
  pub loopback : i.octet_a ≡ 127

pub record IsConsistent (r : Registry) : Type 0 where
  -- What is registered is marked as allocated.
  pub marked :
      (k : Text) (ip : Ip) → lookup k r.reg ≡ some ip → contains (ip_string ip) r.allocated ≡ true
  -- No address is registered under two keys.
  pub apart :
      (k j : Text) (ip ip' : Ip)
      → lookup k r.reg ≡ some ip
      → lookup j r.reg ≡ some ip'
      → ip_string ip ≡ ip_string ip'
      → k ≡ j
  pub located : (k : Text) (ip : Ip) → lookup k r.reg ≡ some ip → IsLocal ip

octet-byte : (k : ℕ) (part : Text) (n : ℕ) → octet k part ≡ ok n → n < 256
unfolding octet
octet-byte k part n h = ground arith

four_octets-IsByteIp : (parts : List Text) (i : Ip) → four_octets parts ≡ ok i → IsByteIp i
unfolding four_octets
four_octets-IsByteIp (p ∷ q ∷ r ∷ s ∷ []) i h = ground (
  arith,
  octet-byte 0 p i.octet_a,
  octet-byte 1 q i.octet_b,
  octet-byte 2 r i.octet_c,
  octet-byte 3 s i.octet_d,
)
four_octets-IsByteIp [] i h = cc
four_octets-IsByteIp (_ ∷ []) i h = cc
four_octets-IsByteIp (_ ∷ _ ∷ []) i h = cc
four_octets-IsByteIp (_ ∷ _ ∷ _ ∷ []) i h = cc
four_octets-IsByteIp (_ ∷ _ ∷ _ ∷ _ ∷ _ ∷ _) i h = cc

pub parsed-IsLocal :
    (s : Text) (i : Ip) → ip_from_string s ≡ ok i → parses_to_loopback s ≡ true → IsLocal i
unfolding ip_from_string
parsed-IsLocal s i h l = record { bytes = four_octets-IsByteIp _ i h; loopback = ground arith }

pub nth_ip-IsLocal :
    (base : Ip) (o : ForwardIpOpts) (k : ℕ) → IsLocal base → IsLocal (nth_ip base o k)
unfolding nth_ip
nth_ip-IsLocal base o k v = record {
  bytes = record {
    byte_a = omega arith;
    byte_b = omega arith;
    byte_c = omega arith;
    byte_d = omega arith;
  };
  loopback = v.loopback;
}

pub configured-All {ℓ} :
    (P : ServiceConfiguration → Type ℓ) (o : ForwardIpOpts) (confs : List ServiceConfiguration)
    (conf : ServiceConfiguration)
    → All P confs
    → get_configuration_for_service o confs ≡ some conf
    → P conf
unfolding get_configuration_for_service
configured-All P o [] conf all h = cc
configured-All P o (x ∷ rest) conf all h = elim (Bool-cases (matches x o)) [
  | inl hit ↦ subst P (ground arith) all.0
  | inr miss ↦ configured-All P o rest conf all.1 (ground arith)
]

enter-IsConsistent :
    (confs : List ServiceConfiguration) (key : Text) (o : ForwardIpOpts) (ip : Ip) (r : Registry)
    → taken confs o ip r.allocated ≡ false
    → IsLocal ip
    → IsConsistent r
    → IsConsistent (enter key ip r)
unfolding taken contains
enter-IsConsistent confs key o ip r free local v = record {
  marked = λ k i h. elim (lookup-insert-eq-some key k ip i r.reg h) [
    | inl new ↦ ground (arith, text_beq_iff (ip_string ip) (ip_string i))
    | inr old ↦ ground (arith, v.marked k i old)
  ];
  apart = λ k j i i' h h' e. elim (lookup-insert-eq-some key k ip i r.reg h) [
    | inl new ↦ elim (lookup-insert-eq-some key j ip i' r.reg h') [
      | inl new' ↦ new.0 ∙ sym new'.0
      | inr old' ↦ absurd (clash i' j (ap ip_string (sym new.1) ∙ e) old')
    ]
    | inr old ↦ elim (lookup-insert-eq-some key j ip i' r.reg h') [
      | inl new' ↦ absurd (clash i k (ap ip_string (sym new'.1) ∙ sym e) old)
      | inr old' ↦ v.apart k j i i' old old' e
    ]
  ];
  located = λ k i h. elim (lookup-insert-eq-some key k ip i r.reg h) [
    | inl new ↦ subst IsLocal (sym new.1) local
    | inr old ↦ v.located k i old
  ];
}
  where
    -- The new address is not registered yet.
    clash : (i : Ip) (k : Text) → ip_string ip ≡ ip_string i → lookup k r.reg ≡ some i → ⊥
    clash i k e h = ground (arith, v.marked k i h)

pub Parsed-cases : (x : Parsed Ip) → ((i : Ip) × (x ≡ ok i)) ⊎ ((e : ParseError) × (x ≡ err e))
Parsed-cases (ok i) = inl (i, refl)
Parsed-cases (err e) = inr (e, refl)

-- The counters do not matter.
pub same-IsConsistent :
    (r r' : Registry)
    → r'.reg ≡ r.reg
    → r'.allocated ≡ r.allocated
    → IsConsistent r
    → IsConsistent r'
same-IsConsistent r r' e f v = record {
  marked = λ k i h. rw f (v.marked k i (rw e at h));
  apart = λ k j i i' h h' q. v.apart k j i i' (rw e at h) (rw e at h') q;
  located = λ k i h. v.located k i (rw e at h);
}

pub add_to_registry-IsConsistent :
    (confs : List ServiceConfiguration) (key : Text) (o : ForwardIpOpts) (ip : Ip) (r r' : Registry)
    → IsLocal ip
    → IsConsistent r
    → add_to_registry confs key o ip r ≡ some r'
    → IsConsistent r' × (lookup key r'.reg ≡ some ip)
unfolding add_to_registry
add_to_registry-IsConsistent confs key o ip r r' local v h =
    elim (Bool-cases (taken confs o ip r.allocated)) [
      | inl busy ↦ ground arith
      | inr free ↦
          ground (
            arith,
            enter-IsConsistent confs key o ip r free local v,
            lookup-insert_self key ip r.reg,
          )
    ]

pub add_to_registry-extends :
    (confs : List ServiceConfiguration) (key : Text) (o : ForwardIpOpts) (ip : Ip) (r r' : Registry)
    (k : Text)
    → key ≢ k
    → add_to_registry confs key o ip r ≡ some r'
    → lookup k r'.reg ≡ lookup k r.reg
unfolding add_to_registry
add_to_registry-extends confs key o ip r r' k ne h =
    ground (arith, lookup-insert_ne key k ip r.reg ne)
