-- ===== src/Fwdip/Allocation/Search.antt =====
-- Which address a round of `determineIP` settles on, and that the fuel is enough.
use kubefwd.Base.{
  ℕ, zero, suc, ◌+◌, ◌-◌, ◌<◌, ◌≤◌, ◌≡◌, ◌⊎◌, inl, inr, refl, sym, ap, ◌∙◌, Bool, true, false, List,
  ◌∷◌, Option, none, some, Text, insert, ltb, text_key, nat_key, arith, Bool-cases, Option-cases,
  ◌==◌, nat_beq_iff,
}
use kubefwd.Fwdip.Types.{ForwardIpOpts, Ip, Registry, ServiceConfiguration}
use kubefwd.Fwdip.Octets.{ip_string}
use kubefwd.Fwdip.Allocation.{
  enter, taken, add_to_registry, offset, start_cluster, increment, nth_ip, Determined, got,
  ip_bounds_exceeded, place_reserved, out_of_bounds, determine_ip,
}
use kubefwd.Fwdip.Allocation.Counter.{
  offset-start_cluster, offset-increment, offset-enter, Untouched, start_cluster-Untouched,
  increment-Untouched, place_reserved-none,
}

module _ (confs : List ServiceConfiguration) (base : Ip) (key : Text) (o : ForwardIpOpts) where
  -- The address at an offset cannot be had.
  abbrev pub slot_taken : List Text → ℕ → Bool
  slot_taken allocated k = taken confs o (nth_ip base o k) allocated

  -- The search ends at offset `j`, the first from the counter on that is free.
  pub record FoundAt (r : Registry) (d : Determined) (r' : Registry) (j : ℕ) : Type 0 where
    pub from_counter : offset o r ≤ j
    pub within : j ≤ 255
    pub skipped : (i : ℕ) → offset o r ≤ i → i < j → slot_taken r.allocated i ≡ true
    pub free : slot_taken r.allocated j ≡ false
    pub result : d ≡ got (nth_ip base o j)
    pub entered : r'.reg ≡ insert key (nth_ip base o j) r.reg
    pub marked : r'.allocated ≡ ip_string (nth_ip base o j) ∷ r.allocated
    pub counter : offset o r' ≡ j + 1

  -- Nothing from the counter on is free.
  pub record Exhausted (r : Registry) (d : Determined) (r' : Registry) : Type 0 where
    pub skipped : (i : ℕ) → offset o r ≤ i → i ≤ 255 → slot_taken r.allocated i ≡ true
    pub result : d ≡ ip_bounds_exceeded
    pub same_reg : r'.reg ≡ r.reg
    pub same_allocated : r'.allocated ≡ r.allocated

  abbrev pub Settled : Registry → Determined × Registry → Type 0
  Settled r (d, r') = ((j : ℕ) × FoundAt r d r' j) ⊎ Exhausted r d r'

  skip :
      (r r' : Registry)
      → Untouched r r'
      → offset o r' ≡ offset o r + 1
      → slot_taken r.allocated (offset o r) ≡ true
      → (b : ℕ) → ((i : ℕ) → offset o r' ≤ i → i < b → slot_taken r'.allocated i ≡ true)
      → (i : ℕ) → offset o r ≤ i
      → i < b
      → slot_taken r.allocated i ≡ true
  skip r r' u next here b later i lo hi = elim (Bool-cases (offset o r == i)) [
    | inl same ↦ rw (sym ((nat_beq_iff _ _).0 same)) here
    | inr other ↦ rw u.allocated at (later i (ground (arith, nat_beq_iff (offset o r) i)) hi)
  ]

  Settled-skip :
      (r r' : Registry) (x : Determined × Registry)
      → Untouched r r'
      → offset o r' ≡ offset o r + 1
      → slot_taken r.allocated (offset o r) ≡ true
      → Settled r' x
      → Settled r x
  Settled-skip r r' x u next here (inl (j, f)) = inl (
    j,
    record {
      from_counter = omega (arith, f.from_counter);
      within = f.within;
      skipped = skip r r' u next here j f.skipped;
      free = rw u.allocated at f.free;
      result = f.result;
      entered = f.entered ∙ ap (insert key (nth_ip base o j)) u.reg;
      marked = f.marked ∙ ap (◌∷◌ (ip_string (nth_ip base o j))) u.allocated;
      counter = f.counter;
    },
  )
  Settled-skip r r' x u next here (inr f) = inr (record {
    skipped = λ i lo hi.
        skip r r' u next here 256 (λ k l h. f.skipped k l (omega arith)) i lo (omega arith);
    result = f.result;
    same_reg = f.same_reg ∙ u.reg;
    same_allocated = f.same_allocated ∙ u.allocated;
  })

  -- The registry after a round that could not place the address at the counter.
  abbrev next_round : Registry → Registry
  next_round r = increment o (start_cluster o r)

  next_round-Untouched : (r : Registry) → Untouched r (next_round r)
  next_round-Untouched r =
      let s = start_cluster-Untouched o r in
      let i = increment-Untouched o (start_cluster o r) in
      record { reg = i.reg ∙ s.reg; allocated = i.allocated ∙ s.allocated }

  offset-next_round : (r : Registry) → offset o (next_round r) ≡ offset o r + 1
  offset-next_round r =
      omega (arith, offset-increment o (start_cluster o r), offset-start_cluster o r)

  Exhausted-bounds :
      (r : Registry) → 255 < offset o r → Exhausted r ip_bounds_exceeded (start_cluster o r)
  Exhausted-bounds r h =
      let s = start_cluster-Untouched o r in
      record {
        skipped = λ i lo hi. absurd (omega arith);
        result = refl;
        same_reg = s.reg;
        same_allocated = s.allocated;
      }

  FoundAt-counter :
      (r : Registry)
      → offset o r ≤ 255
      → slot_taken r.allocated (offset o r) ≡ false
      → FoundAt r
          (got (nth_ip base o (offset o r)))
          (enter key (nth_ip base o (offset o r)) (next_round r))
          (offset o r)
  FoundAt-counter r h here =
      let u = next_round-Untouched r in
      record {
        from_counter = omega arith;
        within = h;
        skipped = λ i lo hi. absurd (omega arith);
        free = here;
        result = refl;
        entered = ap (insert key (nth_ip base o (offset o r))) u.reg;
        marked = ap (◌∷◌ (ip_string (nth_ip base o (offset o r)))) u.allocated;
        counter =
            offset-enter o key (nth_ip base o (offset o r)) (next_round r) ∙ offset-next_round r;
      }

  -- One round, with the rounds after it as an argument.
  round : Option (Determined × Registry) → Registry → Option (Determined × Registry)
  unfolding add_to_registry
  round later r = elim (out_of_bounds o (start_cluster o r)) [
    | true ↦ some (ip_bounds_exceeded, start_cluster o r)
    | false ↦
        elim (add_to_registry confs key o (nth_ip base o (offset o (start_cluster o r)))
          (next_round r)) [
            | some r3 ↦ some (got (nth_ip base o (offset o (start_cluster o r))), r3)
            | none ↦ later
          ]
  ]

  determine_ip-round :
      (fuel : ℕ) (r : Registry)
      → place_reserved confs key o r ≡ none
      → determine_ip (suc fuel) confs base key o r
        ≡ round (determine_ip fuel confs base key o (next_round r)) r
  unfolding determine_ip round
  determine_ip-round fuel r h = rw (h, determine_ip) refl

  round-over :
      (later : Option (Determined × Registry)) (r : Registry)
      → 255 < offset o r
      → round later r ≡ some (ip_bounds_exceeded, start_cluster o r)
  unfolding round out_of_bounds
  round-over later r h = ground (arith, offset-start_cluster o r)

  round-free :
      (later : Option (Determined × Registry)) (r : Registry)
      → o.cluster_n ≤ 255
      → o.namespace_n ≤ 255
      → offset o r ≤ 255
      → slot_taken r.allocated (offset o r) ≡ false
      → round later r
        ≡ some (
          got (nth_ip base o (offset o r)),
          enter key (nth_ip base o (offset o r)) (next_round r),
        )
  unfolding round out_of_bounds
  round-free later r hc hn h free = ground (arith, offset-start_cluster o r, next_round-Untouched r)

  round-taken :
      (later : Option (Determined × Registry)) (r : Registry)
      → o.cluster_n ≤ 255
      → o.namespace_n ≤ 255
      → offset o r ≤ 255
      → slot_taken r.allocated (offset o r) ≡ true
      → round later r ≡ later
  unfolding round out_of_bounds
  round-taken later r hc hn h free =
      ground (arith, offset-start_cluster o r, next_round-Untouched r)

  -- With as many rounds as there are offsets left the search ends, at the first free address.
  pub determine_ip-Settled :
      (fuel : ℕ) (r : Registry)
      → 256 - offset o r < fuel
      → o.cluster_n ≤ 255
      → o.namespace_n ≤ 255
      → place_reserved confs key o r ≡ none
      → (x : Determined × Registry) × (determine_ip fuel confs base key o r ≡ some x) × Settled r x
  determine_ip-Settled zero r m hc hn h = elim m [ ]
  determine_ip-Settled (suc fuel) r m hc hn h =
      let start = determine_ip-round fuel r h in
      elim (Bool-cases (ltb 255 (offset o r))) [
        | inl over ↦
            (_, start ∙ round-over _ r (ground arith), inr (Exhausted-bounds r (ground arith)))
        | inr under ↦ elim (Bool-cases (slot_taken r.allocated (offset o r))) [
          | inr free ↦ (
            _,
            start ∙ round-free _ r hc hn (ground arith) free,
            inl (offset o r, FoundAt-counter r (ground arith) free),
          )
          | inl here ↦
              let u = next_round-Untouched r in
              let next = offset-next_round r in
              let (x, e, s) =
                determine_ip-Settled fuel (next_round r) (ground arith) hc hn
                  (place_reserved-none confs key o r (next_round r) u.allocated h) in
              (
                x,
                start ∙ round-taken _ r hc hn (ground arith) here ∙ e,
                Settled-skip r (next_round r) x u next here s,
              )
        ]
      ]

  round-far :
      (later : Option (Determined × Registry)) (r : Registry)
      → (255 < o.cluster_n) ⊎ (255 < o.namespace_n)
      → round later r ≡ some (ip_bounds_exceeded, start_cluster o r)
  unfolding round out_of_bounds
  round-far later r h = ground arith

  placed-first :
      (fuel : ℕ) (r : Registry) (x : Ip × Registry)
      → place_reserved confs key o r ≡ some x
      → determine_ip (suc fuel) confs base key o r ≡ some (got x.0, x.1)
  unfolding determine_ip
  placed-first fuel r x e = rw (e, determine_ip) refl

  -- The fuel never runs out.
  pub determine_ip-total :
      (fuel : ℕ) (r : Registry)
      → 256 - offset o r < fuel
      → (x : Determined × Registry) × (determine_ip fuel confs base key o r ≡ some x)
  determine_ip-total zero r m = elim m [ ]
  determine_ip-total (suc fuel) r m = elim (Option-cases (place_reserved confs key o r)) [
    | inr (x, e) ↦ (_, placed-first fuel r x e)
    | inl h ↦ elim (Bool-cases (ltb 255 o.cluster_n)) [
      | inl far ↦ (_, determine_ip-round fuel r h ∙ round-far _ r (inl (ground arith)))
      | inr near ↦ elim (Bool-cases (ltb 255 o.namespace_n)) [
        | inl far ↦ (_, determine_ip-round fuel r h ∙ round-far _ r (inr (ground arith)))
        | inr close ↦
            let (x, e, _) = determine_ip-Settled (suc fuel) r m (ground arith) (ground arith) h in
            (x, e)
      ]
    ]
  ]
