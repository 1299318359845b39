-- ===== src/Fwdns/Indices.antt =====
-- `getContextIndex` and `getNamespaceIndex` of pkg/fwdns/manager.go: indices for the allocation of
-- addresses, handed out by the number of names that have one.
use kubefwd.Base.{
  ℕ, suc, ◌+◌, ◌<◌, ◌≤◌, ◌≡◌, inl, inr, refl, sym, ap, ◌∙◌, List, [], ◌∷◌, none, some, Text,
  text_key, text_beq_iff, Dict, lookup, insert, lookup-insert, lookup-insert_self,
  lookup-insert-eq-some, length, arith, Option-cases, All, All-map, ◌↔◌,
}

-- The index of a name, and the map with it.
unfoldable pub get_index : Text → Dict Text ℕ → ℕ × Dict Text ℕ
get_index name indices = elim (lookup name indices) [
  | some idx ↦ (idx, indices)
  | none ↦ (length indices, insert name (length indices) indices)
]

-- A row of calls: the indices that they answer, and the map after them.
unfoldable pub get_indices : List Text → Dict Text ℕ → List (Text × ℕ) × Dict Text ℕ
get_indices [] indices = ([], indices)
get_indices (name ∷ rest) indices =
    let (idx, next) = get_index name indices in
    let (answers, last) = get_indices rest next in ((name, idx) ∷ answers, last)

-- Indices are below the number of names, and no two names have the same.
record IsNumbered (indices : Dict Text ℕ) : Type 0 where
  below : (name : Text) (i : ℕ) → lookup name indices ≡ some i → i < length indices
  apart : (m n : Text) (i : ℕ) → lookup m indices ≡ some i → lookup n indices ≡ some i → m ≡ n

length-insert :
    (name : Text) (i : ℕ) (d : Dict Text ℕ)
    → lookup name d ≡ none
    → length (insert name i d) ≡ suc (length d)
unfolding lookup insert
length-insert name i [] e = refl
length-insert name i ((k, v) ∷ rest) e = ground (arith, length-insert name i rest)

get_index-IsNumbered :
    (name : Text) (d : Dict Text ℕ) → IsNumbered d → IsNumbered (get_index name d).1
unfolding get_index
get_index-IsNumbered name d h = elim (Option-cases (lookup name d)) [
  | inr (i, e) ↦ rw (e, get_index) h
  | inl e ↦
      rw (e, get_index)
        (record {
          below = λ n i f. elim (lookup-insert-eq-some name n (length d) i d f) [
            | inl new ↦ omega (arith, length-insert name (length d) d e, new.1)
            | inr old ↦ omega (arith, length-insert name (length d) d e, h.below n i old)
          ];
          apart = λ m n i f g. elim (lookup-insert-eq-some name m (length d) i d f) [
            | inl new ↦ elim (lookup-insert-eq-some name n (length d) i d g) [
              | inl new' ↦ new.0 ∙ sym new'.0
              | inr old' ↦ absurd (let b = h.below n i old' in omega (arith, new.1))
            ]
            | inr old ↦ elim (lookup-insert-eq-some name n (length d) i d g) [
              | inl new' ↦ absurd (let b = h.below m i old in omega (arith, new'.1))
              | inr old' ↦ h.apart m n i old old'
            ]
          ];
        })
]

-- The answer is the index that the map has from then on.
get_index-lookup :
    (name : Text) (d : Dict Text ℕ) → lookup name (get_index name d).1 ≡ some (get_index name d).0
unfolding get_index
get_index-lookup name d = elim (Option-cases (lookup name d)) [
  | inr (i, e) ↦ rw (e, get_index) e
  | inl e ↦ rw (e, get_index) (lookup-insert_self name (length d) d)
]

get_index-keeps :
    (name m : Text) (i : ℕ) (d : Dict Text ℕ)
    → lookup m d ≡ some i
    → lookup m (get_index name d).1 ≡ some i
unfolding get_index
get_index-keeps name m i d f = elim (Option-cases (lookup name d)) [
  | inr (j, e) ↦ rw (e, get_index) f
  | inl e ↦
      rw (e, get_index)
        (ground (arith, lookup-insert name m (length d) d, text_beq_iff name m, kept e))
]
  where
    kept : lookup name d ≡ none → name ≡ m → ⊥
    kept e same = cc (ap (λ (k : Text). lookup k d) same, e, f)

get_indices-keeps :
    (names : List Text) (d : Dict Text ℕ) (m : Text) (i : ℕ)
    → lookup m d ≡ some i
    → lookup m (get_indices names d).1 ≡ some i
unfolding get_indices
get_indices-keeps [] d m i e = e
get_indices-keeps (name ∷ rest) d m i e =
    get_indices-keeps rest (get_index name d).1 m i (get_index-keeps name m i d e)

get_indices-lookup :
    (names : List Text) (d : Dict Text ℕ)
    → All (λ (p : Text × ℕ). lookup p.0 (get_indices names d).1 ≡ some p.1) (get_indices names d).0
unfolding get_indices
get_indices-lookup [] d = tt
get_indices-lookup (name ∷ rest) d = (
  get_indices-keeps rest (get_index name d).1 name (get_index name d).0 (get_index-lookup name d),
  get_indices-lookup rest (get_index name d).1,
)

get_indices-IsNumbered :
    (names : List Text) (d : Dict Text ℕ) → IsNumbered d → IsNumbered (get_indices names d).1
unfolding get_indices
get_indices-IsNumbered [] d h = h
get_indices-IsNumbered (name ∷ rest) d h =
    get_indices-IsNumbered rest (get_index name d).1 (get_index-IsNumbered name d h)

length-get_index : (name : Text) (d : Dict Text ℕ) → length (get_index name d).1 ≤ suc (length d)
unfolding get_index
length-get_index name d = elim (Option-cases (lookup name d)) [
  | inr (i, e) ↦ rw (e, get_index) (omega arith)
  | inl e ↦ rw (e, get_index) (omega (arith, length-insert name (length d) d e))
]

length-get_indices :
    (names : List Text) (d : Dict Text ℕ) → length (get_indices names d).1 ≤ length names + length d
unfolding get_indices
length-get_indices [] d = omega arith
length-get_indices (name ∷ rest) d =
    omega (arith, length-get_indices rest (get_index name d).1, length-get_index name d)

-- Two answers are the same index exactly when they are for the same name, and each is below `n`.
abbrev pub OneIndexForOneName : ℕ → List (Text × ℕ) → Type 0
OneIndexForOneName n answers =
    All (λ (p : Text × ℕ). (p.1 < n) × All (λ (q : Text × ℕ). (p.1 ≡ q.1) ↔ (p.0 ≡ q.0)) answers)
      answers

-- From an empty map, whatever names are asked for in whatever order: two answers are the same index
-- exactly when they are for the same name, and every index is below the number of calls.
pub get_indices-OneIndexForOneName :
    (names : List Text) → OneIndexForOneName (length names) (get_indices names []).0
unfolding lookup
get_indices-OneIndexForOneName names =
    All-map answers
      (λ p e. (
        omega (arith, n.below p.0 p.1 e, length-get_indices names []),
        All-map answers
            (λ q f. (
              (λ same. n.apart p.0 q.0 p.1 e (f ∙ ap (λ (i : ℕ). some i) (sym same))),
              (λ same. cc (ap (λ (k : Text). lookup k last) same, e, f)),
            ))
            found,
      ))
      found
  where
    last : Dict Text ℕ
    last = (get_indices names []).1

    answers : List (Text × ℕ)
    answers = (get_indices names []).0

    found : All (λ (p : Text × ℕ). lookup p.0 last ≡ some p.1) answers
    found = get_indices-lookup names []

    n : IsNumbered last
    n =
        get_indices-IsNumbered names []
          (record { below = λ m i e. ground arith; apart = λ m k i e f. ground arith })
