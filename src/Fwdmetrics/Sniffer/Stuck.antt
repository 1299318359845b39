-- ===== src/Fwdmetrics/Sniffer/Stuck.antt =====
-- pkg/fwdmetrics/httpsniff.go: a request buffer that is full and has no line.
use kubefwd.Base.{
  ℕ, zero, suc, ◌<◌, ◌≤◌, ◌≡◌, refl, ap, ◌∙◌, List, [], ◌∷◌, ◌++◌, Option, none, true, false, not,
  ◌||◌, Text, is_blank, length, length-take, take, inl, inr, Bool-cases, arith,
}
use kubefwd.Fwdmetrics.Sniffer.{HttpSniffer, first_line, buffered, sniff_request, look_for_request}

-- What is appended to a list is not among its first elements.
take-append_left {ℓ} :
    {A : Type ℓ} (n : ℕ) (xs ys : List A) → length xs ≡ n → take n (xs ++ ys) ≡ xs
take-append_left zero [] ys h = refl
take-append_left zero (x ∷ xs) ys h = absurd (omega arith)
take-append_left (suc n) [] ys h = absurd (omega arith)
take-append_left (suc n) (x ∷ xs) ys h = ap (◌∷◌ x) (take-append_left n xs ys (omega arith))

-- The buffer is full and no line ends in it but an empty one.
record IsStuck (buffer : Text) : Type 0 where
  full : length buffer ≡ 512
  no_line : first_line buffer ≡ none

buffered-full : (buffer bytes : Text) → IsStuck buffer → buffered buffer bytes ≡ buffer
unfolding buffered
buffered-full buffer bytes stuck = take-append_left 512 buffer bytes stuck.full

buffered-IsStuck :
    (buffer bytes : Text)
    → 512 ≤ length (buffer ++ bytes)
    → first_line (buffered buffer bytes) ≡ none
    → IsStuck (buffered buffer bytes)
unfolding buffered
buffered-IsStuck buffer bytes h e = record {
  full = omega (arith, length-take 512 (buffer ++ bytes));
  no_line = e;
}

module _ (match_request : Text → Option (Text × Text)) where
  -- A row of writes with the times at which they pass.
  unfoldable pub sniff_requests : List (ℕ × Text) → HttpSniffer → HttpSniffer
  sniff_requests [] s = s
  sniff_requests ((now, bytes) ∷ rest) s =
      sniff_requests rest (sniff_request match_request now bytes s)

  sniff_request-IsStuck :
      (now : ℕ) (bytes : Text) (s : HttpSniffer)
      → IsStuck s.req_buffer
      → sniff_request match_request now bytes s ≡ s
  unfolding sniff_request look_for_request
  sniff_request-IsStuck now bytes s stuck = elim (Bool-cases (not s.enabled || is_blank bytes)) [
    | inl skip ↦ rw skip refl
    | inr look ↦
        let same = buffered-full s.req_buffer bytes stuck in
        let e : first_line (buffered s.req_buffer bytes) ≡ none = rw same stuck.no_line in
        rw (look, e, look_for_request) (ap (λ (b : Text). record s { req_buffer = b }) same)
  ]

  sniff_requests-IsStuck :
      (writes : List (ℕ × Text)) (s : HttpSniffer)
      → IsStuck s.req_buffer
      → sniff_requests writes s ≡ s
  unfolding sniff_requests
  sniff_requests-IsStuck [] s stuck = refl
  sniff_requests-IsStuck ((now, bytes) ∷ rest) s stuck =
      ap (sniff_requests rest) (sniff_request-IsStuck now bytes s stuck)
      ∙ sniff_requests-IsStuck rest s stuck

  -- Once the first 512 bytes that an enabled sniffer buffers hold no end of a line but at their start,
  -- no later request is recognised: whatever is written afterwards, the buffer stays as it is and the
  -- pending request stays what it was before.
  pub sniff_requests-no_line :
      (now : ℕ) (bytes : Text) (rest : List (ℕ × Text)) (s : HttpSniffer)
      → s.enabled ≡ true
      → 0 < length bytes
      → 512 ≤ length (s.req_buffer ++ bytes)
      → first_line (buffered s.req_buffer bytes) ≡ none
      → sniff_requests ((now, bytes) ∷ rest) s
        ≡ record s { req_buffer = buffered s.req_buffer bytes }
  unfolding sniff_requests sniff_request look_for_request
  sniff_requests-no_line now bytes rest s on more long e =
      let look : (not s.enabled || is_blank bytes) ≡ false = looked bytes more in
      rw (look, e, look_for_request)
        (sniff_requests-IsStuck rest (record s { req_buffer = buffered s.req_buffer bytes })
          (buffered-IsStuck s.req_buffer bytes long e))
    where
      looked : (b : Text) → 0 < length b → (not s.enabled || is_blank b) ≡ false
      looked [] h = absurd (omega arith)
      looked (c ∷ b) h = rw on refl
