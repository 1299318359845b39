-- ===== src/Fwdservice/Reconnect/Backoff.antt =====
-- How long the reconnections of pkg/fwdservice/fwdservice.go wait while a service keeps failing.
use kubefwd.Base.{
  ℕ, zero, suc, ◌*◌, ◌^◌, ◌≡◌, ◌≤◌, refl, ap, ◌∙◌, [], ◌∷◌, ◌<◌, true, false, ltb, min, inl, inr,
  Bool-cases, arith,
}
use kubefwd.Fwdservice.Reconnect.{
  waiting, Reconnection, next_wait, capped, schedule_reconnect, finish, reset_reconnect_backoff,
  max_reconnect_backoff,
}

-- `k` failures in a row, each after the reconnection for the one before has ended.
unfoldable pub failures : ℕ → Reconnection → Reconnection
failures zero r = r
failures (suc k) r = failures k (finish [] (schedule_reconnect r).0)

-- The next failure is followed by a wait of `w`.
record WillWait (w : ℕ) (r : Reconnection) : Type 0 where
  auto : r.auto_reconnect ≡ true
  up : r.done ≡ false
  idle : r.reconnecting ≡ false
  none_left : r.attempts ≡ []
  wait : next_wait r ≡ w

schedule_reconnect-waiting :
    (w : ℕ) (r : Reconnection)
    → WillWait w r
    → (schedule_reconnect r).0
      ≡ record r { reconnecting = true; backoff = capped (w * 2); attempts = waiting w ∷ [] }
unfolding schedule_reconnect
schedule_reconnect-waiting w r h = rw (h.auto, h.up, h.idle, h.none_left, h.wait) refl

finish-WillWait :
    (w : ℕ) (r : Reconnection)
    → 0 < w
    → WillWait w r
    → WillWait (capped (w * 2)) (finish [] (schedule_reconnect r).0)
unfolding finish
finish-WillWait w r pos h =
    rw (schedule_reconnect-waiting w r h)
      (record { auto = h.auto; up = h.up; idle = refl; none_left = refl; wait = ground arith })

pow_positive : (k : ℕ) → 1 ≤ 2 ^ k
pow_positive zero = omega arith
pow_positive (suc k) =
    let h = pow_positive k in let e : 2 ^ suc k ≡ 2 ^ k * 2 = omega arith in omega arith

mul_le : (p a b : ℕ) → a ≤ b → p * a ≤ p * b
mul_le zero a b h = omega arith
mul_le (suc p) a b h = let k = mul_le p a b h in omega arith

power : (k : ℕ) → 2 ^ suc k ≡ 2 ^ k * 2
power k = omega arith

regroup : (p w : ℕ) → p * 2 * w ≡ p * (w * 2)
regroup p w = omega arith

double_capped :
    (k w : ℕ)
    → min (2 ^ k * capped (w * 2)) max_reconnect_backoff ≡ min (2 ^ suc k * w) max_reconnect_backoff
double_capped k w =
    let one = pow_positive k in
    let e : 2 ^ suc k * w ≡ 2 ^ k * (w * 2) = ap (λ (p : ℕ). p * w) (power k) ∙ regroup (2 ^ k) w in
    elim (Bool-cases (ltb max_reconnect_backoff (w * 2))) [
      | inl long ↦
          let large : 2 ^ k * 300 ≤ 2 ^ k * (w * 2) = mul_le (2 ^ k) 300 (w * 2) (ground arith) in
          rw (long, e) (omega arith)
      | inr short ↦ rw (short, e) refl
    ]

failures-waits :
    (k w : ℕ) (r : Reconnection)
    → 0 < w
    → w ≤ max_reconnect_backoff
    → WillWait w r
    → (schedule_reconnect (failures k r)).0.attempts
      ≡ waiting (min (2 ^ k * w) max_reconnect_backoff) ∷ []
unfolding failures
failures-waits zero w r pos le h =
    rw (schedule_reconnect-waiting w r h) (ap (λ (n : ℕ). waiting n ∷ []) (omega arith))
failures-waits (suc k) w r pos le h =
    failures-waits k (capped (w * 2)) (finish [] (schedule_reconnect r).0) (ground arith)
      (ground arith) (finish-WillWait w r pos h)
    ∙ ap (λ (n : ℕ). waiting n ∷ []) (double_capped k w)

-- With automatic reconnection on, for a service that is not shut down, the failure after `k` earlier
-- ones since the backoff was reset, each reconnection having ended before the next failure, is
-- followed by a wait of two to the power of `k` seconds, but of at most five minutes.
pub failures-reset_reconnect_backoff :
    (k : ℕ) (r : Reconnection)
    → r.auto_reconnect ≡ true
    → r.done ≡ false
    → r.reconnecting ≡ false
    → r.attempts ≡ []
    → (schedule_reconnect (failures k (reset_reconnect_backoff r))).0.attempts
      ≡ waiting (min (2 ^ k) 300) ∷ []
unfolding reset_reconnect_backoff
failures-reset_reconnect_backoff k r auto up idle none_left =
    failures-waits k 1 (reset_reconnect_backoff r) (omega arith) (omega arith) (record {
      auto = ground arith;
      up = ground arith;
      idle = ground arith;
      none_left = ground arith;
      wait = ground arith;
    })
    ∙ ap (λ (n : ℕ). waiting n ∷ []) (omega arith)
