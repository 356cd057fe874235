-- ===== src/Recovery/Backoff.antt =====
-- tuntop/core/recovery.py: the waits between attempts.
use tun_top.Prelude.{ℕ, zero, suc, ◌+◌, ◌-◌, ◌*◌, ◌≤◌, ◌≡◌, refl, arith, [], ◌∷◌}
use tun_top.Recovery.{delay_for_attempt, at_or_last}

abbrev waits : ℕ → ℕ
waits = at_or_last 1000 (2000 ∷ 4000 ∷ 8000 ∷ 16000 ∷ 30000 ∷ [])

last_wait : (i : ℕ) → 5 ≤ i → waits i ≡ 30000
last_wait (suc (suc (suc (suc (suc zero))))) h = refl
last_wait (suc (suc (suc (suc (suc (suc i)))))) h = refl
last_wait zero h = absurd (omega arith)
last_wait (suc zero) h = absurd (omega arith)
last_wait (suc (suc zero)) h = absurd (omega arith)
last_wait (suc (suc (suc zero))) h = absurd (omega arith)
last_wait (suc (suc (suc (suc zero)))) h = absurd (omega arith)

waits_step :
    (i : ℕ)
    → (waits i ≤ waits (suc i))
      × (waits (suc i) ≤ 2 * waits i)
      × (1000 ≤ waits i)
      × (waits i ≤ 30000)
waits_step zero = omega arith
waits_step (suc zero) = omega arith
waits_step (suc (suc zero)) = omega arith
waits_step (suc (suc (suc zero))) = omega arith
waits_step (suc (suc (suc (suc zero)))) = omega arith
waits_step (suc (suc (suc (suc (suc i))))) = omega (
  arith,
  last_wait (suc (suc (suc (suc (suc i))))),
  last_wait (suc (suc (suc (suc (suc (suc i)))))),
)

-- The wait before an attempt is at least one second and at most thirty, never gets shorter from one attempt
-- to the next, at most doubles, and is thirty seconds from the sixth attempt on.
pub delay_for_attempt_bounds :
    (n : ℕ)
    → (1000 ≤ delay_for_attempt n)
      × (delay_for_attempt n ≤ 30000)
      × (delay_for_attempt n ≤ delay_for_attempt (n + 1))
      × (delay_for_attempt (n + 1) ≤ 2 * delay_for_attempt n)
      × (6 ≤ n → delay_for_attempt n ≡ 30000)
unfolding delay_for_attempt
delay_for_attempt_bounds zero = omega arith
delay_for_attempt_bounds (suc n) =
    let p : suc n - 1 ≡ n = omega arith in
    let q : suc n + 1 - 1 ≡ suc n = omega arith in
    let (le, double, low, high) = waits_step n in
    rw (p, q) (low, high, le, double, λ h. last_wait n (omega arith))
