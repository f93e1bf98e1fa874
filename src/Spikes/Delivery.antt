-- ===== src/Spikes/Delivery.antt =====
-- How often an endpoint is tried.

use gas_guard.Prelude.{
  ℕ, ◌+◌, ◌≤◌, ◌≡◌, refl, inl, inr, ◌||◌, List, [], ◌∷◌, length, arith, Bool-cases,
}
use gas_guard.Spikes.Config.{webhook_max_retries}
use gas_guard.Spikes.Webhooks.{Answer, is_ok, attempt_from, dispatch_one}

abbrev pub sum : List ℕ → ℕ
sum [] = 0
sum (n ∷ ns) = n + sum ns

-- Whatever the endpoint answers: the alert is delivered when one of the first three answers is good, it is
-- tried at least once and at most three times, and the pauses between are three seconds at most.
pub dispatch_one-bounds :
    (answers : ℕ → Answer)
    → let d = dispatch_one answers in
      (d.delivered ≡ (is_ok (answers 1) || (is_ok (answers 2) || is_ok (answers 3))))
      × (1 ≤ length d.attempts)
      × (length d.attempts ≤ webhook_max_retries)
      × (sum d.pauses ≤ 3000)
unfolding dispatch_one attempt_from
dispatch_one-bounds answers = elim (Bool-cases (is_ok (answers 1))) [
  | inl first ↦ rw first (refl, omega arith, omega arith, omega arith)
  | inr bad ↦ elim (Bool-cases (is_ok (answers 2))) [
    | inl second ↦ rw (bad, second) (refl, omega arith, omega arith, omega arith)
    | inr nor ↦ elim (Bool-cases (is_ok (answers 3))) [
      | inl third ↦ rw (bad, nor, third) (refl, omega arith, omega arith, omega arith)
      | inr never ↦ rw (bad, nor, never) (refl, omega arith, omega arith, omega arith)
    ]
  ]
]
