-- ===== src/Rpc/Failover.antt =====
-- A failover goes to the next healthy provider, if there is one.
use native.Mathlib.Nat.{mod-lt, mod-eq_of_lt, add-mod_right}
use gas_guard.Prelude.{
  ℕ, zero, suc, ◌+◌, ◌-◌, ◌%◌, ◌≤◌, ◌<◌, ◌≡◌, refl, sym, ◌∙◌, ap, ◌⊎◌, inl, inr, true, false, none,
  some, length, leb, ltb, Bool-cases, arith,
}
use gas_guard.Rpc.Manager.{Manager, is_healthy, search_from, failover}

-- The provider that the loop asks in its turn `k`.
abbrev pub turn : Manager → ℕ → ℕ
turn m k = (m.current + k + 1) % length m.providers

-- The turns from `i` up to `j` find no healthy provider.
abbrev pub Passed : Manager → ℕ → ℕ → Type 0
Passed m i j = (k : ℕ) → i ≤ k → k < j → is_healthy m (turn m k) ≡ false

abbrev Settles : Manager → ℕ → ℕ → Type 0
Settles m i left =
    ((search_from m i left ≡ none) × Passed m i (i + left))
    ⊎ ((j : ℕ) × (j < i + left)
        × (search_from m i left ≡ some (turn m j))
        × (is_healthy m (turn m j) ≡ true)
        × Passed m i j)

Passed-suc :
    (m : Manager) (i j : ℕ) → is_healthy m (turn m i) ≡ false → Passed m (i + 1) j → Passed m i j
Passed-suc m i j h p k low high = elim (Bool-cases (leb k i)) [
  | inl first ↦ let same : k ≡ i = ground (arith, first, low) in rw same h
  | inr later ↦ p k (ground (arith, later)) high
]

search_cases : (m : Manager) (i left : ℕ) → Settles m i left
unfolding search_from
search_cases m i zero = inl (refl, λ k low high. absurd (omega (arith, low, high)))
search_cases m i (suc left) = elim (Bool-cases (is_healthy m (turn m i))) [
  | inl found ↦
      inr (i, omega arith, rw found refl, found, λ k low high. absurd (omega (arith, low, high)))
  | inr down ↦ elim (search_cases m (i + 1) left) [
    | inl (e, p) ↦ inl (
      rw (down, e) refl,
      λ k low high. Passed-suc m i (i + 1 + left) down p k low (omega (arith, high)),
    )
    | inr (j, a, e, h, p) ↦ inr (j, omega (arith, a), rw (down, e) refl, h, Passed-suc m i j down p)
  ]
]

-- Every index has its turn.
turn_of :
    (m : Manager) (i : ℕ)
    → m.current < length m.providers
    → i < length m.providers
    → (k : ℕ) × (k < length m.providers) × (turn m k ≡ i)
turn_of m i c h = elim (Bool-cases (ltb m.current i)) [
  | inl after ↦
      let sum : m.current + (i - m.current - 1) + 1 ≡ i = ground (arith, after) in
      (i - m.current - 1, omega (arith, h), rw sum (mod-eq_of_lt h))
  | inr before ↦
      let n = length m.providers in
      let sum : m.current + (i + n - m.current - 1) + 1 ≡ i + n = omega (arith, c, h) in
      (
        i + n - m.current - 1,
        ground (arith, before, h, c),
        rw sum (add-mod_right i n ∙ mod-eq_of_lt h),
      )
]

-- With a current provider among the providers: a failover goes to the first healthy provider after
-- it, in the order of the list and then from its start, and the current one is asked last; it
-- returns false, and changes nothing, exactly if no provider is healthy.
pub failover_lem :
    (m : Manager)
    → m.current < length m.providers
    → ((j : ℕ) × (j < length m.providers)
        × (failover m ≡ (true, record m { current = turn m j }))
        × (turn m j < length m.providers)
        × (is_healthy m (turn m j) ≡ true)
        × Passed m 0 j)
      ⊎ ((failover m ≡ (false, m)) × ((i : ℕ) → i < length m.providers → is_healthy m i ≡ false))
unfolding failover
failover_lem m c = elim (search_cases m 0 (length m.providers)) [
  | inl (e, p) ↦ inr (
    rw e refl,
    λ i h.
        let (k, low, same) = turn_of m i c h in
        ap (is_healthy m) (sym same) ∙ p k (omega arith) (omega (arith, low)),
  )
  | inr (j, a, e, h, p) ↦
      inl (j, omega (arith, a), rw e refl, mod-lt (m.current + j + 1) (omega (arith, c)), h, p)
]
