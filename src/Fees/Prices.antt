-- ===== src/Fees/Prices.antt =====
-- The prices that are in force and that wait, and what changes them.
use gas_guard.Prelude.{
  or_else, str_eq, ℕ, String, ◌≡◌, refl, inl, inr, Bool, true, false, ◌||◌, List, ◌++◌, Option,
  none, some, get, put, arith, Bool-cases, Every, Every-put, Every-get,
}
use gas_guard.Numbers.{Arithmetic}
use gas_guard.RateLimit.Guard.{trim}
use gas_guard.Fees.Config.{FeeConfiguration, FeeUpdateRequest, ApprovalRequest, ScheduledUpdate}
use gas_guard.Fees.Rules.{
  is_empty, when, of_price, validate_fee_update, update_errors, validate_new_configuration,
  configuration_errors, apply_update_request,
}
use gas_guard.Fees.Store.{Store, apply_fee_update, schedule_fee_update, updated_configuration}
use gas_guard.Fees.Updates.{mark_executed, new_configuration}
use gas_guard.Fees.Approvals.{is_lost, refused, new_request}
use gas_guard.Fees.Steps.{executed_at}
use gas_guard.Fees.Signing.{with_request, with_replaced, after_refusal}

when-false :
    (b : Bool) (x : String) (rest : List String) → is_empty (when b x ++ rest) ≡ true → b ≡ false
when-false true x rest h = ground (arith, h)
when-false false x rest h = refl

is_empty-tail :
    (b : Bool) (x : String) (rest : List String)
    → is_empty (when b x ++ rest) ≡ true
    → is_empty rest ≡ true
is_empty-tail true x rest h = ground (arith, h)
is_empty-tail false x rest h = h

module _ (ar : Arithmetic) where
  open ar use {Number, literal, lt}

  abbrev pub is_below_zero : Number → Bool
  is_below_zero x = lt x (literal 0 1)

  abbrev pub HasPrice : FeeConfiguration Number → Type 0
  HasPrice c = is_below_zero c.base_price_per_request ≡ false

  abbrev PriceOf : Option Number → Type 0
  PriceOf none = Unit
  PriceOf (some x) = is_below_zero x ≡ false

  abbrev pub AsksPrice : FeeUpdateRequest Number → Type 0
  AsksPrice u = PriceOf u.base_price_per_request

  PriceOf-empty :
      (p : Option Number) (x : String) (rest : List String)
      → is_empty (of_price ar (λ p. when (is_below_zero p) x) p ++ rest) ≡ true
      → PriceOf p
  PriceOf-empty none x rest h = tt
  PriceOf-empty (some p) x rest h = when-false (is_below_zero p) x rest h

  pub checked-AsksPrice :
      (c : FeeConfiguration Number) (u : FeeUpdateRequest Number)
      → (validate_fee_update ar c u).is_valid ≡ true
      → AsksPrice u
  unfolding validate_fee_update update_errors
  checked-AsksPrice c u h =
      PriceOf-empty u.base_price_per_request "Base price per request cannot be negative" _ h

  pub created-HasPrice :
      (c : FeeConfiguration Number) → (validate_new_configuration ar c).is_valid ≡ true → HasPrice c
  unfolding validate_new_configuration configuration_errors
  created-HasPrice c h =
      when-false (is_below_zero c.base_price_per_request)
        "Base price per request cannot be negative" _
        (is_empty-tail (str_eq c.name "" || str_eq (trim c.name) "")
          "Configuration name is required" _ h)

  updated-HasPrice :
      (now : ℕ) (c : FeeConfiguration Number) (u : FeeUpdateRequest Number)
      → HasPrice c
      → AsksPrice u
      → HasPrice (updated_configuration ar now c u)
  unfolding updated_configuration apply_update_request
  updated-HasPrice now c u h k = patched-price u.base_price_per_request k
    where
      patched-price :
          (p : Option Number)
          → PriceOf p
          → is_below_zero (or_else p c.base_price_per_request) ≡ false
      patched-price none k = h
      patched-price (some x) k = k

  -- No price below zero is in force, or waits to be.
  abbrev pub IsPriced : Store ar → Type 0
  IsPriced s =
      Every HasPrice s.configurations
      × Every (λ u. AsksPrice u.request) s.scheduled_updates
      × Every (λ r. AsksPrice r.request) s.pending_approvals

  pub apply-IsPriced :
      (now : ℕ) (ids : ℕ → String) (config_id : String) (c : FeeConfiguration Number)
      (u : FeeUpdateRequest Number) (admin : String) (s : Store ar)
      → get config_id s.configurations ≡ some c
      → AsksPrice u
      → IsPriced s
      → IsPriced (apply_fee_update ar now ids config_id c u admin s)
  unfolding apply_fee_update
  apply-IsPriced now ids config_id c u admin s found k (cs, us, rs) =
      let old = Every-get HasPrice config_id c s.configurations cs found in
      (
        Every-put HasPrice config_id (updated_configuration ar now c u) s.configurations
            (updated-HasPrice now c u old k) cs,
        us,
        rs,
      )

  pub schedule-IsPriced :
      (now : ℕ) (key config_id : String) (u : FeeUpdateRequest Number) (admin : String) (at : ℕ)
      (s : Store ar)
      → AsksPrice u
      → IsPriced s
      → IsPriced (schedule_fee_update ar now key config_id u admin at s)
  unfolding schedule_fee_update
  schedule-IsPriced now key config_id u admin at s k (cs, us, rs) =
      (cs, Every-put (λ u. AsksPrice u.request) key _ s.scheduled_updates k us, rs)

  pub with_request-IsPriced :
      (key : String) (r : ApprovalRequest Number) (s : Store ar)
      → AsksPrice r.request
      → IsPriced s
      → IsPriced (with_request ar key r s)
  with_request-IsPriced key r s k (cs, us, rs) =
      (cs, us, Every-put (λ r. AsksPrice r.request) key r s.pending_approvals k rs)

  pub with_replaced-IsPriced :
      (key : String) (r : ApprovalRequest Number) (s : Store ar)
      → AsksPrice r.request
      → IsPriced s
      → IsPriced (with_replaced ar key r s)
  with_replaced-IsPriced key r s k h =
      with_request-IsPriced r.id r (with_request ar key r s) k (with_request-IsPriced key r s k h)

  pub execute-IsPriced :
      (now : ℕ) (ids : ℕ → String) (key : String) (u : ScheduledUpdate Number)
      (c : FeeConfiguration Number) (s : Store ar)
      → AsksPrice u.request
      → get u.configuration_id s.configurations ≡ some c
      → IsPriced s
      → IsPriced (executed_at ar now ids key u c s)
  unfolding apply_fee_update
  execute-IsPriced now ids key u c s k found h =
      let (cs, us, rs) =
        apply-IsPriced now ids u.configuration_id c u.request u.created_by s found k h in
      let Q = λ (u : ScheduledUpdate Number). AsksPrice u.request in
      let done = mark_executed ar now u in
      (
        cs,
        Every-put Q done.id done (put key done s.scheduled_updates) k
            (Every-put Q key done s.scheduled_updates k us),
        rs,
      )

  pub named-HasPrice :
      (now : ℕ) (id : String) (c : FeeConfiguration Number) (admin : String)
      → HasPrice c
      → HasPrice (new_configuration ar now id c admin)
  unfolding new_configuration
  named-HasPrice now id c admin h = h

  pub asked-AsksPrice :
      (now : ℕ) (key id : String) (u : FeeUpdateRequest Number) (admin : String) (s : Store ar)
      → AsksPrice u
      → AsksPrice (new_request ar now key id u admin s.settings).request
  unfolding new_request
  asked-AsksPrice now key id u admin s k = k

  pub refusal-AsksPrice :
      (now : ℕ) (user : String) (r : ApprovalRequest Number)
      → AsksPrice r.request
      → AsksPrice (after_refusal ar now user r).request
  refusal-AsksPrice now user r k = elim (Bool-cases (is_lost ar (refused ar now user r))) [
    | inl lost ↦ rw lost k
    | inr more_left ↦ rw more_left k
  ]
