-- ===== src/Fees/Priced.antt =====
-- No way of changing a fee makes a base price negative.
use gas_guard.Prelude.{
  ℕ, String, ◌≡◌, refl, ◌⊎◌, inl, inr, false, List, Every, Every-put, Every-get,
}
use gas_guard.Numbers.{Arithmetic}
use gas_guard.Fees.Config.{FeeUpdateRequest, approved}
use gas_guard.Fees.Store.{
  Store, initial, default_configuration, apply_fee_update, schedule_fee_update,
}
use gas_guard.Fees.Updates.{
  process_pending_scheduled_updates, new_configuration, update_configuration,
}
use gas_guard.Fees.Approvals.{
  create_approval_request, new_request, signed, with_status, approve_approval_request,
}
use gas_guard.Fees.Queries.{history_cases, events_cases}
use gas_guard.Fees.Steps.{
  checked_cases, Request, updates, creates, asks, approves, rejects, processes, configures,
  reads_history, reads_events, step, update_cases, create_cases, configure_cases, process_all-keeps,
}
use gas_guard.Fees.Signing.{ask_cases, approve_cases, reject_cases, with_request, after_refusal}
use gas_guard.Fees.Runs.{Turn, run, run-keeps, every_turn}
use gas_guard.Fees.Prices.{
  is_below_zero, HasPrice, AsksPrice, IsPriced, checked-AsksPrice, created-HasPrice, apply-IsPriced,
  schedule-IsPriced, with_request-IsPriced, with_replaced-IsPriced, execute-IsPriced,
  named-HasPrice, asked-AsksPrice, refusal-AsksPrice,
}

module _ (ar : Arithmetic) where
  open ar use {Number, literal}

  update-checked :
      (now : ℕ) (ids : ℕ → String) (id : String) (u : FeeUpdateRequest Number) (admin : String)
      (s : Store ar)
      → ((update_configuration ar now ids id u admin s).1 ≡ s) ⊎ AsksPrice ar u
  unfolding update_configuration
  update-checked now ids id u admin s = elim (checked_cases ar id u s) [
    | inl (x, e) ↦ inl (rw e refl)
    | inr (c, found, good, e) ↦ inr (checked-AsksPrice ar c u good)
  ]

  ask-checked :
      (now : ℕ) (ids : ℕ → String) (id : String) (u : FeeUpdateRequest Number) (admin : String)
      (s : Store ar)
      → ((create_approval_request ar now ids id u admin s).1 ≡ s) ⊎ AsksPrice ar u
  unfolding create_approval_request
  ask-checked now ids id u admin s = elim (checked_cases ar id u s) [
    | inl (x, e) ↦ inl (rw e refl)
    | inr (c, found, good, e) ↦ inr (checked-AsksPrice ar c u good)
  ]

  approve-IsPriced :
      (now : ℕ) (ids : ℕ → String) (id user : String) (s : Store ar)
      → IsPriced ar s
      → IsPriced ar (approve_approval_request ar now ids id user s).1
  approve-IsPriced now ids id user s h = elim (approve_cases ar now ids id user s) [
    | inl e ↦ rw e h
    | inr (r, found, open_, signer, once, end) ↦
        let k = Every-get (λ r. AsksPrice ar r.request) id r s.pending_approvals h.2 found in
        let r' = signed ar now user r in
        let r'' = with_status ar now approved r' in
        let s' = with_request ar id r' s in
        let h' = with_request-IsPriced ar id r' s k h in
        elim end [
          | inl (short, e) ↦ rw e (with_request-IsPriced ar r'.id r' s' k h')
          | inr (enough, inl (missing, e)) ↦ rw e h'
          | inr (enough, inr (c, here, inl (later, e))) ↦ rw e (
              with_replaced-IsPriced ar id r''
                (schedule_fee_update ar now (ids 0) r.configuration_id r.request r.requested_by
                  r.effective_date s')
                k
                (schedule-IsPriced ar now (ids 0) r.configuration_id r.request r.requested_by
                  r.effective_date s' k h'))
          | inr (enough, inr (c, here, inr (due, e))) ↦ rw e (
              with_replaced-IsPriced ar id r''
                (apply_fee_update ar now ids r.configuration_id c r.request r.requested_by s') k
                (apply-IsPriced ar now ids r.configuration_id c r.request r.requested_by s' here k
                  h'))
        ]
  ]

  step-IsPriced :
      (now : ℕ) (ids : ℕ → String) (r : Request Number) (s : Store ar)
      → IsPriced ar s
      → IsPriced ar (step ar now ids r s)
  unfolding step process_pending_scheduled_updates
  step-IsPriced now ids (updates id u admin) s h = elim (update-checked now ids id u admin s) [
    | inl e ↦ rw e h
    | inr k ↦ elim (update_cases ar now ids id u admin s) [
      | inl e ↦ rw e h
      | inr (c, found, small, inl (later, e)) ↦
          rw e (schedule-IsPriced ar now (ids 0) id u admin _ s k h)
      | inr (c, found, small, inr (due, e)) ↦
          rw e (apply-IsPriced ar now ids id c u admin s found k h)
    ]
  ]
  step-IsPriced now ids (creates c admin) s (cs, us, rs) =
      elim (create_cases ar now ids c admin s) [
        | inl e ↦ rw e (cs, us, rs)
        | inr (good, e) ↦
            let new = new_configuration ar now (ids 0) c admin in
            rw e (
              Every-put (HasPrice ar) (ids 0) new s.configurations
                  (named-HasPrice ar now (ids 0) c admin (created-HasPrice ar c good)) cs,
              us,
              rs,
            )
      ]
  step-IsPriced now ids (asks id u admin) s h = elim (ask-checked now ids id u admin s) [
    | inl e ↦ rw e h
    | inr k ↦ elim (ask_cases ar now ids id u admin s) [
      | inl e ↦ rw e h
      | inr (more, e) ↦
          let r = new_request ar now (ids 0) id u admin s.settings in
          rw e (with_request-IsPriced ar r.id r s (asked-AsksPrice ar now (ids 0) id u admin s k) h)
    ]
  ]
  step-IsPriced now ids (approves id user) s h = approve-IsPriced now ids id user s h
  step-IsPriced now ids (rejects id user) s h = elim (reject_cases ar now id user s) [
    | inl e ↦ rw e h
    | inr (r, found, open_, e) ↦
        let k = Every-get (λ r. AsksPrice ar r.request) id r s.pending_approvals h.2 found in
        rw e (
          with_replaced-IsPriced ar id (after_refusal ar now user r) s
            (refusal-AsksPrice ar now user r k) h)
  ]
  step-IsPriced now ids processes s h =
      process_all-keeps ar (IsPriced ar) (λ u. AsksPrice ar u.request) now
        (λ ids key u c s k due found held. execute-IsPriced ar now ids key u c s k found held) ids
        s.scheduled_updates s h.1 h
  step-IsPriced now ids (configures p) s h = elim (configure_cases ar p s) [
    | inl e ↦ rw e h
    | inr (within, above, e) ↦ rw e h
  ]
  step-IsPriced now ids (reads_history id) s h = elim (history_cases ar id s) [
    | inl (all, e) ↦ rw e h
    | inr e ↦ rw e h
  ]
  step-IsPriced now ids (reads_events id start end) s h = elim (events_cases ar id start end s) [
    | inl (all, e) ↦ rw e h
    | inr e ↦ rw e h
  ]

  -- Where the price that a new service starts with is not below zero, no configuration has a base price
  -- below zero, whatever requests the service has served: direct updates, updates on a date, approved
  -- updates and new configurations.
  pub run-HasPrice :
      (start : ℕ) (ts : List (Turn Number))
      → is_below_zero ar (literal 1 100000) ≡ false
      → Every (HasPrice ar) (run ar ts (initial ar start)).configurations
  unfolding initial default_configuration
  run-HasPrice start ts h =
      (run-keeps ar (IsPriced ar) (λ t. Unit) (λ t s q k. step-IsPriced t.now t.ids t.request s k)
        ts (initial ar start) (every_turn ar ts) ((h, tt), tt, tt)).0
