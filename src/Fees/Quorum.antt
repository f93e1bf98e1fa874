-- ===== src/Fees/Quorum.antt =====
-- Who has signed the approval requests that are kept.
use gas_guard.Prelude.{
  ℕ, ◌≤◌, ◌<◌, String, eq_iff, str_eq, ◌||◌, leb→le, ◌≡◌, refl, ◌⊎◌, inl, inr, Bool, true, false,
  not, ◌&&◌, List, [], ◌∷◌, ◌++◌, length, leb, arith, Bool-cases, Every, Every-put, Every-get,
}
use gas_guard.Numbers.{Arithmetic}
use gas_guard.Fees.Config.{
  ApprovalRequest, ApprovalStatus, approved, AdminFeeSettings, FeeUpdateRequest,
}
use gas_guard.Fees.Store.{initial, Store, apply_fee_update, schedule_fee_update}
use gas_guard.Fees.Updates.{process_pending_scheduled_updates}
use gas_guard.Fees.Approvals.{
  includes, is_pending, is_lost, signed, refused, with_status, new_request,
}
use gas_guard.Fees.Queries.{history_cases, events_cases}
use gas_guard.Fees.Steps.{
  Request, updates, creates, asks, approves, rejects, processes, configures, reads_history,
  reads_events, step, process_all-keeps, Every-update, configure_cases, update_cases, create_cases,
}
use gas_guard.Fees.Runs.{every_turn, Turn, run, run-keeps}
use gas_guard.Fees.Signing.{
  after_refusal, ask_cases, approve_cases, reject_cases, with_request, with_replaced,
}

abbrev pub is_approved : ApprovalStatus → Bool
is_approved approved = true
is_approved _ = false

-- No name stands twice.
abbrev pub distinct : List String → Bool
distinct [] = true
distinct (x ∷ xs) = not (includes x xs) && distinct xs

includes-append :
    (x user : String) (xs : List String)
    → includes x (xs ++ user ∷ []) ≡ includes x xs || str_eq user x
includes-append x user [] = ground arith
includes-append x user (y ∷ xs) = ground (arith, includes-append x user xs)

distinct-append :
    (user : String) (xs : List String)
    → distinct xs ≡ true
    → includes user xs ≡ false
    → distinct (xs ++ user ∷ []) ≡ true
distinct-append user [] d h = refl
distinct-append user (x ∷ xs) d h =
    ground (arith, includes-append x user xs, eq_iff x user, eq_iff user x, distinct-append user xs)

module _ (ar : Arithmetic) where
  open ar use {Number}

  -- At least two must sign; nobody signs twice; approved only when enough have signed.
  abbrev pub IsSound : ApprovalRequest Number → Type 0
  IsSound r =
      (1 < r.threshold)
      × (distinct r.approvals ≡ true)
      × ((is_approved r.status ≡ false) ⊎ (r.threshold ≤ length r.approvals))

  abbrev pub IsQuorate : Store ar → Type 0
  IsQuorate s = Every IsSound s.pending_approvals

  new_request-IsSound :
      (now : ℕ) (id config_id : String) (u : FeeUpdateRequest Number) (admin : String)
      (settings : AdminFeeSettings Number)
      → 1 < settings.multisig_approval_threshold
      → IsSound (new_request ar now id config_id u admin settings)
  unfolding new_request
  new_request-IsSound now id config_id u admin settings h = (h, ground arith, inl (ground arith))

  pending_open : (st : ApprovalStatus) → is_pending st ≡ true → is_approved st ≡ false
  pending_open st h = ground arith

  signed-IsSound :
      (now : ℕ) (user : String) (r : ApprovalRequest Number)
      → is_pending r.status ≡ true
      → includes user r.approvals ≡ false
      → IsSound r
      → IsSound (signed ar now user r)
  signed-IsSound now user r open_ once (more, d, _) =
      (more, distinct-append user r.approvals d once, inl (pending_open r.status open_))

  approved-IsSound :
      (now : ℕ) (r : ApprovalRequest Number)
      → leb r.threshold (length r.approvals) ≡ true
      → IsSound r
      → IsSound (with_status ar now approved r)
  approved-IsSound now r enough (more, d, _) =
      (more, d, inr (leb→le r.threshold (length r.approvals) enough))

  refused-IsSound :
      (now : ℕ) (user : String) (r : ApprovalRequest Number)
      → is_pending r.status ≡ true
      → IsSound r
      → IsSound (after_refusal ar now user r)
  refused-IsSound now user r open_ (more, d, e) =
      elim (Bool-cases (is_lost ar (refused ar now user r))) [
        | inl lost ↦ rw lost (more, d, inl refl)
        | inr more_left ↦ rw more_left (more, d, inl (pending_open r.status open_))
      ]

  process-IsQuorate :
      (now : ℕ) (ids : ℕ → String) (s : Store ar)
      → IsQuorate s
      → IsQuorate (process_pending_scheduled_updates ar now ids s).1
  unfolding process_pending_scheduled_updates apply_fee_update
  process-IsQuorate now ids s h =
      process_all-keeps ar IsQuorate (λ u. Unit) now (λ ids key u c s q due found e. e) ids
        s.scheduled_updates s (Every-update ar s.scheduled_updates) h

  with_request-IsQuorate :
      (key : String) (r : ApprovalRequest Number) (s : Store ar)
      → IsSound r
      → IsQuorate s
      → IsQuorate (with_request ar key r s)
  with_request-IsQuorate key r s h q = Every-put IsSound key r s.pending_approvals h q

  with_replaced-IsQuorate :
      (key : String) (r : ApprovalRequest Number) (s : Store ar)
      → IsSound r
      → IsQuorate s
      → IsQuorate (with_replaced ar key r s)
  with_replaced-IsQuorate key r s h q =
      with_request-IsQuorate r.id r (with_request ar key r s) h (with_request-IsQuorate key r s h q)

  ask-IsQuorate :
      (now : ℕ) (ids : ℕ → String) (id : String) (u : FeeUpdateRequest Number) (admin : String)
      (s : Store ar)
      → IsQuorate s
      → IsQuorate (step ar now ids (asks id u admin) s)
  unfolding step new_request
  ask-IsQuorate now ids id u admin s q = elim (ask_cases ar now ids id u admin s) [
    | inl e ↦ rw e q
    | inr (more, e) ↦ rw e (
        with_request-IsQuorate (ids 0) (new_request ar now (ids 0) id u admin s.settings) s
          (new_request-IsSound now (ids 0) id u admin s.settings more) q)
  ]

  approve-IsQuorate :
      (now : ℕ) (ids : ℕ → String) (id user : String) (s : Store ar)
      → IsQuorate s
      → IsQuorate (step ar now ids (approves id user) s)
  unfolding step apply_fee_update schedule_fee_update
  approve-IsQuorate now ids id user s q = elim (approve_cases ar now ids id user s) [
    | inl e ↦ rw e q
    | inr (r, found, open_, signer, once, end) ↦
        let sound =
          signed-IsSound now user r open_ once
            (Every-get IsSound id r s.pending_approvals q found) in
        let r' = signed ar now user r in
        let r'' = with_status ar now approved r' in
        let s' = with_request ar id r' s in
        let q' = with_request-IsQuorate id r' s sound q in
        elim end [
          | inl (short, e) ↦ rw e (with_request-IsQuorate r'.id r' s' sound q')
          | inr (enough, inl (missing, e)) ↦ rw e q'
          | inr (enough, inr (c, here, inl (later, e))) ↦
              rw e (with_replaced-IsQuorate id r'' s' (approved-IsSound now r' enough sound) q')
          | inr (enough, inr (c, here, inr (due, e))) ↦
              rw e (with_replaced-IsQuorate id r'' s' (approved-IsSound now r' enough sound) q')
        ]
  ]

  reject-IsQuorate :
      (now : ℕ) (ids : ℕ → String) (id user : String) (s : Store ar)
      → IsQuorate s
      → IsQuorate (step ar now ids (rejects id user) s)
  unfolding step
  reject-IsQuorate now ids id user s q = elim (reject_cases ar now id user s) [
    | inl e ↦ rw e q
    | inr (r, found, open_, e) ↦ rw e (
        with_replaced-IsQuorate id (after_refusal ar now user r) s
          (refused-IsSound now user r open_ (Every-get IsSound id r s.pending_approvals q found)) q)
  ]

  step-IsQuorate :
      (now : ℕ) (ids : ℕ → String) (r : Request Number) (s : Store ar)
      → IsQuorate s
      → IsQuorate (step ar now ids r s)
  unfolding step apply_fee_update schedule_fee_update
  step-IsQuorate now ids (updates id u admin) s q = elim (update_cases ar now ids id u admin s) [
    | inl e ↦ rw e q
    | inr (c, found, small, inl (later, e)) ↦ rw e q
    | inr (c, found, small, inr (due, e)) ↦ rw e q
  ]
  step-IsQuorate now ids (creates c admin) s q = elim (create_cases ar now ids c admin s) [
    | inl e ↦ rw e q
    | inr (good, e) ↦ rw e q
  ]
  step-IsQuorate now ids (asks id u admin) s q = ask-IsQuorate now ids id u admin s q
  step-IsQuorate now ids (approves id user) s q = approve-IsQuorate now ids id user s q
  step-IsQuorate now ids (rejects id user) s q = reject-IsQuorate now ids id user s q
  step-IsQuorate now ids processes s q = process-IsQuorate now ids s q
  step-IsQuorate now ids (configures p) s q = elim (configure_cases ar p s) [
    | inl e ↦ rw e q
    | inr (within, above, e) ↦ rw e q
  ]
  step-IsQuorate now ids (reads_history id) s q = elim (history_cases ar id s) [
    | inl (all, e) ↦ rw e q
    | inr e ↦ rw e q
  ]
  step-IsQuorate now ids (reads_events id start end) s q = elim (events_cases ar id start end s) [
    | inl (all, e) ↦ rw e q
    | inr e ↦ rw e q
  ]

  -- Whatever requests a new service has served, every approval request that it keeps needs two
  -- signatures or more, nobody has signed it twice, and where it is approved enough have signed.
  pub run-quorum :
      (start : ℕ) (ts : List (Turn Number))
      → Every IsSound (run ar ts (initial ar start)).pending_approvals
  unfolding initial
  run-quorum start ts =
      run-keeps ar IsQuorate (λ t. Unit) (λ t s q h. step-IsQuorate t.now t.ids t.request s h) ts
        (initial ar start) (every_turn ar ts) tt
