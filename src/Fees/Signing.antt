-- ===== src/Fees/Signing.antt =====
-- The stores that the requests on approvals leave.
use gas_guard.Prelude.{
  ℕ, ◌≤◌, ◌<◌, String, ◌≡◌, refl, ◌⊎◌, inl, inr, true, false, none, some, get, put, length, ltb,
  leb, arith, Bool-cases, Option-cases, if◌then◌else◌,
}
use gas_guard.Numbers.{Arithmetic}
use gas_guard.Exec.{ok, throw}
use gas_guard.Http.{HttpException, bad_request, not_found}
use gas_guard.Fees.Config.{
  FeeConfiguration, FeeUpdateRequest, ApprovalRequest, approved, rejected, AdminFeeSettings,
}
use gas_guard.Fees.Store.{
  Store, is_multisig_enabled, is_multisig_approval_required, apply_fee_update, schedule_fee_update,
  replace,
}
use gas_guard.Fees.Approvals.{
  includes, is_pending, is_lost, already, about, signable, signed, refused, with_status,
  new_request, create_approval_request, approve_approval_request, reject_approval_request,
}
use gas_guard.Fees.Steps.{checked_cases, execute_cases}

module _ (ar : Arithmetic) where
  open ar use {Number}

  abbrev pub with_request : String → ApprovalRequest Number → Store ar → Store ar
  with_request key r s = record s { pending_approvals = put key r s.pending_approvals }

  abbrev pub with_replaced : String → ApprovalRequest Number → Store ar → Store ar
  with_replaced key r s = record s { pending_approvals = replace key r.id r s.pending_approvals }

  required-threshold :
      (settings : AdminFeeSettings Number) (c : FeeConfiguration Number)
      (u : FeeUpdateRequest Number)
      → is_multisig_approval_required ar settings c u ≡ true
      → 1 < settings.multisig_approval_threshold
  unfolding is_multisig_approval_required is_multisig_enabled
  required-threshold settings c u h = ground arith

  pub new_request-unsigned :
      (now : ℕ) (id config_id : String) (u : FeeUpdateRequest Number) (admin : String)
      (settings : AdminFeeSettings Number)
      → let r = new_request ar now id config_id u admin settings in length r.approvals ≤ 1
  unfolding new_request
  new_request-unsigned now id config_id u admin settings = ground arith

  pub new_request-threshold :
      (now : ℕ) (id config_id : String) (u : FeeUpdateRequest Number) (admin : String)
      (settings : AdminFeeSettings Number)
      → (new_request ar now id config_id u admin settings).threshold
        ≡ settings.multisig_approval_threshold
  unfolding new_request
  new_request-threshold now id config_id u admin settings = refl

  is_short :
      (r : ApprovalRequest Number)
      → length r.approvals ≤ 1
      → 1 < r.threshold
      → leb r.threshold (length r.approvals) ≡ false
  is_short r h k = ground arith

  -- A new request waits for more than its own signer.
  pub ask_cases :
      (now : ℕ) (ids : ℕ → String) (id : String) (u : FeeUpdateRequest Number) (admin : String)
      (s : Store ar)
      → let after = (create_approval_request ar now ids id u admin s).1 in
        let r = new_request ar now (ids 0) id u admin s.settings in
        (after ≡ s)
        ⊎ ((1 < s.settings.multisig_approval_threshold) × (after ≡ with_request r.id r s))
  unfolding create_approval_request
  ask_cases now ids id u admin s = elim (checked_cases ar id u s) [
    | inl (x, e) ↦ inl (rw e refl)
    | inr (c, found, good, e) ↦
        elim (Bool-cases (is_multisig_approval_required ar s.settings c u)) [
          | inr small ↦ inl (rw (e, small) refl)
          | inl large ↦
              elim (Bool-cases
                (ltb (length s.settings.multisig_signers) s.settings.multisig_approval_threshold)) [
                  | inl few ↦ inl (rw (e, large, few) refl)
                  | inr enough ↦
                      let r = new_request ar now (ids 0) id u admin s.settings in
                      let more = required-threshold s.settings c u large in
                      let unsigned =
                        is_short r (new_request-unsigned now (ids 0) id u admin s.settings)
                          (rw (new_request-threshold now (ids 0) id u admin s.settings) more) in
                      inr (more, rw (e, large, enough, unsigned) refl)
                ]
        ]
  ]

  signable_open :
      (verb id user : String) (s : Store ar) (r : ApprovalRequest Number)
      → get id s.pending_approvals ≡ some r
      → is_pending r.status ≡ true
      → includes user s.settings.multisig_signers ≡ true
      → signable ar verb id user s ≡ (ok r, s)
  unfolding signable
  signable_open verb id user s r found open_ signer = rw (found, open_, signer) refl

  pub signable_cases :
      (verb id user : String) (s : Store ar)
      → ((x : HttpException) × (signable ar verb id user s ≡ (throw x, s)))
        ⊎ ((r : ApprovalRequest Number) × (get id s.pending_approvals ≡ some r)
            × (is_pending r.status ≡ true)
            × (includes user s.settings.multisig_signers ≡ true)
            × (signable ar verb id user s ≡ (ok r, s)))
  unfolding signable
  signable_cases verb id user s = elim (Option-cases (get id s.pending_approvals)) [
    | inl e ↦ inl (not_found (about "Approval request " id " not found"), rw e refl)
    | inr (r, e) ↦ elim (Bool-cases (is_pending r.status)) [
      | inr closed ↦ inl (already id r.status, rw (e, closed) refl)
      | inl open_ ↦ elim (Bool-cases (includes user s.settings.multisig_signers)) [
        | inr other ↦ inl (
          bad_request (about "User " user (about " is not authorized to " verb " this request")),
          rw (e, open_, other) refl,
        )
        | inl signer ↦ inr (r, e, open_, signer, rw (e, open_, signer) refl)
      ]
    ]
  ]

  -- The execution that the last signature sets off.
  abbrev pub Executed :
      ℕ → (ℕ → String) → String → ApprovalRequest Number → Store ar → Store ar → Type 0
  Executed now ids id r s after =
      let r'' = with_status ar now approved r in
      ((get r.configuration_id s.configurations ≡ none) × (after ≡ s))
      ⊎ ((c : FeeConfiguration Number) × (get r.configuration_id s.configurations ≡ some c)
          × (((ltb now r.effective_date ≡ true)
                × (after
                    ≡ with_replaced id r'' (
                        schedule_fee_update ar now (ids 0) r.configuration_id r.request
                          r.requested_by r.effective_date s)))
              ⊎ ((ltb now r.effective_date ≡ false)
                  × (after
                      ≡ with_replaced id r'' (
                          apply_fee_update ar now ids r.configuration_id c r.request r.requested_by
                            s)))))

  abbrev pub Signed :
      ℕ → (ℕ → String) → String → String → ApprovalRequest Number → Store ar → Store ar → Type 0
  Signed now ids id user r s after =
      let r' = signed ar now user r in
      ((leb r'.threshold (length r'.approvals) ≡ false)
        × (after ≡ with_request r'.id r' (with_request id r' s)))
      ⊎ ((leb r'.threshold (length r'.approvals) ≡ true)
          × Executed now ids id r' (with_request id r' s) after)

  approve_signable :
      (now : ℕ) (ids : ℕ → String) (id user : String) (s : Store ar) (r : ApprovalRequest Number)
      → signable ar "approve" id user s ≡ (ok r, s)
      → includes user r.approvals ≡ false
      → Signed now ids id user r s (approve_approval_request ar now ids id user s).1
  unfolding approve_approval_request
  approve_signable now ids id user s r e once =
      let r' = signed ar now user r in
      elim (Bool-cases (leb r'.threshold (length r'.approvals))) [
        | inr short ↦ inl (short, rw (e, once, short) refl)
        | inl enough ↦ inr (
          enough,
          elim (execute_cases ar now ids r' (with_request id r' s)) [
            | inl (missing, (x, d)) ↦ inl (missing, rw (e, once, enough, d) refl)
            | inr (c, here, inl (later, d)) ↦
                inr (c, here, inl (later, rw (e, once, enough, d) refl))
            | inr (c, here, inr (due, d)) ↦ inr (c, here, inr (due, rw (e, once, enough, d) refl))
          ],
        )
      ]

  pub approve_open :
      (now : ℕ) (ids : ℕ → String) (id user : String) (s : Store ar) (r : ApprovalRequest Number)
      → get id s.pending_approvals ≡ some r
      → is_pending r.status ≡ true
      → includes user s.settings.multisig_signers ≡ true
      → includes user r.approvals ≡ false
      → Signed now ids id user r s (approve_approval_request ar now ids id user s).1
  approve_open now ids id user s r found open_ signer once =
      approve_signable now ids id user s r (signable_open "approve" id user s r found open_ signer)
        once

  -- A request that is not pending stays.
  pub approve_closed :
      (now : ℕ) (ids : ℕ → String) (id user : String) (s : Store ar) (r : ApprovalRequest Number)
      → get id s.pending_approvals ≡ some r
      → is_pending r.status ≡ false
      → (approve_approval_request ar now ids id user s).1 ≡ s
  unfolding approve_approval_request signable
  approve_closed now ids id user s r found closed = rw (found, closed) refl

  pub approve_cases :
      (now : ℕ) (ids : ℕ → String) (id user : String) (s : Store ar)
      → let after = (approve_approval_request ar now ids id user s).1 in
        (after ≡ s)
        ⊎ ((r : ApprovalRequest Number) × (get id s.pending_approvals ≡ some r)
            × (is_pending r.status ≡ true)
            × (includes user s.settings.multisig_signers ≡ true)
            × (includes user r.approvals ≡ false)
            × Signed now ids id user r s after)
  unfolding approve_approval_request
  approve_cases now ids id user s = elim (signable_cases "approve" id user s) [
    | inl (x, e) ↦ inl (rw e refl)
    | inr (r, found, open_, signer, e) ↦ elim (Bool-cases (includes user r.approvals)) [
      | inl twice ↦ inl (rw (e, twice) refl)
      | inr once ↦ inr (r, found, open_, signer, once, approve_signable now ids id user s r e once)
    ]
  ]

  abbrev pub after_refusal : ℕ → String → ApprovalRequest Number → ApprovalRequest Number
  after_refusal now user r =
      let r' = refused ar now user r in if is_lost ar r' then with_status ar now rejected r' else r'

  pub reject_cases :
      (now : ℕ) (id user : String) (s : Store ar)
      → let after = (reject_approval_request ar now id user s).1 in
        (after ≡ s)
        ⊎ ((r : ApprovalRequest Number) × (get id s.pending_approvals ≡ some r)
            × (is_pending r.status ≡ true)
            × (after ≡ with_replaced id (after_refusal now user r) s))
  unfolding reject_approval_request
  reject_cases now id user s = elim (signable_cases "reject" id user s) [
    | inl (x, e) ↦ inl (rw e refl)
    | inr (r, found, open_, signer, e) ↦ elim (Bool-cases (includes user r.rejections)) [
      | inl twice ↦ inl (rw (e, twice) refl)
      | inr once ↦ inr (r, found, open_, rw (e, once) refl)
    ]
  ]
