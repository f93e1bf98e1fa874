-- ===== src/Fees/Approvals.antt =====
-- The approval of a large change by several signers.
use gas_guard.Prelude.{
  ℕ, suc, ◌+◌, String, str_append, str_eq, Bool, true, false, not, ◌&&◌, List, [], ◌∷◌, ◌++◌, get,
  put, or_else, length, ltb, leb, any, if◌then◌else◌,
}
use gas_guard.Numbers.{Arithmetic}
use gas_guard.Exec.{return, query, found_or, throw_if, ◌>>=◌, ◌>>◌}
use gas_guard.Http.{HttpException, bad_request, not_found}
use gas_guard.Fees.Config.{
  FeeUpdateRequest, ApprovalRequest, ApprovalStatus, pending, approved, rejected, AdminFeeSettings,
}
use gas_guard.Fees.Store.{
  Action, modify, is_multisig_approval_required, get_effective_date_with_delay, apply_fee_update,
  schedule_fee_update, replace,
}
use gas_guard.Fees.Updates.{find_config, checked_config}

-- `list.includes(user)`
abbrev pub includes : String → List String → Bool
includes user users = any (λ u. str_eq u user) users

abbrev pub is_pending : ApprovalStatus → Bool
is_pending pending = true
is_pending _ = false

abbrev status_name : ApprovalStatus → String
status_name pending = "PENDING"
status_name approved = "APPROVED"
status_name rejected = "REJECTED"

abbrev pub about : String → String → String → String
about before x after = str_append before (str_append x after)

abbrev pub already : String → ApprovalStatus → HttpException
already id status =
    bad_request (about "Approval request " id (str_append " is already " (status_name status)))

module _ (ar : Arithmetic) where
  open ar use {Number}

  unfoldable pub execute_approval_request :
      ℕ → (ℕ → String) → ApprovalRequest Number → Action ar Unit
  unfolding apply_fee_update schedule_fee_update
  execute_approval_request now ids r = do
    c ← find_config ar r.configuration_id
    if ltb now r.effective_date
        then modify ar (
            schedule_fee_update ar now (ids 0) r.configuration_id r.request r.requested_by
              r.effective_date)
        else modify ar (apply_fee_update ar now ids r.configuration_id c r.request r.requested_by)

  unfoldable pub new_request :
      ℕ
      → String
      → String
      → FeeUpdateRequest Number
      → String
      → AdminFeeSettings Number
      → ApprovalRequest Number
  unfolding get_effective_date_with_delay
  new_request now id config_id u admin settings =
      let is_requester_signer = includes admin settings.multisig_signers in
      record {
        id = id;
        configuration_id = config_id;
        requested_by = admin;
        request = u;
        required_signers = settings.multisig_signers;
        approvals = if is_requester_signer then admin ∷ [] else [];
        rejections = [];
        threshold = settings.multisig_approval_threshold;
        status =
            if is_requester_signer && leb settings.multisig_approval_threshold 1
            then approved
            else pending;
        created_at = now;
        updated_at = now;
        reason = u.reason;
        effective_date = get_effective_date_with_delay ar now settings u;
        notify_users = or_else u.notify_users true;
      }

  abbrev pub store_request : String → ApprovalRequest Number → Action ar Unit
  store_request key r =
      modify ar (λ s. record s { pending_approvals = put key r s.pending_approvals })

  abbrev pub with_status : ℕ → ApprovalStatus → ApprovalRequest Number → ApprovalRequest Number
  with_status now status r = record r { status = status; updated_at = now }

  -- Signed by enough: the request is executed at once.
  unfoldable pub create_approval_request :
      ℕ
      → (ℕ → String)
      → String
      → FeeUpdateRequest Number
      → String
      → Action ar (ApprovalRequest Number)
  unfolding checked_config is_multisig_approval_required new_request execute_approval_request
  create_approval_request now ids config_id u admin = do
    c ← checked_config ar config_id u
    settings ← query (λ s. s.settings)
    throw_if (not (is_multisig_approval_required ar settings c u)) (
        bad_request
          "Approval request is not required for this update. Use updateConfiguration directly.")
    throw_if (ltb (length settings.multisig_signers) settings.multisig_approval_threshold) (
        bad_request
          "Multisig signer configuration is invalid: threshold must be less than or equal to signer count.")
    let r = new_request now (ids 0) config_id u admin settings
    store_request r.id r
    if leb r.threshold (length r.approvals)
        then (do
          let r' = with_status now approved r
          store_request r.id r'
          execute_approval_request now (λ n. ids (suc n)) r'
          return r')
        else return r

  -- A pending request and one of the signers of the day.
  unfoldable pub signable : String → String → String → Action ar (ApprovalRequest Number)
  unfolding get
  signable verb id user = do
    found ← query (λ s. get id s.pending_approvals)
    r ← found_or (not_found (about "Approval request " id " not found")) found
    throw_if (not (is_pending r.status)) (already id r.status)
    settings ← query (λ s. s.settings)
    throw_if (not (includes user settings.multisig_signers))
        (bad_request (about "User " user (about " is not authorized to " verb " this request")))
    return r

  abbrev pub signed : ℕ → String → ApprovalRequest Number → ApprovalRequest Number
  signed now user r = record r { approvals = r.approvals ++ user ∷ []; updated_at = now }

  -- The approval is stored before the execution, and stays if that throws.
  unfoldable pub approve_approval_request :
      ℕ → (ℕ → String) → String → String → Action ar (ApprovalRequest Number)
  unfolding signable execute_approval_request
  approve_approval_request now ids id user = do
    r ← signable "approve" id user
    throw_if (includes user r.approvals)
        (bad_request (about "User " user " has already approved this request"))
    let r' = signed now user r
    store_request id r'
    if leb r'.threshold (length r'.approvals)
        then (do
          execute_approval_request now ids r'
          let r'' = with_status now approved r'
          modify ar
              (λ s. record s { pending_approvals = replace id r''.id r'' s.pending_approvals })
          return r'')
        else (do store_request r'.id r'; return r')

  abbrev pub refused : ℕ → String → ApprovalRequest Number → ApprovalRequest Number
  refused now user r = record r { rejections = r.rejections ++ user ∷ []; updated_at = now }

  -- Too few signers are left: `rejections.length >= requiredSigners.length - threshold + 1`
  abbrev pub is_lost : ApprovalRequest Number → Bool
  is_lost r = leb (length r.required_signers + 1) (length r.rejections + r.threshold)

  unfoldable pub reject_approval_request : ℕ → String → String → Action ar (ApprovalRequest Number)
  unfolding signable
  reject_approval_request now id user = do
    r ← signable "reject" id user
    throw_if (includes user r.rejections)
        (bad_request (about "User " user " has already rejected this request"))
    let r' = refused now user r
    let r'' = if is_lost r' then with_status now rejected r' else r'
    modify ar (λ s. record s { pending_approvals = replace id r''.id r'' s.pending_approvals })
    return r''
