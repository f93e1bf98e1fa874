-- ===== src/Fees/Waiting.antt =====
-- What waits for its date, and the requests that leave a configuration as it is.
use gas_guard.Prelude.{
  ℕ, ◌+◌, ◌*◌, ◌≤◌, String, str_eq, ◌≡◌, refl, ◌∙◌, ◌⊎◌, inl, inr, true, false, Option, some,
  or_else, get, get-put, arith, Every, Every-put, Every-get, ltb, if◌then◌else◌,
}
use gas_guard.Numbers.{Arithmetic}
use gas_guard.Fees.Config.{
  FeeConfiguration, FeeUpdateRequest, FeeChangeEvent, ScheduledUpdate, ApprovalRequest,
  AdminFeeSettings, Minutes, minutes,
}
use gas_guard.Fees.Store.{Store, publish, schedule_fee_update, get_effective_date_with_delay}
use gas_guard.Fees.Updates.{is_scheduled}
use gas_guard.Fees.Approvals.{new_request, is_pending}
use gas_guard.Fees.Steps.{creates, configures}
use gas_guard.Fees.Signing.{with_request, with_replaced, after_refusal}
use gas_guard.Fees.Runs.{Turn}

module _ (ar : Arithmetic) where
  open ar use {Number}

  -- The date is never sooner than the delay allows.
  pub effective-delay :
      (now : ℕ) (settings : AdminFeeSettings Number) (u : FeeUpdateRequest Number)
      → now + settings.timelock_delay_minutes * 60 * 1000
        ≤ get_effective_date_with_delay ar now settings u
  unfolding get_effective_date_with_delay
  effective-delay now settings u =
      later_le (now + settings.timelock_delay_minutes * 60 * 1000)
        (or_else u.effective_date (now + settings.timelock_delay_minutes * 60 * 1000))
    where
      later_le : (m r : ℕ) → m ≤ (if ltb r m then m else r)
      later_le m r = ground arith

  pub new_request-date :
      (now : ℕ) (id config_id : String) (u : FeeUpdateRequest Number) (admin : String)
      (settings : AdminFeeSettings Number)
      → (new_request ar now id config_id u admin settings).effective_date
        ≡ get_effective_date_with_delay ar now settings u
  unfolding new_request
  new_request-date now id config_id u admin settings = refl

  -- `delay` minutes from `start` on, nothing that waits is due.
  module _ (start delay : ℕ) where
    abbrev pub due_date : ℕ
    due_date = start + delay * 60 * 1000

    abbrev pub UpdateWaits : ScheduledUpdate Number → Type 0
    UpdateWaits u = (is_scheduled ar u.status ≡ false) ⊎ (due_date ≤ u.scheduled_at)

    abbrev pub RequestWaits : ApprovalRequest Number → Type 0
    RequestWaits r = (is_pending r.status ≡ false) ⊎ (due_date ≤ r.effective_date)

    abbrev pub IsLocked : Store ar → Type 0
    IsLocked s =
        (delay ≤ s.settings.timelock_delay_minutes)
        × Every UpdateWaits s.scheduled_updates
        × Every RequestWaits s.pending_approvals

    abbrev pub KeepsDelay : Option Minutes → Type 0
    KeepsDelay (some (minutes n)) = delay ≤ n
    KeepsDelay _ = Unit

    -- The request neither shortens the delay nor creates the configuration `id`.
    abbrev pub IsBound : String → Turn Number → Type 0
    IsBound id t = elim t.request [
      | configures p ↦ KeepsDelay p.timelock_delay_minutes
      | creates c admin ↦ str_eq (t.ids 0) id ≡ false
      | _ ↦ Unit
    ]

    -- The lock, and that the configuration `id` is what it was.
    module _ (id : String) (kept : Option (FeeConfiguration Number)) where
      abbrev pub IsHeld : Store ar → Type 0
      IsHeld s = IsLocked s × (get id s.configurations ≡ kept)

      pub schedule-IsHeld :
          (now : ℕ) (key config_id : String) (u : FeeUpdateRequest Number) (admin : String) (at : ℕ)
          (s : Store ar)
          → due_date ≤ at
          → IsHeld s
          → IsHeld (schedule_fee_update ar now key config_id u admin at s)
      unfolding schedule_fee_update
      schedule-IsHeld now key config_id u admin at s h ((d, us, rs), e) =
          ((d, Every-put UpdateWaits key _ s.scheduled_updates (inr h) us, rs), e)

      pub with_request-IsHeld :
          (key : String) (r : ApprovalRequest Number) (s : Store ar)
          → RequestWaits r
          → IsHeld s
          → IsHeld (with_request ar key r s)
      with_request-IsHeld key r s h ((d, us, rs), e) =
          ((d, us, Every-put RequestWaits key r s.pending_approvals h rs), e)

      pub with_replaced-IsHeld :
          (key : String) (r : ApprovalRequest Number) (s : Store ar)
          → RequestWaits r
          → IsHeld s
          → IsHeld (with_replaced ar key r s)
      with_replaced-IsHeld key r s h held =
          with_request-IsHeld r.id r (with_request ar key r s) h
            (with_request-IsHeld key r s h held)

      pub after_refusal-waits :
          (now : ℕ) (user : String) (r : ApprovalRequest Number)
          → due_date ≤ r.effective_date
          → RequestWaits (after_refusal ar now user r)
      after_refusal-waits now user r h = inr (ground (arith, h))

      pub publish-IsHeld :
          (now : ℕ) (key config_id : String) (c : FeeConfiguration Number)
          (event : FeeChangeEvent Number) (admin : String) (s : Store ar)
          → str_eq config_id id ≡ false
          → IsHeld s
          → IsHeld (publish ar now key config_id c event admin s)
      publish-IsHeld now key config_id c event admin s other (l, e) =
          (l, get-put config_id id c s.configurations ∙ rw other e)

      pub waiting-date :
          (s : Store ar) (key : String) (r : ApprovalRequest Number)
          → IsHeld s
          → get key s.pending_approvals ≡ some r
          → is_pending r.status ≡ true
          → due_date ≤ r.effective_date
      waiting-date s key r ((d, us, rs), e) found open_ =
          elim (Every-get RequestWaits key r s.pending_approvals rs found) [
            | inl closed ↦ ground arith
            | inr h ↦ h
          ]
