-- ===== src/Fees/Steps.antt =====
-- The requests to FeeConfigurationService that write, and the queries that sort what they read, as
-- steps, and the store that each leaves.
use gas_guard.Prelude.{
  [], ◌∷◌, ℕ, String, str_append, Dict, Every, ◌+◌, ◌≡◌, refl, ◌⊎◌, inl, inr, true, false, Option,
  none, some, get, ltb, arith, Bool-cases, Option-cases,
}
use gas_guard.Numbers.{Arithmetic}
use gas_guard.Exec.{ok, throw}
use gas_guard.Http.{HttpException, bad_request}
use gas_guard.Fees.Config.{
  FeeConfiguration, FeeUpdateRequest, ApprovalRequest, ScheduledUpdate, SettingsUpdate,
}
use gas_guard.Fees.Rules.{validate_fee_update, validate_new_configuration}
use gas_guard.Fees.Store.{
  Store, publish, is_multisig_approval_required, get_effective_date_with_delay, apply_fee_update,
  schedule_fee_update, replace,
}
use gas_guard.Fees.Updates.{
  update_admin_settings, patched_settings, is_unreachable, is_negative, is_due, mark_executed,
  process_one, process_all, join, config_not_found, checked_config, update_configuration,
  create_configuration, new_configuration, creation_event, process_pending_scheduled_updates,
  update_admin_settings,
}
use gas_guard.Fees.Queries.{get_configuration_history, get_fee_events}
use gas_guard.Fees.Approvals.{
  execute_approval_request, create_approval_request, approve_approval_request,
  reject_approval_request,
}

pub data Request (N : Type 0) : Type 0 where
  -- the configuration, what to change, and the administrator
  updates : String → FeeUpdateRequest N → String → Request N
  creates : FeeConfiguration N → String → Request N
  asks : String → FeeUpdateRequest N → String → Request N
  -- the approval request and the signer
  approves : String → String → Request N
  rejects : String → String → Request N
  processes : Request N
  configures : SettingsUpdate N → Request N
  reads_history : Option String → Request N
  -- the configuration, and the first and the last time
  reads_events : Option String → Option ℕ → Option ℕ → Request N

module _ (ar : Arithmetic) where
  open ar use {Number}

  unfoldable pub step : ℕ → (ℕ → String) → Request Number → Store ar → Store ar
  step now ids (updates id u admin) s = (update_configuration ar now ids id u admin s).1
  step now ids (creates c admin) s = (create_configuration ar now ids c admin s).1
  step now ids (asks id u admin) s = (create_approval_request ar now ids id u admin s).1
  step now ids (approves id user) s = (approve_approval_request ar now ids id user s).1
  step now ids (rejects id user) s = (reject_approval_request ar now id user s).1
  step now ids processes s = (process_pending_scheduled_updates ar now ids s).1
  step now ids (configures p) s = (update_admin_settings ar p s).1
  step now ids (reads_history id) s = (get_configuration_history ar id s).1
  step now ids (reads_events id start end) s = (get_fee_events ar id start end s).1

  -- The update is refused, or it is for a configuration that is there.
  pub checked_cases :
      (id : String) (u : FeeUpdateRequest Number) (s : Store ar)
      → ((x : HttpException) × (checked_config ar id u s ≡ (throw x, s)))
        ⊎ ((c : FeeConfiguration Number) × (get id s.configurations ≡ some c)
            × ((validate_fee_update ar c u).is_valid ≡ true)
            × (checked_config ar id u s ≡ (ok c, s)))
  unfolding checked_config
  checked_cases id u s = elim (Bool-cases s.settings.allow_fee_updates) [
    | inr off ↦ inl (bad_request "Fee updates are currently disabled", ground arith)
    | inl on ↦ elim (Option-cases (get id s.configurations)) [
      | inl e ↦ inl (config_not_found id, ground arith)
      | inr (c, e) ↦ elim (Bool-cases (validate_fee_update ar c u).is_valid) [
        | inr bad ↦ inl (
          bad_request
              (str_append "Invalid fee update: " (join (validate_fee_update ar c u).errors)),
          ground arith,
        )
        | inl good ↦ inr (c, e, good, ground arith)
      ]
    ]
  ]

  pub update_cases :
      (now : ℕ) (ids : ℕ → String) (id : String) (u : FeeUpdateRequest Number) (admin : String)
      (s : Store ar)
      → let after = (update_configuration ar now ids id u admin s).1 in
        let at = get_effective_date_with_delay ar now s.settings u in
        (after ≡ s)
        ⊎ ((c : FeeConfiguration Number) × (get id s.configurations ≡ some c)
            × (is_multisig_approval_required ar s.settings c u ≡ false)
            × (((ltb now at ≡ true) × (after ≡ schedule_fee_update ar now (ids 0) id u admin at s))
                ⊎ ((ltb now at ≡ false) × (after ≡ apply_fee_update ar now ids id c u admin s))))
  unfolding update_configuration
  update_cases now ids id u admin s = elim (checked_cases id u s) [
    | inl (x, e) ↦ inl (rw e refl)
    | inr (c, found, good, e) ↦
        elim (Bool-cases (is_multisig_approval_required ar s.settings c u)) [
          | inl large ↦ inl (rw (e, large) refl)
          | inr small ↦
              elim (Bool-cases (ltb now (get_effective_date_with_delay ar now s.settings u))) [
                | inl later ↦ inr (c, found, small, inl (later, rw (e, small, later) refl))
                | inr due ↦ inr (c, found, small, inr (due, rw (e, small, due) refl))
              ]
        ]
  ]

  pub create_cases :
      (now : ℕ) (ids : ℕ → String) (c : FeeConfiguration Number) (admin : String) (s : Store ar)
      → let after = (create_configuration ar now ids c admin s).1 in
        let new = new_configuration ar now (ids 0) c admin in
        (after ≡ s)
        ⊎ (((validate_new_configuration ar c).is_valid ≡ true)
            × (after
                ≡ publish ar now
                    (ids 2)
                    (ids 0)
                    new
                    (creation_event ar now (ids 1) new admin)
                    admin
                    s))
  unfolding create_configuration new_configuration
  create_cases now ids c admin s = elim (Bool-cases (validate_new_configuration ar c).is_valid) [
    | inl good ↦ inr (good, rw good refl)
    | inr bad ↦ inl (rw bad refl)
  ]

  pub configure_cases :
      (p : SettingsUpdate Number) (s : Store ar)
      → let after = (update_admin_settings ar p s).1 in
        let new = patched_settings ar s.settings p in
        (after ≡ s)
        ⊎ ((is_unreachable ar new ≡ false)
            × (is_negative ar p.timelock_delay_minutes ≡ false)
            × (after ≡ record s { settings = new }))
  unfolding update_admin_settings
  configure_cases p s = elim (Bool-cases (is_unreachable ar (patched_settings ar s.settings p))) [
    | inl over ↦ inl (rw over refl)
    | inr within ↦ elim (Bool-cases (is_negative ar p.timelock_delay_minutes)) [
      | inl below ↦ inl (rw (within, below) refl)
      | inr above ↦ inr (within, above, rw (within, above) refl)
    ]
  ]

  -- What an execution leaves.
  pub execute_cases :
      (now : ℕ) (ids : ℕ → String) (r : ApprovalRequest Number) (s : Store ar)
      → ((get r.configuration_id s.configurations ≡ none)
          × ((x : HttpException) × (execute_approval_request ar now ids r s ≡ (throw x, s))))
        ⊎ ((c : FeeConfiguration Number) × (get r.configuration_id s.configurations ≡ some c)
            × (((ltb now r.effective_date ≡ true)
                  × (execute_approval_request ar now ids r s ≡ (
                    ok tt,
                    schedule_fee_update ar now
                        (ids 0)
                        r.configuration_id
                        r.request
                        r.requested_by
                        r.effective_date
                        s,
                  )))
                ⊎ ((ltb now r.effective_date ≡ false)
                    × (execute_approval_request ar now ids r s ≡ (
                      ok tt,
                      apply_fee_update ar now ids r.configuration_id c r.request r.requested_by s,
                    )))))
  unfolding execute_approval_request
  execute_cases now ids r s = elim (Option-cases (get r.configuration_id s.configurations)) [
    | inl e ↦ inl (e, (config_not_found r.configuration_id, rw e refl))
    | inr (c, e) ↦ elim (Bool-cases (ltb now r.effective_date)) [
      | inl later ↦ inr (c, e, inl (later, rw (e, later) refl))
      | inr due ↦ inr (c, e, inr (due, rw (e, due) refl))
    ]
  ]

  -- The store that an executed update leaves.
  abbrev pub executed_at :
      ℕ
      → (ℕ → String)
      → String
      → ScheduledUpdate Number
      → FeeConfiguration Number
      → Store ar
      → Store ar
  executed_at now ids key u c s =
      let after = apply_fee_update ar now ids u.configuration_id c u.request u.created_by s in
      record after {
        scheduled_updates = replace key u.id (mark_executed ar now u) after.scheduled_updates;
      }

  process_one_cases :
      (now : ℕ) (ids : ℕ → String) (key : String) (u : ScheduledUpdate Number) (s : Store ar)
      → let after = (process_one ar now ids key u s).1 in
        (after ≡ s)
        ⊎ ((c : FeeConfiguration Number) × (get u.configuration_id s.configurations ≡ some c)
            × (after ≡ executed_at now ids key u c s))
  unfolding process_one
  process_one_cases now ids key u s =
      elim (Option-cases (get u.configuration_id s.configurations)) [
        | inl e ↦ inl (rw e refl)
        | inr (c, e) ↦ inr (c, e, rw e refl)
      ]

  -- What each due update keeps when it is executed, the whole loop keeps.
  pub process_all-keeps {ℓ} :
      (P : Store ar → Type ℓ) (Q : ScheduledUpdate Number → Type ℓ) (now : ℕ)
      → ((ids : ℕ → String) (key : String) (u : ScheduledUpdate Number)
            (c : FeeConfiguration Number) (s : Store ar)
          → Q u
          → is_due ar now u ≡ true
          → get u.configuration_id s.configurations ≡ some c
          → P s
          → P (executed_at now ids key u c s))
      → (ids : ℕ → String) (us : Dict (ScheduledUpdate Number)) (s : Store ar) → Every Q us
      → P s
      → P (process_all ar now ids us s).1
  unfolding process_all
  process_all-keeps P Q now turn ids [] s e h = h
  process_all-keeps P Q now turn ids ((key, u) ∷ us) s (q, e) h =
      let rest = process_all-keeps P Q now turn (λ n. ids (n + 2)) us in
      elim (Bool-cases (is_due ar now u)) [
        | inr early ↦ rw early (rest s e h)
        | inl due ↦ rw due (elim (process_one_cases now ids key u s) [
          | inl left ↦ rest (process_one ar now ids key u s).1 e (rw left h)
          | inr (c, found, done) ↦
              rest (process_one ar now ids key u s).1 e (rw done (turn ids key u c s q due found h))
        ])
      ]

  pub Every-update : (us : Dict (ScheduledUpdate Number)) → Every {0, 0} (λ u. Unit) us
  Every-update [] = tt
  Every-update (u ∷ us) = (tt, Every-update us)
