-- ===== src/Fees/Timelock.antt =====
-- The timelock: how long a configuration stays as it is.
use gas_guard.Prelude.{
  ℕ, ◌≤◌, ◌<◌, String, ◌≡◌, refl, inl, inr, true, false, List, All, Option, none, some, get, arith,
  ltb,
}
use gas_guard.Numbers.{Arithmetic}
use gas_guard.Fees.Config.{
  FeeConfiguration, FeeUpdateRequest, ScheduledUpdate, approved, Minutes, minutes, negative,
  SettingsUpdate,
}
use gas_guard.Fees.Store.{Store, schedule_fee_update, get_effective_date_with_delay}
use gas_guard.Fees.Updates.{
  process_pending_scheduled_updates, new_configuration, creation_event, new_configuration,
  minutes_of, patched_settings, is_due,
}
use gas_guard.Fees.Approvals.{new_request, signed, with_status}
use gas_guard.Fees.Queries.{history_cases, events_cases}
use gas_guard.Fees.Steps.{
  Request, updates, creates, asks, approves, rejects, processes, configures, reads_history,
  reads_events, step, configure_cases, update_cases, create_cases, executed_at, process_all-keeps,
}
use gas_guard.Fees.Signing.{ask_cases, approve_cases, reject_cases, with_request, after_refusal}
use gas_guard.Fees.Waiting.{
  effective-delay, new_request-date, due_date, UpdateWaits, KeepsDelay, IsLocked, IsBound, IsHeld,
  schedule-IsHeld, with_request-IsHeld, with_replaced-IsHeld, after_refusal-waits, publish-IsHeld,
  waiting-date,
}
use gas_guard.Fees.Runs.{Turn, run, run-keeps}

module _ (ar : Arithmetic) (start delay : ℕ) (id : String)
    (kept : Option (FeeConfiguration ar.Number)) where
  open ar use {Number}

  module _ (now : ℕ) (from : start ≤ now) (before : now < due_date ar start delay) where
    waits :
        (s : Store ar) (u : FeeUpdateRequest Number)
        → IsHeld ar start delay id kept s
        → due_date ar start delay ≤ get_effective_date_with_delay ar now s.settings u
    waits s u ((d, us, rs), e) = omega (arith, effective-delay ar now s.settings u, d, from)

    not_yet : (at : ℕ) → due_date ar start delay ≤ at → ltb now at ≡ true
    not_yet at h = ground arith

    early : (P : Type 0) (at : ℕ) → due_date ar start delay ≤ at → ltb now at ≡ false → P
    early P at h k = ground (arith, h, k, before)

    execute-IsHeld :
        (ids : ℕ → String) (key : String) (u : ScheduledUpdate Number) (c : FeeConfiguration Number)
        (s : Store ar)
        → UpdateWaits ar start delay u
        → is_due ar now u ≡ true
        → get u.configuration_id s.configurations ≡ some c
        → IsHeld ar start delay id kept s
        → IsHeld ar start delay id kept (executed_at ar now ids key u c s)
    execute-IsHeld ids key u c s (inl done) due found held = ground (arith, done, due)
    execute-IsHeld ids key u c s (inr later) due found held = ground (arith, later, due)

    configure-IsHeld :
        (p : SettingsUpdate Number) (s : Store ar)
        → KeepsDelay ar start delay p.timelock_delay_minutes
        → IsHeld ar start delay id kept s
        → IsHeld ar start delay id kept (record s { settings = patched_settings ar s.settings p })
    unfolding patched_settings
    configure-IsHeld p s k ((d, us, rs), e) =
        ((patched_delay p.timelock_delay_minutes k, us, rs), e)
      where
        patched_delay :
            (m : Option Minutes)
            → KeepsDelay ar start delay m
            → delay ≤ minutes_of ar m s.settings.timelock_delay_minutes
        patched_delay none k = d
        patched_delay (some negative) k = d
        patched_delay (some (minutes n)) k = k

    ask-IsHeld :
        (ids : ℕ → String) (config_id : String) (u : FeeUpdateRequest Number) (admin : String)
        (s : Store ar)
        → IsHeld ar start delay id kept s
        → IsHeld ar start delay id kept (step ar now ids (asks config_id u admin) s)
    unfolding step
    ask-IsHeld ids config_id u admin s held = elim (ask_cases ar now ids config_id u admin s) [
      | inl e ↦ rw e held
      | inr (more, e) ↦
          let r = new_request ar now (ids 0) config_id u admin s.settings in
          rw e (
            with_request-IsHeld ar start delay id kept r.id r s
              (inr (
                rw (new_request-date ar now (ids 0) config_id u admin s.settings) (waits s u held)))
              held)
    ]

    approve-IsHeld :
        (ids : ℕ → String) (key user : String) (s : Store ar)
        → IsHeld ar start delay id kept s
        → IsHeld ar start delay id kept (step ar now ids (approves key user) s)
    unfolding step
    approve-IsHeld ids key user s held = elim (approve_cases ar now ids key user s) [
      | inl e ↦ rw e held
      | inr (r, found, open_, signer, once, end) ↦
          let date = waiting-date ar start delay id kept s key r held found open_ in
          let r' = signed ar now user r in
          let r'' = with_status ar now approved r' in
          let s' = with_request ar key r' s in
          let s'' =
            schedule_fee_update ar now (ids 0) r.configuration_id r.request r.requested_by
              r.effective_date s' in
          let held' = with_request-IsHeld ar start delay id kept key r' s (inr date) held in
          elim end [
            | inl (short, e) ↦
                rw e (with_request-IsHeld ar start delay id kept r'.id r' s' (inr date) held')
            | inr (enough, inl (missing, e)) ↦ rw e held'
            | inr (enough, inr (c, here, inl (later, e))) ↦ rw e (
                with_replaced-IsHeld ar start delay id kept key r'' s'' (inr date) (
                  schedule-IsHeld ar start delay id kept now (ids 0) r.configuration_id r.request
                    r.requested_by r.effective_date s' date held'))
            | inr (enough, inr (c, here, inr (due, e))) ↦ early _ r.effective_date date due
          ]
    ]

    step-IsHeld :
        (ids : ℕ → String) (r : Request Number) (s : Store ar)
        → IsBound ar start delay id (record { now = now; ids = ids; request = r })
        → IsHeld ar start delay id kept s
        → IsHeld ar start delay id kept (step ar now ids r s)
    unfolding step process_pending_scheduled_updates
    step-IsHeld ids (updates config_id u admin) s b held =
        let date = waits s u held in
        elim (update_cases ar now ids config_id u admin s) [
          | inl e ↦ rw e held
          | inr (c, found, small, inl (later, e)) ↦
              rw e
                (schedule-IsHeld ar start delay id kept now (ids 0) config_id u admin _ s date held)
          | inr (c, found, small, inr (due, e)) ↦ early _ _ date due
        ]
    step-IsHeld ids (creates c admin) s b held = elim (create_cases ar now ids c admin s) [
      | inl e ↦ rw e held
      | inr (good, e) ↦
          let new = new_configuration ar now (ids 0) c admin in
          rw e (
            publish-IsHeld ar start delay id kept now (ids 2) (ids 0) new
              (creation_event ar now (ids 1) new admin) admin s b held)
    ]
    step-IsHeld ids (asks config_id u admin) s b held = ask-IsHeld ids config_id u admin s held
    step-IsHeld ids (approves key user) s b held = approve-IsHeld ids key user s held
    step-IsHeld ids (rejects key user) s b held = elim (reject_cases ar now key user s) [
      | inl e ↦ rw e held
      | inr (r, found, open_, e) ↦ rw e (
          with_replaced-IsHeld ar start delay id kept key (after_refusal ar now user r) s
            (after_refusal-waits ar start delay id kept now user r
              (waiting-date ar start delay id kept s key r held found open_))
            held)
    ]
    step-IsHeld ids processes s b held =
        process_all-keeps ar (IsHeld ar start delay id kept) (UpdateWaits ar start delay) now
          execute-IsHeld ids s.scheduled_updates s held.0.1 held
    step-IsHeld ids (configures p) s b held = elim (configure_cases ar p s) [
      | inl e ↦ rw e held
      | inr (within, above, e) ↦ rw e (configure-IsHeld p s b held)
    ]
    step-IsHeld ids (reads_history key) s b held = elim (history_cases ar key s) [
      | inl (all, e) ↦ rw e held
      | inr e ↦ rw e held
    ]
    step-IsHeld ids (reads_events key first last) s b held =
        elim (events_cases ar key first last s) [ inl (all, e) ↦ rw e held | inr e ↦ rw e held ]

module _ (ar : Arithmetic) where
  -- An update names the date when it takes effect.
  abbrev pub NamesDate : Request ar.Number → Type 0
  NamesDate r = elim r [
    | updates config_id u admin ↦ (at : ℕ) × (u.effective_date ≡ some at)
    | asks config_id u admin ↦ (at : ℕ) × (u.effective_date ≡ some at)
    | _ ↦ Unit
  ]

  -- Where at `start` the delay of the settings is at least `delay` minutes, and no scheduled update or
  -- pending approval request has a date before `start` and that delay, the requests that come from
  -- `start` until then leave the configuration `id` as it is, whoever sends them and whoever signs:
  -- provided that each update names the date when it takes effect, which may be any, that none of them shortens the
  -- delay and no new configuration is given the id `id`.
  pub run-timelock :
      (start delay : ℕ) (id : String) (ts : List (Turn ar.Number)) (s : Store ar)
      → IsLocked ar start delay s
      → All
          (λ t.
            NamesDate t.request
            × IsBound ar start delay id t
            × (start ≤ t.now)
            × (t.now < due_date ar start delay))
          ts
      → get id (run ar ts s).configurations ≡ get id s.configurations
  run-timelock start delay id ts s locked all =
      let kept = get id s.configurations in
      (run-keeps ar (IsHeld ar start delay id kept)
        (λ t.
          NamesDate t.request
          × IsBound ar start delay id t
          × (start ≤ t.now)
          × (t.now < due_date ar start delay))
        (λ t s (named, bound, from, before) held.
          step-IsHeld ar start delay id kept t.now from before t.ids t.request s bound held)
        ts s all (locked, refl)).1
