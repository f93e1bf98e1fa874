-- ===== src/Subsidy/Tables.antt =====
-- What each step of a recorded usage changes of the four tables.
use gas_guard.Prelude.{ℕ, String, ◌≡◌, refl, ◌∙◌, ap, Option, none, some, List, [], ◌∷◌, either_way}
use gas_guard.Exec.{Outcome, ok, throw, continue, write}
use gas_guard.Subsidy.Entity.{AlertLevel, no_alert, warning, critical, blocked, SuspiciousUsageFlag}
use gas_guard.Subsidy.Store.{Setting, Store}
use gas_guard.Subsidy.Check.{Cap, get_cap}
use gas_guard.Subsidy.Usage.{
  Alert, acknowledge_found, acknowledge_alert, clear_found, clear_suspicious_flag,
  SubsidyUsageRecord, NewIds, Log, new_log, counted, check_and_create_alerts, analyze_and_flag,
  flag_usage, flag_found, flag_rapid, flag_amount, recorded, alert_found, raise_alert, alert_level,
  recent_logs,
}

module _ (g : Setting) where
  open g use {ar}
  open ar use {Number, le}

  -- Two states whose caps, logs and alerts are the same.
  abbrev pub SameCaps : Store g → Store g → Type 0
  SameCaps s t = (s.caps ≡ t.caps) × (s.logs ≡ t.logs) × (s.alerts ≡ t.alerts)

  raise_alert-state : (l : AlertLevel) (s : Store g) → (raise_alert g l s).1 ≡ s
  raise_alert-state no_alert s = refl
  raise_alert-state warning s = refl
  raise_alert-state critical s = refl
  raise_alert-state blocked s = refl

  pub alert_found-state :
      (wallet : String) (o : Option (Cap g)) (s : Store g) → (alert_found g wallet o s).1 ≡ s
  alert_found-state wallet none s = refl
  alert_found-state wallet (some c) s =
      either_way _ (λ q. q.1 ≡ s) (ok tt, s) (raise_alert g (alert_level g c) s) refl
        (raise_alert-state (alert_level g c) s)

  flag_found-caps :
      (now : ℕ) (id wallet kind : String) (severity : ℕ) (o : Option SuspiciousUsageFlag)
      (s : Store g)
      → SameCaps (flag_found g now id wallet kind severity o s) s
  flag_found-caps now id wallet kind severity none s = (refl, refl, refl)
  flag_found-caps now id wallet kind severity (some f) s = (refl, refl, refl)

  flag_rapid-caps :
      (now : ℕ) (id wallet : String) (ls : List (Log g)) (s : Store g)
      → SameCaps (flag_rapid g now id wallet ls s) s
  unfolding flag_usage
  flag_rapid-caps now id wallet ls s =
      either_way _ (λ t. SameCaps t s) _ s (flag_found-caps now id wallet _ 8 _ s)
        (refl, refl, refl)

  flag_amount-caps :
      (now : ℕ) (id wallet : String) (amount : Number) (ls : List (Log g)) (s : Store g)
      → SameCaps (flag_amount g now id wallet amount ls s) s
  unfolding flag_usage
  flag_amount-caps now id wallet amount [] s = (refl, refl, refl)
  flag_amount-caps now id wallet amount (l ∷ ls) s =
      either_way _ (λ t. SameCaps t s) _ s (flag_found-caps now id wallet _ 6 _ s)
        (refl, refl, refl)

  analyze_and_flag-caps :
      (now : ℕ) (ids : NewIds) (r : SubsidyUsageRecord Number) (s : Store g)
      → SameCaps (analyze_and_flag g now ids r s) s
  unfolding analyze_and_flag
  analyze_and_flag-caps now ids r s =
      let ls : List (Log g) = recent_logs g r.wallet_address s in
      let watched : Store g = flag_rapid g now ids.rapid_flag r.wallet_address ls s in
      let (a, b, x) = flag_amount-caps now ids.amount_flag r.wallet_address r.amount ls watched in
      let (c, d, y) = flag_rapid-caps now ids.rapid_flag r.wallet_address ls s in
      (a ∙ c, b ∙ d, x ∙ y)

  -- The analysis follows where no alert was due.
  after_alerts :
      (now : ℕ) (ids : NewIds) (r : SubsidyUsageRecord Number) (o : Outcome String Unit)
      (s : Store g)
      → SameCaps
          (continue o (λ u. write (analyze_and_flag g now ids r) (new_log g now ids.log r)) s).1
          s
  after_alerts now ids r (ok u) s = analyze_and_flag-caps now ids r s
  after_alerts now ids r (throw x) s = (refl, refl, refl)

  -- Of a recorded usage, the log and the count of the cap are all that change caps, logs and alerts.
  pub recorded-caps :
      (now : ℕ) (ids : NewIds) (r : SubsidyUsageRecord Number) (s : Store g)
      → SameCaps (recorded g now ids r s).1 (counted g now ids r s)
  unfolding recorded check_and_create_alerts
  recorded-caps now ids r s =
      let before : Store g = counted g now ids r s in
      let found = get_cap g r.wallet_address before in
      let (a, b, x) =
        after_alerts now ids r (alert_found g r.wallet_address found before).0
          (alert_found g r.wallet_address found before).1 in
      let same = alert_found-state r.wallet_address found before in
      (a ∙ ap Store.caps same, b ∙ ap Store.logs same, x ∙ ap Store.alerts same)

  acknowledge_found-others :
      (now : ℕ) (by : String) (o : Option (Alert g)) (s : Store g)
      → (Store.caps (acknowledge_found g now by o s).1 ≡ s.caps)
        × (Store.flags (acknowledge_found g now by o s).1 ≡ s.flags)
  acknowledge_found-others now by none s = (refl, refl)
  acknowledge_found-others now by (some a) s = (refl, refl)

  pub acknowledge_alert-others :
      (now : ℕ) (id by : String) (s : Store g)
      → (Store.caps (acknowledge_alert g now id by s).1 ≡ s.caps)
        × (Store.flags (acknowledge_alert g now id by s).1 ≡ s.flags)
  unfolding acknowledge_alert
  acknowledge_alert-others now id by s = acknowledge_found-others now by _ s

  clear_found-caps :
      (now : ℕ) (o : Option SuspiciousUsageFlag) (s : Store g)
      → Store.caps (clear_found g now o s).1 ≡ s.caps
  clear_found-caps now none s = refl
  clear_found-caps now (some f) s = refl

  pub clear_suspicious_flag-caps :
      (now : ℕ) (id : String) (s : Store g)
      → Store.caps (clear_suspicious_flag g now id s).1 ≡ s.caps
  unfolding clear_suspicious_flag
  clear_suspicious_flag-caps now id s = clear_found-caps now _ s
