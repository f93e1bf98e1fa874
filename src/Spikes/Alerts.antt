-- ===== src/Spikes/Alerts.antt =====
-- When the monitor raises an alert.
use gas_guard.Prelude.{
  ℕ, String, ◌≡◌, refl, ◌⊎◌, inl, inr, true, none, some, [], ◌==◌, arith, Option-cases,
}
use gas_guard.Numbers.{Arithmetic}
use gas_guard.Spikes.Config.{Severity, GasSnapshot, AlertPayload}
use gas_guard.Spikes.Classifier.{
  Classifier, add_snapshot, enrich, classify_severity, get_effective_thresholds,
}
use gas_guard.Spikes.Engine.{evaluate, highest_severity}
use gas_guard.Spikes.Webhooks.{Answer, dispatch_all}
use gas_guard.Spikes.Monitor.{
  Monitor, process_chain, process_snapshot, build_alert_payload, payload_for,
}
use gas_guard.Spikes.Severities.{highest_severity-evaluate}

same_chain : (n : ℕ) → (n == n) ≡ true
same_chain n = ground arith

module _ (ar : Arithmetic) (gwei : ar.Number → String) (rounded : ℕ → ar.Number → ar.Number) where
  open ar use {Number}

  added-classify :
      (x : GasSnapshot Number) (c : Classifier ar)
      → highest_severity ar (evaluate ar (enrich ar x c) (add_snapshot ar x c))
        ≡ classify_severity ar (enrich ar x c) c
  unfolding add_snapshot classify_severity get_effective_thresholds
  added-classify x c = highest_severity-evaluate ar (enrich ar x c) (add_snapshot ar x c)

  -- Whatever is fetched for a chain and whatever the endpoints answer: where the classifier finds no
  -- severity for the snapshot, nothing is sent and the last alerts stay; where it finds one, an alert of
  -- that severity becomes the last alert of the chain and is dispatched to the subscriptions.
  pub process_chain-alert :
      (answers : String → ℕ → Answer) (chain : ℕ) (x : GasSnapshot Number)
      (s : Monitor ar gwei rounded)
      → let after = process_chain ar gwei rounded answers chain (some x) s in
        let found = classify_severity ar (enrich ar x s.classifier) s.classifier in
        ((found ≡ none) × (after.0 ≡ []) × (after.1.last_alerts ≡ s.last_alerts))
        ⊎ ((severity : Severity) × ((p : AlertPayload Number) × (found ≡ some severity)
              × (p.severity ≡ severity)
              × (after.1.last_alerts chain ≡ some p)
              × (after.0 ≡ dispatch_all answers p s.subscriptions)))
  unfolding process_chain process_snapshot build_alert_payload payload_for
  process_chain-alert answers chain x s =
      let same = added-classify x s.classifier in
      elim (Option-cases (classify_severity ar (enrich ar x s.classifier) s.classifier)) [
        | inl quiet ↦ inl (quiet, rw (same, quiet) refl, rw (same, quiet) refl)
        | inr (severity, e) ↦
            let c = add_snapshot ar x s.classifier in
            let rs = evaluate ar (enrich ar x s.classifier) c in
            let p = payload_for ar gwei rounded chain x (enrich ar x s.classifier) rs severity c in
            inr
              (severity, (p, e, refl, rw (same, e) (rw (same_chain chain) refl), rw (same, e) refl))
      ]
