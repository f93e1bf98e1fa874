-- ===== src/Fees/Audit.antt =====
-- The history and the events of the fee configurations against the configurations themselves.
use mathlib.Core.List.{Perm}
use mathlib.Core.List.Perm
use gas_guard.Prelude.{
  ℕ, String, ◌≡◌, refl, sym, ap, ◌∙◌, inl, inr, Bool, true, false, ◌&&◌, leb, All, arith,
  Bool-cases, List, [], ◌∷◌, ◌++◌, put, Dict,
}
use gas_guard.Numbers.{Arithmetic}
use gas_guard.Fees.Config.{FeeConfiguration, FeeUpdateRequest, FeeChangeEvent, HistoryEntry}
use gas_guard.Fees.Store.{
  Store, initial, publish, apply_fee_update, schedule_fee_update, updated_configuration,
  update_event,
}
use gas_guard.Fees.Updates.{process_pending_scheduled_updates, new_configuration, creation_event}
use gas_guard.Fees.Queries.{insert, latest_first, absent, is_none, history_cases, events_cases}
use gas_guard.Fees.Steps.{
  Request, updates, creates, asks, approves, rejects, processes, configures, reads_history,
  reads_events, step, configure_cases, update_cases, create_cases, process_all-keeps, Every-update,
}
use gas_guard.Fees.Signing.{ask_cases, approve_cases, reject_cases}
use gas_guard.Fees.Runs.{every_turn, Turn, run, run-keeps}

-- The history's entries written over a table of configurations, the oldest first.
abbrev pub replay :
    {N : Type 0} → List (HistoryEntry N) → Dict (FeeConfiguration N) → Dict (FeeConfiguration N)
replay [] table = table
replay (h ∷ hs) table = replay hs (put h.configuration_id h.configuration table)

abbrev pub events_of : {N : Type 0} → List (HistoryEntry N) → List (FeeChangeEvent N)
events_of [] = []
events_of (h ∷ hs) = h.change_event ∷ events_of hs

replay-append :
    {N : Type 0} (hs : List (HistoryEntry N)) (h : HistoryEntry N)
    (table : Dict (FeeConfiguration N))
    → replay (hs ++ h ∷ []) table ≡ put h.configuration_id h.configuration (replay hs table)
replay-append [] h table = refl
replay-append (k ∷ hs) h table = replay-append hs h (put k.configuration_id k.configuration table)

events_of-append :
    {N : Type 0} (hs : List (HistoryEntry N)) (h : HistoryEntry N)
    → events_of (hs ++ h ∷ []) ≡ events_of hs ++ h.change_event ∷ []
events_of-append [] h = refl
events_of-append (k ∷ hs) h = ap (λ es. k.change_event ∷ es) (events_of-append hs h)

insert-perm : {A : Type 0} (time : A → ℕ) (x : A) (xs : List A) → Perm (insert time x xs) (x ∷ xs)
insert-perm time x [] = Perm.refl _
insert-perm time x (y ∷ ys) = elim (Bool-cases (leb (time y) (time x))) [
  | inl first ↦ rw first (Perm.refl _)
  | inr later ↦ rw later (Perm.trans (Perm.cons y (insert-perm time x ys)) (Perm.swap x y ys))
]

latest_first-perm : {A : Type 0} (time : A → ℕ) (xs : List A) → Perm (latest_first time xs) xs
latest_first-perm time [] = Perm.refl _
latest_first-perm time (x ∷ xs) =
    Perm.trans (insert-perm time x (latest_first time xs)) (Perm.cons x (latest_first-perm time xs))

-- A query that filters nothing.
abbrev pub is_unfiltered : {N : Type 0} → Request N → Bool
is_unfiltered (reads_history id) = absent id
is_unfiltered (reads_events id start end) = absent id && (is_none start && is_none end)
is_unfiltered _ = false

-- What sorting a log keeps, where `K` relates the log to the entries in the order of their making.
abbrev KeepsSorted : ((A : Type 0) → List A → List A → Type 0) → Type 1
KeepsSorted K =
    (A : Type 0) (time : A → ℕ) (xs ys : List A) → K A xs ys → K A (latest_first time xs) ys

module _ (ar : Arithmetic) where
  open ar use {Number}

  module _ (K : (A : Type 0) → List A → List A → Type 0)
      (grow : (A : Type 0) (x : A) (xs ys : List A) → K A xs ys → K A (xs ++ x ∷ []) (ys ++ x ∷ []))
      (table : Dict (FeeConfiguration Number)) where
    -- The entries in the order of their making.
    abbrev pub IsAudited : Store ar → Type 0
    IsAudited s =
        (hs : List (HistoryEntry Number)) × (s.configurations ≡ replay hs table)
        × K (HistoryEntry Number) s.history hs
        × K (FeeChangeEvent Number) s.fee_events (events_of hs)

    publish-IsAudited :
        (now : ℕ) (id config_id : String) (c : FeeConfiguration Number)
        (event : FeeChangeEvent Number) (admin : String) (s : Store ar)
        → IsAudited s
        → IsAudited (publish ar now id config_id c event admin s)
    publish-IsAudited now id config_id c event admin s (hs, h, k, e) =
        let entry : HistoryEntry Number = record {
          id = id;
          configuration_id = config_id;
          version = c.version;
          configuration = c;
          change_event = event;
          created_at = now;
          created_by = admin;
        } in
        (
          hs ++ entry ∷ [],
          ap (put config_id c) h ∙ sym (replay-append hs entry table),
          grow (HistoryEntry Number) entry s.history hs k,
          rw (events_of-append hs entry)
              (grow (FeeChangeEvent Number) event s.fee_events (events_of hs) e),
        )

    apply-IsAudited :
        (now : ℕ) (ids : ℕ → String) (config_id : String) (c : FeeConfiguration Number)
        (u : FeeUpdateRequest Number) (admin : String) (s : Store ar)
        → IsAudited s
        → IsAudited (apply_fee_update ar now ids config_id c u admin s)
    unfolding apply_fee_update
    apply-IsAudited now ids config_id c u admin s h =
        let new = updated_configuration ar now c u in
        publish-IsAudited now (ids 1) config_id new
          (update_event ar now (ids 0) config_id c new u admin) admin s h

    pub step-IsAudited :
        (now : ℕ) (ids : ℕ → String) (r : Request Number) (s : Store ar)
        → (is_unfiltered r ≡ true → KeepsSorted K)
        → IsAudited s
        → IsAudited (step ar now ids r s)
    unfolding step schedule_fee_update process_pending_scheduled_updates apply_fee_update
    step-IsAudited now ids (updates id u admin) s sorts h =
        elim (update_cases ar now ids id u admin s) [
          | inl e ↦ rw e h
          | inr (c, found, small, inl (later, e)) ↦ rw e h
          | inr (c, found, small, inr (due, e)) ↦ rw e (apply-IsAudited now ids id c u admin s h)
        ]
    step-IsAudited now ids (creates c admin) s sorts h = elim (create_cases ar now ids c admin s) [
      | inl e ↦ rw e h
      | inr (good, e) ↦
          let new = new_configuration ar now (ids 0) c admin in
          rw e (
            publish-IsAudited now (ids 2) (ids 0) new (creation_event ar now (ids 1) new admin)
              admin s h)
    ]
    step-IsAudited now ids (asks id u admin) s sorts h = elim (ask_cases ar now ids id u admin s) [
      | inl e ↦ rw e h
      | inr (more, e) ↦ rw e h
    ]
    step-IsAudited now ids (approves id user) s sorts h =
        elim (approve_cases ar now ids id user s) [
          | inl e ↦ rw e h
          | inr (r, found, open_, signer, once, inl (short, e)) ↦ rw e h
          | inr (r, found, open_, signer, once, inr (enough, inl (missing, e))) ↦ rw e h
          | inr (r, found, open_, signer, once, inr (enough, inr (c, here, inl (later, e)))) ↦
              rw e h
          | inr (r, found, open_, signer, once, inr (enough, inr (c, here, inr (due, e)))) ↦
              rw e (apply-IsAudited now ids r.configuration_id c r.request r.requested_by s h)
        ]
    step-IsAudited now ids (rejects id user) s sorts h = elim (reject_cases ar now id user s) [
      | inl e ↦ rw e h
      | inr (r, found, open_, e) ↦ rw e h
    ]
    step-IsAudited now ids processes s sorts h =
        process_all-keeps ar IsAudited (λ u. Unit) now
          (λ ids key u c s q due found a.
            apply-IsAudited now ids u.configuration_id c u.request u.created_by s a)
          ids s.scheduled_updates s (Every-update ar s.scheduled_updates) h
    step-IsAudited now ids (configures p) s sorts h = elim (configure_cases ar p s) [
      | inl e ↦ rw e h
      | inr (within, above, e) ↦ rw e h
    ]
    step-IsAudited now ids (reads_history id) s sorts (hs, h, k, e) = elim (history_cases ar id s) [
      | inl (all, after) ↦
          rw after (hs, h, sorts all (HistoryEntry Number) (λ x. x.created_at) s.history hs k, e)
      | inr after ↦ rw after (hs, h, k, e)
    ]
    step-IsAudited now ids (reads_events id start end) s sorts (hs, h, k, e) =
        elim (events_cases ar id start end s) [
          | inl (all, after) ↦ rw after (
            hs,
            h,
            k,
            sorts all (FeeChangeEvent Number) (λ x. x.timestamp) s.fee_events (events_of hs) e,
          )
          | inr after ↦ rw after (hs, h, k, e)
        ]

  abbrev Same : (A : Type 0) → List A → List A → Type 0
  Same A xs ys = xs ≡ ys

  -- Whatever requests a new service has served, in any order and with any ids and dates, but no query of the history
  -- or the events that filters nothing: the configurations are what the history gives when it is replayed over the
  -- first table, and the fee events are the events of the history's entries in order.
  pub run-replay :
      (start : ℕ) (ts : List (Turn Number))
      → All (λ t. is_unfiltered t.request ≡ false) ts
      → let s = run ar ts (initial ar start) in
        (s.configurations ≡ replay s.history (initial ar start).configurations)
        × (s.fee_events ≡ events_of s.history)
  unfolding initial
  run-replay start ts filtered =
      let table = (initial ar start).configurations in
      let (hs, h, k, e) =
        run-keeps ar (IsAudited Same (λ A x xs ys. ap (λ l. l ++ x ∷ [])) table)
          (λ t. is_unfiltered t.request ≡ false)
          (λ t s q h.
            step-IsAudited Same (λ A x xs ys. ap (λ l. l ++ x ∷ [])) table t.now t.ids t.request s
              (λ all. absurd (ground (arith, all, q))) h)
          ts (initial ar start) filtered ([], refl, refl, refl) in
      (rw k h, rw k e)

  abbrev Reordered : (A : Type 0) → List A → List A → Type 0
  Reordered A xs ys = Perm xs ys

  -- Whatever requests a new service has served, the queries that sort the logs included: the history is, in some
  -- order, a list of entries that gives the configurations when it is replayed over the first table, and the fee
  -- events are, in some order, the events of these entries. No entry and no event is lost or made up by a query.
  pub run-Reordered :
      (start : ℕ) (ts : List (Turn Number))
      → let s = run ar ts (initial ar start) in
        (hs : List (HistoryEntry Number)) × (s.configurations
          ≡ replay hs (initial ar start).configurations)
        × Perm s.history hs
        × Perm s.fee_events (events_of hs)
  unfolding initial
  run-Reordered start ts =
      let table = (initial ar start).configurations in
      run-keeps ar (IsAudited Reordered (λ A x xs ys p. Perm.append_right (x ∷ []) p) table)
        (λ t. Unit)
        (λ t s q h.
          step-IsAudited Reordered (λ A x xs ys p. Perm.append_right (x ∷ []) p) table t.now t.ids
            t.request s (λ all A time xs ys p. Perm.trans (latest_first-perm time xs) p) h)
        ts (initial ar start) (every_turn ar ts) ([], refl, Perm.refl _, Perm.refl _)
