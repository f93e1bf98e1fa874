-- ===== src/Fees/Approval.antt =====
-- Enough signatures approve a request.
use gas_guard.Prelude.{
  append_one, ℕ, ◌≤◌, ◌<◌, String, str_eq, eq_iff, eq_refl, ◌≡◌, refl, ◌∙◌, ◌⊎◌, inl, inr, true,
  false, ◌||◌, List, [], ◌∷◌, ◌++◌, All, some, get, put, get-put, arith, length, length-append, leb,
}
use gas_guard.Numbers.{Arithmetic}
use gas_guard.Fees.Config.{FeeConfiguration, ApprovalRequest, approved}
use gas_guard.Fees.Store.{Store, apply_fee_update, schedule_fee_update}
use gas_guard.Fees.Approvals.{is_pending, includes, signed, with_status}
use gas_guard.Fees.Steps.{approves, step}
use gas_guard.Fees.Signing.{with_request, with_replaced, approve_open, approve_closed}
use gas_guard.Fees.Runs.{Turn, run}
use gas_guard.Fees.Quorum.{distinct}

includes-middle :
    (x user : String) (xs ys : List String)
    → includes x (xs ++ user ∷ ys) ≡ includes x xs || (str_eq user x || includes x ys)
includes-middle x user [] ys = refl
includes-middle x user (y ∷ xs) ys = ground (arith, includes-middle x user xs ys)

distinct-middle :
    (user : String) (xs ys : List String)
    → distinct (xs ++ user ∷ ys) ≡ true
    → includes user xs ≡ false
distinct-middle user [] ys d = refl
distinct-middle user (x ∷ xs) ys d =
    ground (
      arith,
      includes-middle x user xs ys,
      eq_iff x user,
      eq_iff user x,
      distinct-middle user xs ys,
    )

module _ (ar : Arithmetic) where
  open ar use {Number}

  -- The signers approve the request one after the other.
  abbrev pub signings : ℕ → (ℕ → String) → String → List String → List (Turn Number)
  signings now ids id [] = []
  signings now ids id (user ∷ users) =
      record { now = now; ids = ids; request = approves id user } ∷ signings now ids id users

  abbrev IsApproved : String → Store ar → Type 0
  IsApproved id s =
      (r : ApprovalRequest Number) × (get id s.pending_approvals ≡ some r) × (r.status ≡ approved)

  approve-IsApproved :
      (now : ℕ) (ids : ℕ → String) (id user : String) (s : Store ar)
      → IsApproved id s
      → IsApproved id (step ar now ids (approves id user) s)
  unfolding step
  approve-IsApproved now ids id user s (r, found, done) =
      rw (approve_closed ar now ids id user s r found (rw done refl)) (r, found, done)

  IsApproved-run :
      (now : ℕ) (ids : ℕ → String) (id : String) (users : List String) (s : Store ar)
      → IsApproved id s
      → IsApproved id (run ar (signings now ids id users) s)
  unfolding run
  IsApproved-run now ids id [] s h = h
  IsApproved-run now ids id (user ∷ users) s h =
      IsApproved-run now ids id users (step ar now ids (approves id user) s)
        (approve-IsApproved now ids id user s h)

  get-replaced :
      (id : String) (r : ApprovalRequest Number) (s : Store ar)
      → r.id ≡ id
      → get id (with_replaced ar id r s).pending_approvals ≡ some r
  get-replaced id r s same =
      get-put r.id id r (put id r s.pending_approvals) ∙ rw (same, eq_refl id) refl

  -- The request waits for more signatures, and its configuration is there.
  abbrev pub IsOpen : String → ApprovalRequest Number → Store ar → Type 0
  IsOpen id r s =
      (get id s.pending_approvals ≡ some r)
      × (r.id ≡ id)
      × (is_pending r.status ≡ true)
      × (length r.approvals < r.threshold)
      × ((c : FeeConfiguration Number) × (get r.configuration_id s.configurations ≡ some c))

  more_needed :
      (r : ApprovalRequest Number)
      → leb r.threshold (length r.approvals) ≡ false
      → length r.approvals < r.threshold
  more_needed r h = ground arith

  -- With one signature more the request is open still, or approved.
  sign_one :
      (now : ℕ) (ids : ℕ → String) (id user : String) (r : ApprovalRequest Number) (s : Store ar)
      → IsOpen id r s
      → includes user s.settings.multisig_signers ≡ true
      → includes user r.approvals ≡ false
      → let after = step ar now ids (approves id user) s in
        ((after.settings ≡ s.settings) × IsOpen id (signed ar now user r) after)
        ⊎ IsApproved id after
  unfolding step apply_fee_update schedule_fee_update
  sign_one now ids id user r s (found, same, open_, few, (c, here)) signer once =
      let r' = signed ar now user r in
      let r'' = with_status ar now approved r' in
      let s' = with_request ar id r' s in
      elim (approve_open ar now ids id user s r found open_ signer once) [
        | inl (short, e) ↦
            let still = more_needed r' short in
            inl (rw e (refl, (get-replaced id r' s same, same, open_, still, (c, here))))
        | inr (enough, inl (missing, e)) ↦ ground arith
        | inr (enough, inr (d, there, inl (later, e))) ↦
            inr (rw e (r'', get-replaced id r'' s' same, refl))
        | inr (enough, inr (d, there, inr (due, e))) ↦
            inr (rw e (r'', get-replaced id r'' s' same, refl))
      ]

  -- Where an approval request is stored under its id, is pending, has fewer approvals than its threshold
  -- and is for a configuration that is there, and users who are among the signers of the settings
  -- approve it one after the other at one moment, none of them twice or having approved before, the
  -- request is approved at the end if with theirs it has as many approvals as its threshold.
  pub signings-approve :
      (now : ℕ) (ids : ℕ → String) (id : String) (users : List String) (r : ApprovalRequest Number)
      (s : Store ar)
      → IsOpen id r s
      → All (λ user. includes user s.settings.multisig_signers ≡ true) users
      → distinct (r.approvals ++ users) ≡ true
      → r.threshold ≤ length (r.approvals ++ users)
      → (r' : ApprovalRequest Number) × (get id
            (run ar (signings now ids id users) s).pending_approvals
          ≡ some r')
        × (r'.status ≡ approved)
  unfolding run
  signings-approve now ids id [] r s (found, same, open_, few, here) signers d enough =
      ground (arith, length-append r.approvals [])
  signings-approve now ids id (user ∷ users) r s o (signer, signers) d enough =
      let s' = step ar now ids (approves id user) s in
      let r' = signed ar now user r in
      elim (sign_one now ids id user r s o signer (distinct-middle user r.approvals users d)) [
        | inr done ↦ IsApproved-run now ids id users s' done
        | inl (settings, o') ↦
            signings-approve now ids id users r' s' o' (rw settings signers)
              (rw (append_one user r.approvals users) d)
              (rw (append_one user r.approvals users) enough)
      ]
