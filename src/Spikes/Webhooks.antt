-- ===== src/Spikes/Webhooks.antt =====
-- WebhookDispatcherService: src/modules/gas-spike-alert/webhook-dispatcher.service.ts. The random ids
-- and secrets, the HMAC and what the endpoints answer are arguments.
use Prim.Native.String.{len}
use gas_guard.Prelude.{
  values, without, ℕ, zero, suc, ◌+◌, ◌-◌, ◌*◌, String, str_eq, str_append, Bool, true, false, ◌&&◌,
  Option, List, [], ◌∷◌, ◌++◌, Dict, get, put, map, filter, any, or_else, ltb, leb, ◌==◌,
  if◌then◌else◌,
}
use gas_guard.Exec.{Exec, query, write, found_or, ◌>>=◌}
use gas_guard.Http.{HttpException, not_found}
use gas_guard.Spikes.Config.{
  Severity, warning, severity_order, WebhookSubscription, AlertPayload, webhook_max_retries,
  webhook_backoff_base_ms,
}

pub record RegisterWebhookDto : Type 0 where
  pub url : String
  pub chain_ids : Option (List ℕ)
  pub min_severity : Option Severity
  pub secret : Option String

pub record UpdateWebhookDto : Type 0 where
  pub url : Option String
  pub chain_ids : Option (List ℕ)
  pub min_severity : Option Severity
  pub active : Option Bool

abbrev pub Subscriptions : Type 0
Subscriptions = Dict WebhookSubscription

abbrev pub Action : Type 0 → Type 0
Action A = Exec HttpException Subscriptions A

abbrev webhook_not_found : String → HttpException
webhook_not_found id = not_found (str_append "Webhook " (str_append id " not found"))

unfoldable pub new_subscription : ℕ → String → String → RegisterWebhookDto → WebhookSubscription
new_subscription now id random dto = record {
  id = id;
  url = dto.url;
  chain_ids = or_else dto.chain_ids [];
  min_severity = or_else dto.min_severity warning;
  secret = or_else dto.secret random;
  created_at = now;
  active = true;
}

unfoldable pub register : ℕ → String → String → RegisterWebhookDto → Action WebhookSubscription
unfolding new_subscription
register now id random dto = let sub = new_subscription now id random dto in write (put id sub) sub

unfoldable pub find_by_id : String → Action WebhookSubscription
unfolding get
find_by_id id = do found ← query (get id); found_or (webhook_not_found id) found

abbrev updated : WebhookSubscription → UpdateWebhookDto → WebhookSubscription
updated sub dto = record sub {
  url = or_else dto.url sub.url;
  chain_ids = or_else dto.chain_ids sub.chain_ids;
  min_severity = or_else dto.min_severity sub.min_severity;
  active = or_else dto.active sub.active;
}

unfoldable pub update : String → UpdateWebhookDto → Action WebhookSubscription
unfolding find_by_id
update id dto = do sub ← find_by_id id; write (put id (updated sub dto)) (updated sub dto)

unfoldable pub delete : String → Action Unit
unfolding find_by_id
delete id = do sub ← find_by_id id; write (without id) tt

-- No chain ids: every chain.
abbrev covers : ℕ → List ℕ → Bool
covers chain [] = true
covers chain (c ∷ cs) = any (λ id. id == chain) (c ∷ cs)

unfoldable pub matches : {N : Type 0} → AlertPayload N → WebhookSubscription → Bool
matches p sub =
    sub.active
    && (covers p.chain_id sub.chain_ids
        && leb (severity_order sub.min_severity) (severity_order p.severity))

unfoldable pub get_matching_subscriptions :
    {N : Type 0} → AlertPayload N → Subscriptions → List WebhookSubscription
unfolding matches
get_matching_subscriptions p subs = filter (matches p) (values subs)

-- What `fetch` gives for an attempt: a response, with its `ok`, or an error of the network.
pub data Answer : Type 0 where
  responded : Bool → Answer
  network_error : Answer

abbrev pub is_ok : Answer → Bool
is_ok (responded fine) = fine
is_ok network_error = false

-- The attempts that were made and the pauses between them, in milliseconds.
pub record Delivery : Type 0 where
  pub delivered : Bool
  pub attempts : List ℕ
  pub pauses : List ℕ

abbrev power : ℕ → ℕ
power zero = 1
power (suc n) = 2 * power n

abbrev pause_after : ℕ → List ℕ
pause_after attempt =
    if ltb attempt webhook_max_retries
    then webhook_backoff_base_ms * power (attempt - 1) ∷ []
    else []

-- `turns` attempts are left from `attempt` on.
unfoldable pub attempt_from : ℕ → ℕ → (ℕ → Answer) → Delivery
attempt_from zero attempt answers = record { delivered = false; attempts = []; pauses = [] }
attempt_from (suc turns) attempt answers =
    let rest = attempt_from turns (attempt + 1) answers in
    if is_ok (answers attempt)
    then record { delivered = true; attempts = attempt ∷ []; pauses = [] }
    else record {
      delivered = rest.delivered;
      attempts = attempt ∷ rest.attempts;
      pauses = pause_after attempt ++ rest.pauses;
    }

-- `for (attempt = 1; attempt <= WEBHOOK_MAX_RETRIES; attempt++)`
unfoldable pub dispatch_one : (ℕ → Answer) → Delivery
unfolding attempt_from
dispatch_one answers = attempt_from webhook_max_retries 1 answers

-- `answers` by the subscription's id. The deliveries run beside each other.
unfoldable pub dispatch_all :
    {N : Type 0} → (String → ℕ → Answer) → AlertPayload N → Subscriptions → List (String × Delivery)
unfolding get_matching_subscriptions dispatch_one
dispatch_all answers p subs =
    map (λ sub. (sub.id, dispatch_one (answers sub.id))) (get_matching_subscriptions p subs)

-- `hmac key text`, in hexadecimal
module _ (hmac : String → String → String) where
  unfoldable pub sign : String → String → String
  sign body secret = hmac secret body

  unfoldable pub verify : String → String → String → Bool
  unfolding sign
  verify body secret incoming =
      let expected = sign body secret in
      (len expected == len incoming) && str_eq (hmac "verify" expected) (hmac "verify" incoming)

  -- The header of a delivery that carries its signature.
  unfoldable pub signature_header : String → String → String
  unfolding sign
  signature_header body secret = str_append "sha256=" (sign body secret)
