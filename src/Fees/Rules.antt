-- ===== src/Fees/Rules.antt =====
-- What FeeConfigurationService computes from a configuration and a request: the validation, the new
-- configuration, the list of changes, and whether the change is large.
use gas_guard.Prelude.{
  ℕ, String, str_append, str_eq, Bool, true, false, ◌&&◌, ◌||◌, not, Option, none, some, List, [],
  ◌∷◌, ◌++◌, or_else, if◌then◌else◌,
}
use gas_guard.Numbers.{Arithmetic}
use gas_guard.RateLimit.Guard.{trim}
use gas_guard.Fees.Config.{
  Tiers, FeeConfiguration, FeeUpdateRequest, FeeChange, Impact, FeeValidationResult,
  AdminFeeSettings,
}

-- `{ ...current, ...update }`
abbrev pub patch : {N : Type 0} → Tiers N → Tiers (Option N) → Tiers N
patch t p = record {
  starter = or_else p.starter t.starter;
  developer = or_else p.developer t.developer;
  professional = or_else p.professional t.professional;
  enterprise = or_else p.enterprise t.enterprise;
}

abbrev pub patch_if : {N : Type 0} → Tiers N → Option (Tiers (Option N)) → Tiers N
patch_if t none = t
patch_if t (some p) = patch t p

abbrev pub is_empty : {A : Type 0} → List A → Bool
is_empty [] = true
is_empty (x ∷ xs) = false

abbrev pub when : {A : Type 0} → Bool → A → List A
when b x = if b then x ∷ [] else []

-- `{ ...currentConfig, ...this.applyUpdateRequest(currentConfig, updateRequest) }`
unfoldable pub apply_update_request :
    {N : Type 0} → FeeConfiguration N → FeeUpdateRequest N → FeeConfiguration N
apply_update_request c u = record c {
  base_price_per_request = or_else u.base_price_per_request c.base_price_per_request;
  tier_multipliers = patch_if c.tier_multipliers u.tier_multipliers;
  discount_percentages = patch_if c.discount_percentages u.discount_percentages;
  minimum_fee = or_else u.minimum_fee c.minimum_fee;
  maximum_fee = or_else u.maximum_fee c.maximum_fee;
  rate_limits = patch_if c.rate_limits u.rate_limits;
  request_limits = patch_if c.request_limits u.request_limits;
}

module _ (ar : Arithmetic) where
  open ar use {Number, literal, sub, mul, div, abs, lt, same}

  abbrev whole : ℕ → Number
  whole n = literal n 1

  abbrev gt : Number → Number → Bool
  gt a b = lt b a

  abbrev pub of_price : (Number → List String) → Option Number → List String
  of_price f none = []
  of_price f (some x) = f x

  -- The entries of the request, in the order of the tiers.
  abbrev of_tiers : (String → Number → List String) → Option (Tiers (Option Number)) → List String
  of_tiers f none = []
  of_tiers f (some t) =
      of_price (f "starter") t.starter
      ++ (of_price (f "developer") t.developer
          ++ (of_price (f "professional") t.professional ++ of_price (f "enterprise") t.enterprise))

  unfoldable pub update_errors : FeeUpdateRequest Number → List String
  update_errors u =
      of_price (λ p. when (lt p (whole 0)) "Base price per request cannot be negative")
        u.base_price_per_request
      ++ (of_tiers
            (λ tier x.
              when (lt x (whole 0))
                (str_append "Tier multiplier for " (str_append tier " cannot be negative")))
            u.tier_multipliers
          ++ of_tiers
              (λ tier x. when (lt x (whole 0) || gt x (whole 100)) (
                str_append "Discount percentage for "
                  (str_append tier " must be between 0 and 100")))
              u.discount_percentages)

  unfoldable pub update_warnings : FeeUpdateRequest Number → List String
  update_warnings u =
      of_price (λ p. when (gt p (whole 1)) "Base price per request is very high (> 1 XLM)")
        u.base_price_per_request
      ++ of_tiers
          (λ tier x.
            when (gt x (whole 10))
              (str_append "Tier multiplier for " (str_append tier " is very high (> 10x)")))
          u.tier_multipliers

  unfoldable pub calculate_impact :
      FeeConfiguration Number → FeeConfiguration Number → Impact Number
  calculate_impact old new =
      let before = old.base_price_per_request in
      let after = new.base_price_per_request in
      record {
        affected_users = 30000;
        price_increase_percentage =
            if gt after before then mul (div (sub after before) before) (whole 100) else whole 0;
        price_decrease_percentage =
            if lt after before then mul (div (sub before after) before) (whole 100) else whole 0;
      }

  unfoldable pub validate_fee_update :
      FeeConfiguration Number → FeeUpdateRequest Number → FeeValidationResult Number
  unfolding update_errors update_warnings calculate_impact
  validate_fee_update c u = record {
    is_valid = is_empty (update_errors u);
    errors = update_errors u;
    warnings = update_warnings u;
    impact = calculate_impact c (apply_update_request c u);
  }

  unfoldable pub configuration_errors : FeeConfiguration Number → List String
  unfolding trim
  configuration_errors c =
      when (str_eq c.name "" || str_eq (trim c.name) "") "Configuration name is required"
      ++ (when (lt c.base_price_per_request (whole 0)) "Base price per request cannot be negative"
          ++ (when (lt c.minimum_fee (whole 0)) "Minimum fee cannot be negative"
              ++ (when (lt c.maximum_fee (whole 0)) "Maximum fee cannot be negative"
                  ++ when (gt c.maximum_fee (whole 0) && gt c.minimum_fee c.maximum_fee)
                      "Minimum fee cannot be greater than maximum fee")))

  unfoldable pub validate_new_configuration : FeeConfiguration Number → FeeValidationResult Number
  unfolding configuration_errors
  validate_new_configuration c = record {
    is_valid = is_empty (configuration_errors c);
    errors = configuration_errors c;
    warnings = [];
    impact = record {
      affected_users = 0;
      price_increase_percentage = whole 0;
      price_decrease_percentage = whole 0;
    };
  }

  change : String → Option String → Number → Number → List (FeeChange Number)
  change field tier old new =
      when (not (same old new))
        (record { field = field; tier = tier; old_value = old; new_value = new })

  tier_changes : String → Tiers Number → Tiers Number → List (FeeChange Number)
  unfolding change
  tier_changes field old new =
      change field (some "starter") old.starter new.starter
      ++ (change field (some "developer") old.developer new.developer
          ++ (change field (some "professional") old.professional new.professional
              ++ change field (some "enterprise") old.enterprise new.enterprise))

  unfoldable pub detect_changes :
      FeeConfiguration Number → FeeConfiguration Number → List (FeeChange Number)
  unfolding change tier_changes
  detect_changes old new =
      change "basePricePerRequest" none old.base_price_per_request new.base_price_per_request
      ++ (tier_changes "tierMultiplier" old.tier_multipliers new.tier_multipliers
          ++ tier_changes "discountPercentage" old.discount_percentages new.discount_percentages)

  -- The base price alone decides.
  abbrev is_large : Number → Number → Option Number → Bool
  is_large threshold old none = false
  is_large threshold old (some new) = gt (abs (div (sub new old) old)) (div threshold (whole 100))

  unfoldable pub check_if_approval_required :
      AdminFeeSettings Number → FeeConfiguration Number → FeeUpdateRequest Number → Bool
  check_if_approval_required settings c u =
      if not settings.require_approval_for_large_changes
      then false
      else is_large settings.large_change_threshold c.base_price_per_request
          u.base_price_per_request
