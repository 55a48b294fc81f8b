-- ===== src/Entitlements.antt =====
-- app/services/entitlements.py and app/services/premium_policy.py: the plan of an account, and what
-- it opens.
pub mod Policy
mod Tests
use chat_pulse.Prelude.{
  ℕ, String, Bool, true, false, not, ◌&&◌, ◌||◌, Option, none, some, List, [], ◌∷◌, ltb, any,
  str_eq, if◌then◌else◌,
}

abbrev pub premium_entitlements : List String
premium_entitlements =
    "analytics.extended_history" ∷ "analytics.advanced_compare" ∷ "reports.premium_themes"
    ∷ "reports.export_csv" ∷ "reports.export_pdf" ∷ "reports.ai_insights" ∷ "notifications.advanced"
    ∷ "profile.premium_card" ∷ "premium.all" ∷ []

pub data Plan : Type 0 where
  owner vip free : Plan

pub record AccountAccess : Type 0 where
  pub plan : Plan
  pub is_owner : Bool
  pub is_vip : Bool
  pub vip_expires_at : Option ℕ
  pub entitlements : List String

-- `vip_is_active and (expires_at is None or expires_at > current)`
abbrev pub active_vip : Bool → Option ℕ → ℕ → Bool
active_vip vip_is_active none current = vip_is_active
active_vip vip_is_active (some t) current = vip_is_active && ltb current t

unfoldable pub build_account_access : Bool → Bool → Option ℕ → ℕ → AccountAccess
build_account_access is_owner vip_is_active vip_expires_at current =
    if is_owner
    then record {
      plan = owner;
      is_owner = true;
      is_vip = false;
      vip_expires_at = none;
      entitlements = premium_entitlements;
    }
    else if active_vip vip_is_active vip_expires_at current
    then record {
      plan = vip;
      is_owner = false;
      is_vip = true;
      vip_expires_at = vip_expires_at;
      entitlements = premium_entitlements;
    }
    else record {
      plan = free;
      is_owner = false;
      is_vip = false;
      vip_expires_at = none;
      entitlements = [];
    }

abbrev pub is_in : String → List String → Bool
is_in text l = any (λ t. str_eq t text) l

unfoldable pub has_entitlement : AccountAccess → String → Bool
has_entitlement account entitlement =
    account.is_owner
    || (is_in "premium.all" account.entitlements || is_in entitlement account.entitlements)

abbrev pub free_report_themes : List String
free_report_themes = "dark_pulse" ∷ []

abbrev pub premium_report_themes : List String
premium_report_themes = "telegram_wave" ∷ "clean_light" ∷ "aurora_gold" ∷ []

abbrev pub is_theme : String → Bool
is_theme theme = is_in theme free_report_themes || is_in theme premium_report_themes

pub data Access : Type 0 where
  allowed value_error permission_error : Access

unfoldable pub require_report_theme_access : AccountAccess → String → Access
require_report_theme_access account theme =
    if not (is_theme theme)
    then value_error
    else if is_in theme premium_report_themes
        && not (has_entitlement account "reports.premium_themes")
    then permission_error
    else allowed
