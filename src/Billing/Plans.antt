-- ===== src/Billing/Plans.antt =====
-- app/services/vip_plans.py.
use chat_pulse.Prelude.{
  ℕ, ◌*◌, String, Bool, true, false, Option, none, some, str_eq, if◌then◌else◌,
}

pub data VipPlanCode : Type 0 where
  trial_7d monthly_30d quarter_90d year_365d : VipPlanCode

abbrev pub month_seconds : ℕ
month_seconds = 30 * 24 * 60 * 60

pub record VipPlan : Type 0 where
  pub code : VipPlanCode
  pub title : String
  pub short_title : String
  pub description : String
  pub stars : ℕ
  pub duration_days : ℕ
  pub recurring : Bool
  pub badge : Option String

pub subscription_period : VipPlan → Option ℕ
subscription_period plan = if plan.recurring then some month_seconds else none

-- `VIP_PLANS`, by the codes that it has.
abbrev pub vip_plans : VipPlanCode → VipPlan
vip_plans trial_7d = record {
  code = trial_7d;
  title = "Спробувати VIP";
  short_title = "7 днів";
  description = "Повний VIP на 7 днів. Лише один раз і без автопродовження.";
  stars = 1;
  duration_days = 7;
  recurring = false;
  badge = some "ПЕРШИЙ РАЗ";
}
vip_plans monthly_30d = record {
  code = monthly_30d;
  title = "VIP на місяць";
  short_title = "30 днів";
  description = "Автоматичне продовження кожні 30 днів. Можна вимкнути будь-коли.";
  stars = 59;
  duration_days = 30;
  recurring = true;
  badge = some "ПОПУЛЯРНИЙ";
}
vip_plans quarter_90d = record {
  code = quarter_90d;
  title = "VIP на 3 місяці";
  short_title = "90 днів";
  description = "Разова покупка без автоматичного продовження.";
  stars = 149;
  duration_days = 90;
  recurring = false;
  badge = some "ВИГІДНО";
}
vip_plans year_365d = record {
  code = year_365d;
  title = "VIP на рік";
  short_title = "365 днів";
  description = "Найнижча ціна за місяць. Разова покупка.";
  stars = 499;
  duration_days = 365;
  recurring = false;
  badge = some "НАЙКРАЩА ЦІНА";
}

-- `none` is the `LookupError` on a key that is not there.
unfoldable pub get_vip_plan : String → Option VipPlan
get_vip_plan code =
    if str_eq code "trial_7d"
    then some (vip_plans trial_7d)
    else if str_eq code "monthly_30d"
    then some (vip_plans monthly_30d)
    else if str_eq code "quarter_90d"
    then some (vip_plans quarter_90d)
    else if str_eq code "year_365d"
    then some (vip_plans year_365d)
    else none

abbrev pub is_trial : VipPlanCode → Bool
is_trial trial_7d = true
is_trial _ = false

abbrev pub is_monthly : VipPlanCode → Bool
is_monthly monthly_30d = true
is_monthly _ = false
