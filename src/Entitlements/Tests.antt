-- ===== src/Entitlements/Tests.antt =====
-- Runs and witnesses for the entitlements.
use chat_pulse.Prelude.{◌≡◌, refl, true, false, some}
use chat_pulse.Entitlements.{
  build_account_access, has_entitlement, require_report_theme_access, permission_error, allowed,
}
use chat_pulse.Entitlements.Policy.{entitled_iff_paid}

-- A VIP until 100, at 90 and at 100.
entitled_iff_paid_example :
    let now = build_account_access false true (some 100) 90 in
    (has_entitlement now "reports.export_csv" ≡ true)
    × (require_report_theme_access now "aurora_gold" ≡ allowed)
entitled_iff_paid_example =
    entitled_iff_paid false true (some 100) 90 "reports.export_csv" "aurora_gold"

expired-theme :
    require_report_theme_access (build_account_access false true (some 100) 100) "aurora_gold"
    ≡ permission_error
unfolding require_report_theme_access build_account_access has_entitlement
expired-theme = refl
