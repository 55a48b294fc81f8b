-- ===== src/Entitlements/Policy.antt =====
-- Who gets what: the accounts that are built, against the checks on them.
use chat_pulse.Prelude.{
  ℕ, ◌≡◌, refl, String, Bool, true, false, not, ◌&&◌, ◌||◌, Option, Bool-cases, inl, inr,
  if◌then◌else◌,
}
use chat_pulse.Entitlements.{
  allowed, value_error, permission_error, active_vip, build_account_access, is_in, has_entitlement,
  is_theme, premium_report_themes, require_report_theme_access,
}

-- An account that is built from the owner flag and the VIP grant has an entitlement, whichever it
-- is, exactly when it is the owner's or its VIP is in force; every report theme that exists is then
-- allowed, otherwise only the free ones are; and a theme that does not exist is a value error for
-- everybody.
pub entitled_iff_paid :
    (is_owner vip_is_active : Bool) (expires : Option ℕ) (now : ℕ) (entitlement theme : String)
    → let account = build_account_access is_owner vip_is_active expires now in
      let paid = is_owner || active_vip vip_is_active expires now in
      (has_entitlement account entitlement ≡ paid)
      × (require_report_theme_access account theme ≡ (
          if not (is_theme theme)
          then value_error
          else if is_in theme premium_report_themes && not paid
          then permission_error
          else allowed))
unfolding build_account_access has_entitlement require_report_theme_access
entitled_iff_paid true vip_is_active expires now entitlement theme = (refl, refl)
entitled_iff_paid false vip_is_active expires now entitlement theme =
    elim (Bool-cases (active_vip vip_is_active expires now)) [
      | inl paid ↦ rw paid (refl, refl)
      | inr free_ ↦ rw free_ (refl, refl)
    ]
