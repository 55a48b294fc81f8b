-- ===== src/Control/Tests.antt =====
-- Runs and witnesses for the user control.
use chat_pulse.Prelude.{
  ℕ, ◌/◌, ◌≡◌, refl, ◌≤◌, true, false, Option, none, some, List, [], ◌∷◌, String, str_eq, ◌==◌,
  if◌then◌else◌, length,
}
use chat_pulse.Prelude.Int.{pos, negsuc, ◌+ℤ◌}
use chat_pulse.Control.{
  AdminStaff, admin, moderator, actor_of, role_permissions, staff_role, staff_actor,
  resolve_admin_actor, users_block,
}
use chat_pulse.Control.Store.{
  Env, Store, UserRestriction, UserXpAdjustment, Source, level_for_xp, ◌>>=◌,
}
use chat_pulse.Control.Restrict.{blocked, is_blocked, block_user, record_blocked_access}
use chat_pulse.Control.Adjust.{adjust_total, adjust_xp}
use chat_pulse.Control.Staff.{StaffRole, set_role}
use chat_pulse.Control.Notes.{add_tag, tag_with}
use chat_pulse.Control.Commands.{
  block, adjust, assign, tag_user, run_command, Request, serve, serve_all,
}
use chat_pulse.Control.Cases.{Ensures}
use chat_pulse.Control.Effect.{SameUser, Effect, run_command-Effect}
use chat_pulse.Control.Safety.{owner_is_safe, staff_cannot_change_staff}
use chat_pulse.Control.Ledger.{total_of, adjust_xp_law}
use chat_pulse.Control.Blocking.{
  Blocks, block_user_law, attempts_of, rows_of, record_blocked_access_law,
}

abbrev env : Env
env = record {
  strip = λ t. t;
  folded = λ t. t;
  len = λ t. if str_eq t "" then 0 else 5;
  estimate = λ total. total / 100;
}

abbrev staff_row : ℕ → String → AdminStaff
staff_row user role = record {
  telegram_user_id = user;
  role = role;
  is_active = true;
  granted_by_owner_id = 1;
  created_at = 0;
  updated_at = 0;
}

-- The owner is 1, an administrator 2, a moderator 3.
abbrev team : ℕ → Option AdminStaff
team user =
    if user == 2
    then some (staff_row 2 "admin")
    else if user == 3
    then some (staff_row 3 "moderator")
    else none

abbrev s : Store
s = record {
  owner = some 1;
  users = λ u. some record { telegram_id = u; global_xp_total = 250; global_level = 2 };
  members = λ c u. none;
  staff = team;
  restrictions = λ u. none;
  notes = λ u. none;
  tags = [];
  adjustments = [];
  attempts = [];
  audit = [];
}

-- The moderator blocks a user and tries to correct XP; the administrator tries to block the owner
-- and to give a role.
abbrev requests : List Request
requests =
    record { sender = 3; target = 5; command = block "spam!"; current = 10 }
    ∷ record { sender = 3; target = 5; command = adjust (pos 10) "gift" none; current = 11 }
    ∷ record { sender = 2; target = 1; command = block "hello"; current = 12 }
    ∷ record { sender = 2; target = 2; command = assign StaffRole.admin; current = 13 }
    ∷ record { sender = 2; target = 5; command = adjust (negsuc 49) "abuse" none; current = 14 }
    ∷ record { sender = 3; target = 5; command = tag_user "spammer"; current = 15 }
    ∷ []

-- Of the six, three are done.
serve_all-run :
    let s' = serve_all env s requests in
    (is_blocked s' 5 ≡ true)
    × (is_blocked s' 1 ≡ false)
    × (total_of s' 5 none ≡ some (200, 2))
    × (length s'.audit ≡ 3)
unfolding serve_all serve run_command resolve_admin_actor staff_actor staff_role role_permissions
    block_user blocked adjust_xp adjust_total set_role add_tag tag_with ◌>>=◌ ◌+ℤ◌
serve_all-run = (refl, refl, refl, refl)

owner_is_safe_example :
    ((serve_all env s requests).owner ≡ some 1) × SameUser s (serve_all env s requests) 1
owner_is_safe_example = owner_is_safe env s 1 requests refl

staff_cannot_change_staff_example : (serve_all env s requests).staff ≡ team
staff_cannot_change_staff_example =
    staff_cannot_change_staff env s requests (refl, (refl, (refl, (refl, (refl, (refl, tt))))))

run_command-Effect_example :
    Ensures
      (Effect s (actor_of 3 moderator) users_block 5 10)
      (run_command env s (actor_of 3 moderator) 5 (block "spam!") 10)
run_command-Effect_example = run_command-Effect env s (actor_of 3 moderator) 5 10 (block "spam!")

adjust_xp_law_example :
    Ensures
      (λ ((s', row) : Store × UserXpAdjustment).
        (1 ≤ 50)
        × (50 ≤ 100000)
        × (s'.adjustments ≡ row ∷ [])
        × (pos row.resulting_total ≡ pos row.previous_total +ℤ negsuc 49)
        × ((level : ℕ) × (total_of s 5 none ≡ some (row.previous_total, level)))
        × (total_of s' 5 none ≡ some (row.resulting_total, level_for_xp env row.resulting_total)))
      (adjust_xp env s (actor_of 2 admin) 5 (negsuc 49) "abuse" none 14)
adjust_xp_law_example = adjust_xp_law env s (actor_of 2 admin) 5 (negsuc 49) "abuse" none 14

block_user_law_example :
    Ensures
      (λ ((s', row) : Store × UserRestriction). Blocks env s 5 s' row)
      (block_user env s (actor_of 3 moderator) 5 "spam!" 10)
block_user_law_example = block_user_law env s (actor_of 3 moderator) 5 10 "spam!"

record_blocked_access_law_example :
    let s' = record_blocked_access s 5 Source.miniapp 1300 in
    (attempts_of 5 Source.miniapp 2 s'.attempts ≡ 1) × (rows_of 5 Source.miniapp 2 s'.attempts ≡ 1)
record_blocked_access_law_example =
    record_blocked_access_law s 5 Source.miniapp 1300 5 Source.miniapp 2
