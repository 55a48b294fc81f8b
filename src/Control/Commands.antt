-- ===== src/Control/Commands.antt =====
-- The requests of app/api/owner/users.py that change a user, each through the actor that
-- app/api/owner/dependencies.py resolves for whoever sends it.
use chat_pulse.Prelude.{ℕ, String, Option, none, some, List, [], ◌∷◌}
use chat_pulse.Prelude.Int.{ℤ}
use chat_pulse.Control.{
  AdminActor, Permission, users_block, xp_manage, staff_manage, users_notes, resolve_admin_actor,
}
use chat_pulse.Control.Store.{Env, Store, Result, err, ok}
use chat_pulse.Control.Restrict.{block_user, unblock_user}
use chat_pulse.Control.Adjust.{adjust_xp}
use chat_pulse.Control.Staff.{StaffRole, set_role, remove_role}
use chat_pulse.Control.Notes.{set_note, add_tag, remove_tag}

pub data Command : Type 0 where
  block unblock : String → Command
  adjust : ℤ → String → Option ℕ → Command
  assign : StaffRole → Command
  dismiss : String → Command
  annotate : String → Command
  tag_user untag_user : String → Command

-- The permission that the method of the command requires.
abbrev pub permission_of : Command → Permission
permission_of (block _) = users_block
permission_of (unblock _) = users_block
permission_of (adjust _ _ _) = xp_manage
permission_of (assign _) = staff_manage
permission_of (dismiss _) = staff_manage
permission_of (annotate _) = users_notes
permission_of (tag_user _) = users_notes
permission_of (untag_user _) = users_notes

-- The tables that a method leaves, without its answer.
abbrev pub stored : {A : Type 0} → Result (Store × A) → Result Store
stored (err e) = err e
stored (ok (s, a)) = ok s

unfoldable pub run_command : Env → Store → AdminActor → ℕ → Command → ℕ → Result Store
run_command env s actor target (block reason) current =
    stored (block_user env s actor target reason current)
run_command env s actor target (unblock reason) current =
    stored (unblock_user env s actor target reason current)
run_command env s actor target (adjust amount reason chat_id) current =
    stored (adjust_xp env s actor target amount reason chat_id current)
run_command env s actor target (assign role) current = set_role s actor target role current
run_command env s actor target (dismiss reason) current =
    remove_role env s actor target reason current
run_command env s actor target (annotate note) current = set_note env s actor target note current
run_command env s actor target (tag_user name) current = add_tag env s actor target name current
run_command env s actor target (untag_user name) current =
    remove_tag env s actor target name current

pub record Request : Type 0 where
  pub sender : ℕ
  pub target : ℕ
  pub command : Command
  pub current : ℕ

-- An error rolls the transaction back.
abbrev pub committed : Store → Result Store → Store
committed s (err e) = s
committed s (ok s') = s'

-- `get_admin_actor` and then the command; whoever is not of the staff is answered 403.
abbrev pub served_as : Env → Store → Option AdminActor → Request → Store
served_as env s none r = s
served_as env s (some actor) r = committed s (run_command env s actor r.target r.command r.current)

unfoldable pub serve : Env → Store → Request → Store
unfolding run_command
serve env s r = served_as env s (resolve_admin_actor s.owner (s.staff r.sender) r.sender) r

unfoldable pub serve_all : Env → Store → List Request → Store
unfolding serve
serve_all env s [] = s
serve_all env s (r ∷ l) = serve_all env (serve env s r) l
