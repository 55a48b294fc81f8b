-- ===== src/Control/Effect.antt =====
-- What every command of the user control keeps to.
use chat_pulse.Prelude.{
  ℕ, ◌≤◌, String, ◌≡◌, refl, Bool, true, false, not, ◌⊎◌, inl, inr, Option, none, some, List, [],
  ◌∷◌, ◌++◌, arith, ◌==◌, any, sym, where_, leb, if◌then◌else◌, ◌+◌, ap,
}
use chat_pulse.Prelude.Int.{ℤ}
use chat_pulse.Xp.Store.{User}
use mathlib.Core.Path.{subst}
use chat_pulse.Control.{AdminActor, Permission, can, is_owner, is_not_staff_manage}
use chat_pulse.Control.{users_block, xp_manage, staff_manage, users_notes}
use chat_pulse.Control.Store.{
  Env, UserAdminTag, OwnerAuditLog, Store, Result, Action, err, ok, require_mutable_target,
}
use chat_pulse.Control.Restrict.{block_store, unblock_store, block_user, unblock_user}
use chat_pulse.Control.Adjust.{adjust_xp, adjust_total, adjustment_row, adjust_store}
use chat_pulse.Control.Staff.{StaffRole, role_store, removed_store, set_role, remove_role}
use chat_pulse.Control.Notes.{
  tag_count, tag_row, note_store, tagged_store, untagged_store, is_tag, set_note, add_tag,
  remove_tag, tag_with,
}
use chat_pulse.Control.Commands.{
  Command, block, unblock, adjust, assign, dismiss, annotate, tag_user, untag_user, permission_of,
  stored, run_command,
}
use chat_pulse.Control.Cases.{
  Ensures, raised, returned, Ensures-ok, Ensures-raise_if, Ensures-bind, Ensures-require,
  require_mutable_target-safe,
}

-- The restriction, the role and the totals of a user are those of the store before.
pub record SameUser (s s' : Store) (k : ℕ) : Type 0 where
  pub restriction_same : s'.restrictions k ≡ s.restrictions k
  pub staff_same : s'.staff k ≡ s.staff k
  pub user_same : s'.users k ≡ s.users k
  pub member_same : (chat : ℕ) → s'.members chat k ≡ s.members chat k

-- No user has more than ten tags.
abbrev pub TagsFew : Store → Type 0
TagsFew s = (k : ℕ) → tag_count k s.tags ≤ 10

abbrev pub LoggedBy : AdminActor → ℕ → ℕ → Store → Store → Type 0
LoggedBy actor target current s s' =
    (a : OwnerAuditLog) × (s'.audit ≡ s.audit ++ (a ∷ []))
    × (a.owner_telegram_user_id ≡ actor.telegram_user_id)
    × (a.target_id ≡ target)
    × (a.created_at ≡ current)

pub record Effect (s : Store) (actor : AdminActor) (p : Permission) (target current : ℕ)
    (s' : Store) : Type 0 where
  pub permitted : can actor p ≡ true
  pub owner_kept : s'.owner ≡ s.owner
  pub staff_kept : is_not_staff_manage p ≡ true → s'.staff ≡ s.staff
  pub others_kept : (k : ℕ) → (target == k) ≡ false → SameUser s s' k
  pub owner_safe : is_owner s.owner target ≡ true → SameUser s s' target
  pub tags_few : TagsFew s → TagsFew s'
  pub logged : (s' ≡ s) ⊎ LoggedBy actor target current s s'

same_user :
    {s : Store} (k : ℕ) (s' : Store)
    → s'.restrictions k ≡ s.restrictions k
    → s'.staff k ≡ s.staff k
    → s'.users k ≡ s.users k
    → ((chat : ℕ) → s'.members chat k ≡ s.members chat k)
    → SameUser s s' k
same_user k s' a b c d = record {
  restriction_same = a;
  staff_same = b;
  user_same = c;
  member_same = d;
}

tag_count-append :
    (k : ℕ) (t : UserAdminTag) (l : List UserAdminTag)
    → tag_count k (l ++ (t ∷ []))
      ≡ (if t.telegram_user_id == k then tag_count k l + 1 else tag_count k l)
tag_count-append k t [] = ground arith
tag_count-append k t (x ∷ l) = ground (arith, tag_count-append k t l)

tag_count-where :
    (k : ℕ) (test : UserAdminTag → Bool) (l : List UserAdminTag)
    → tag_count k (where_ test l) ≤ tag_count k l
tag_count-where k test [] = omega arith
tag_count-where k test (x ∷ l) = ground (arith, tag_count-where k test l)

module _ (env : Env) (s : Store) (actor : AdminActor) (target current : ℕ) where
  -- A change that `_require_mutable_target` guards.
  guarded-Effect :
      (p : Permission) (s' : Store) (u : User)
      → can actor p ≡ true
      → require_mutable_target s target ≡ ok u
      → s'.owner ≡ s.owner
      → s'.tags ≡ s.tags
      → (is_not_staff_manage p ≡ true → s'.staff ≡ s.staff)
      → ((k : ℕ) → (target == k) ≡ false → SameUser s s' k)
      → LoggedBy actor target current s s'
      → Effect s actor p target current s'
  guarded-Effect p s' u may found same tags_same staff_same others logged = record {
    permitted = may;
    owner_kept = same;
    staff_kept = staff_same;
    others_kept = others;
    owner_safe = λ own. absurd (cc (require_mutable_target-safe s target u found, own));
    tags_few = λ h k. subst (λ l. tag_count k l ≤ 10) (sym tags_same) (h k);
    logged = inr logged;
  }

  -- A change that touches no restriction, role or total.
  beside-Effect :
      (p : Permission) (s' : Store)
      → can actor p ≡ true
      → s'.owner ≡ s.owner
      → (TagsFew s → TagsFew s')
      → s'.staff ≡ s.staff
      → ((k : ℕ) → SameUser s s' k)
      → (s' ≡ s) ⊎ LoggedBy actor target current s s'
      → Effect s actor p target current s'
  beside-Effect p s' may same few staff_same all logged = record {
    permitted = may;
    owner_kept = same;
    staff_kept = λ _. staff_same;
    others_kept = λ k _. all k;
    owner_safe = λ _. all target;
    tags_few = few;
    logged = logged;
  }

  abbrev Leaves : {A : Type 0} → Permission → Store × A → Type 0
  Leaves p r = Effect s actor p target current r.0

  block_user-Effect :
      (reason : String)
      → Ensures (Leaves users_block) (block_user env s actor target reason current)
  unfolding block_user
  block_user-Effect reason = Ensures-require _ _ λ may. Ensures-bind _ _ λ reason' _.
      Ensures-bind _ _ λ u found. Ensures-raise_if _ _ _ λ _. returned (
        guarded-Effect users_block (block_store actor target reason' current s) u may found refl
          refl (λ _. refl)
          (λ k other.
            same_user k (block_store actor target reason' current s) (rw other refl) refl refl
              (λ chat. refl))
          (_, refl, refl, refl, refl))

  unblock_user-Effect :
      (reason : String)
      → Ensures (Leaves users_block) (unblock_user env s actor target reason current)
  unfolding unblock_user
  unblock_user-Effect reason = Ensures-require _ _ λ may. Ensures-bind _ _ λ reason' _.
      Ensures-bind _ _ λ u found. Ensures-bind _ _ λ row _. returned (
        guarded-Effect users_block (unblock_store actor target reason' current row s) u may found
          refl refl (λ _. refl)
          (λ k other.
            same_user k (unblock_store actor target reason' current row s) (rw other refl) refl refl
              (λ chat. refl))
          (_, refl, refl, refl, refl))

  -- A change of a total touches one row, of the target.
  record Retotaled (s' : Store) : Type 0 where
    owner_same : s'.owner ≡ s.owner
    staff_same : s'.staff ≡ s.staff
    tags_same : s'.tags ≡ s.tags
    audit_same : s'.audit ≡ s.audit
    others_same : (k : ℕ) → (target == k) ≡ false → SameUser s s' k

  adjust_total-Retotaled :
      (amount : ℤ) (chat_id : Option ℕ)
      → Ensures (λ r. Retotaled r.0) (adjust_total env s target amount chat_id)
  unfolding adjust_total
  adjust_total-Retotaled amount none = Ensures-bind _ _ λ u found. Ensures-bind _ _ λ total _.
      returned (record {
        owner_same = refl;
        staff_same = refl;
        tags_same = refl;
        audit_same = refl;
        others_same = λ k other. record {
          restriction_same = refl;
          staff_same = refl;
          user_same = rw other refl;
          member_same = λ chat. refl;
        };
      })
  adjust_total-Retotaled amount (some c) = Ensures-bind _ _ λ m found. Ensures-bind _ _ λ total _.
      returned (record {
        owner_same = refl;
        staff_same = refl;
        tags_same = refl;
        audit_same = refl;
        others_same = λ k other. record {
          restriction_same = refl;
          staff_same = refl;
          user_same = refl;
          member_same = λ chat. ground (arith, other);
        };
      })

  adjust_xp-Effect :
      (amount : ℤ) (reason : String) (chat_id : Option ℕ)
      → Ensures (Leaves xp_manage) (adjust_xp env s actor target amount reason chat_id current)
  unfolding adjust_xp
  adjust_xp-Effect amount reason chat_id = Ensures-require _ _ λ may. Ensures-raise_if _ _ _ λ _.
      Ensures-bind _ _ λ reason' _. Ensures-bind _ _ λ u found. Ensures-bind _ _ λ changed e.
        let t = Ensures-ok changed (adjust_total-Retotaled amount chat_id) e in
        let row = adjustment_row actor target amount reason' chat_id current changed.1 in
        let logged : OwnerAuditLog = record {
          owner_telegram_user_id = actor.telegram_user_id;
          action =
              Action.user_xp_adjusted row.telegram_chat_id row.amount row.previous_total
                row.resulting_total reason';
          target_id = target;
          created_at = current;
        } in
        returned (
          guarded-Effect xp_manage (adjust_store actor target reason' row current changed.0) u may
            found t.owner_same t.tags_same (λ _. t.staff_same)
            (λ k other.
              let kept = t.others_same k other in
              same_user k (adjust_store actor target reason' row current changed.0)
                kept.restriction_same kept.staff_same kept.user_same kept.member_same)
            (
              logged,
              ap (λ (a : List OwnerAuditLog). a ++ (logged ∷ [])) t.audit_same,
              refl,
              refl,
              refl,
            ))

  set_role-Effect :
      (role : StaffRole)
      → Ensures (Effect s actor staff_manage target current) (set_role s actor target role current)
  unfolding set_role
  set_role-Effect role = Ensures-require _ _ λ may. Ensures-bind _ _ λ u found. returned (
      guarded-Effect staff_manage (role_store actor target role current s) u may found refl refl
        (λ h. absurd (cc))
        (λ k other.
          same_user k (role_store actor target role current s) refl (rw other refl) refl
            (λ chat. refl))
        (_, refl, refl, refl, refl))

  remove_role-Effect :
      (reason : String)
      → Ensures
          (Effect s actor staff_manage target current)
          (remove_role env s actor target reason current)
  unfolding remove_role
  remove_role-Effect reason = Ensures-require _ _ λ may. Ensures-bind _ _ λ reason' _.
      Ensures-bind _ _ λ u found. Ensures-bind _ _ λ staff _. returned (
        guarded-Effect staff_manage (removed_store actor target reason' current staff s) u may found
          refl refl (λ h. absurd (cc))
          (λ k other.
            same_user k (removed_store actor target reason' current staff s) refl (rw other refl)
              refl (λ chat. refl))
          (_, refl, refl, refl, refl))

  unchanged_user :
      (s' : Store)
      → s'.restrictions ≡ s.restrictions
      → s'.staff ≡ s.staff
      → s'.users ≡ s.users
      → s'.members ≡ s.members
      → (k : ℕ) → SameUser s s' k
  unchanged_user s' a b c d k =
      same_user k s' (ap (λ t. t k) a) (ap (λ t. t k) b) (ap (λ t. t k) c)
        (λ chat. ap (λ t. t chat k) d)

  set_note-Effect :
      (note : String)
      → Ensures
          (Effect s actor users_notes target current)
          (set_note env s actor target note current)
  unfolding set_note
  set_note-Effect note = Ensures-require _ _ λ may. Ensures-raise_if _ _ _ λ _.
      Ensures-bind _ _ λ u _. returned (
        beside-Effect users_notes (note_store env actor target (env.strip note) current s) may refl
          (λ h. h) refl
          (unchanged_user (note_store env actor target (env.strip note) current s) refl refl refl
            refl)
          (inr (_, refl, refl, refl, refl)))

  tagged-TagsFew :
      (tag : String)
      → leb 10 (tag_count target s.tags) ≡ false
      → TagsFew s
      → TagsFew (tagged_store actor target tag current s)
  tagged-TagsFew tag full h k =
      ground (arith, h k, tag_count-append k (tag_row actor target tag current) s.tags)

  untagged-TagsFew :
      (tag : String) → TagsFew s → TagsFew (untagged_store actor target tag current s)
  untagged-TagsFew tag h k =
      omega (arith, h k, tag_count-where k (λ t. not (is_tag target tag t)) s.tags)

  tag_with-Effect :
      (there : Bool) (tag : String)
      → can actor users_notes ≡ true
      → Ensures
          (Effect s actor users_notes target current)
          (tag_with there s actor target tag current)
  unfolding tag_with
  tag_with-Effect true tag may = returned (
      beside-Effect users_notes s may refl (λ h. h) refl (unchanged_user s refl refl refl refl)
        (inl refl))
  tag_with-Effect false tag may = Ensures-raise_if _ _ _ λ full. returned (
      beside-Effect users_notes (tagged_store actor target tag current s) may refl
        (tagged-TagsFew tag full) refl
        (unchanged_user (tagged_store actor target tag current s) refl refl refl refl)
        (inr (_, refl, refl, refl, refl)))

  add_tag-Effect :
      (tag : String)
      → Ensures (Effect s actor users_notes target current) (add_tag env s actor target tag current)
  unfolding add_tag
  add_tag-Effect tag = Ensures-require _ _ λ may.
      Ensures-bind _ _
        λ tag' _. Ensures-bind _ _ λ u _. tag_with-Effect (any (is_tag target tag') s.tags) tag' may

  remove_tag-Effect :
      (tag : String)
      → Ensures
          (Effect s actor users_notes target current)
          (remove_tag env s actor target tag current)
  unfolding remove_tag
  remove_tag-Effect tag = Ensures-require _ _ λ may. Ensures-bind _ _ λ tag' _.
      Ensures-bind _ _ λ u _. Ensures-raise_if _ _ _ λ _. returned (
        beside-Effect users_notes (untagged_store actor target tag' current s) may refl
          (untagged-TagsFew tag') refl
          (unchanged_user (untagged_store actor target tag' current s) refl refl refl refl)
          (inr (_, refl, refl, refl, refl)))

  stored-Effect :
      {A : Type 0} (p : Permission) (r : Result (Store × A))
      → Ensures (Leaves p) r
      → Ensures (Effect s actor p target current) (stored r)
  stored-Effect p (err e) h = raised
  stored-Effect p (ok (s', a)) h = returned (Ensures-ok (s', a) h refl)

  -- A command that succeeds was permitted by the actor's permissions. It leaves who the owner is,
  -- changes the staff only with `staff.manage`, no restriction, role or total of anybody but its
  -- target, and none at all of the owner; and it writes exactly one audit row, with the actor, the
  -- target and the time, unless it changes nothing at all.
  pub run_command-Effect :
      (c : Command)
      → Ensures
          (Effect s actor (permission_of c) target current)
          (run_command env s actor target c current)
  unfolding run_command
  run_command-Effect (block reason) = stored-Effect users_block _ (block_user-Effect reason)
  run_command-Effect (unblock reason) = stored-Effect users_block _ (unblock_user-Effect reason)
  run_command-Effect (adjust amount reason chat_id) =
      stored-Effect xp_manage _ (adjust_xp-Effect amount reason chat_id)
  run_command-Effect (assign role) = set_role-Effect role
  run_command-Effect (dismiss reason) = remove_role-Effect reason
  run_command-Effect (annotate note) = set_note-Effect note
  run_command-Effect (tag_user name) = add_tag-Effect name
  run_command-Effect (untag_user name) = remove_tag-Effect name
