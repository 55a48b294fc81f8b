-- ===== src/Control/Safety.antt =====
-- What no sequence of requests of the staff can do.
use chat_pulse.Prelude.{
  ℕ, ◌≡◌, refl, ◌∙◌, sym, ap, Bool, true, false, inl, inr, Option, none, some, List, [], ◌∷◌, ◌==◌,
  ==_iff, arith, Bool-cases, All, String, get_or, if◌then◌else◌,
}
use mathlib.Core.Path.{subst}
use chat_pulse.Control.{
  AdminRole, owner, admin, moderator, support, AdminActor, AdminStaff, Permission, can, is_owner,
  is_not_staff_manage, role_permissions, staff_role, named_actor, staff_actor, resolve_admin_actor,
  staff_manage, users_view,
}
use chat_pulse.Control.Store.{Env, Store, Result, err, ok}
use chat_pulse.Control.Commands.{
  permission_of, run_command, Request, committed, served_as, serve, serve_all,
}
use chat_pulse.Control.Cases.{Ensures, Ensures-ok}
use chat_pulse.Control.Effect.{SameUser, TagsFew, Effect, run_command-Effect}

SameUser-refl : (s : Store) (k : ℕ) → SameUser s s k
SameUser-refl s k = record {
  restriction_same = refl;
  staff_same = refl;
  user_same = refl;
  member_same = λ chat. refl;
}

SameUser-trans : (s t u : Store) (k : ℕ) → SameUser s t k → SameUser t u k → SameUser s u k
SameUser-trans s t u k a b = record {
  restriction_same = b.restriction_same ∙ a.restriction_same;
  staff_same = b.staff_same ∙ a.staff_same;
  user_same = b.user_same ∙ a.user_same;
  member_same = λ chat. b.member_same chat ∙ a.member_same chat;
}

-- The owner is who it was, and has the rows that were there.
abbrev OwnerKept : ℕ → Store → Store → Type 0
OwnerKept o s s' = (s'.owner ≡ s.owner) × SameUser s s' o

Effect-owner :
    (s s' : Store) (actor : AdminActor) (p : Permission) (target current o : ℕ)
    → is_owner s.owner o ≡ true
    → Effect s actor p target current s'
    → OwnerKept o s s'
Effect-owner s s' actor p target current o own e = elim (Bool-cases (target == o)) [
  | inl same ↦
      let e' : target ≡ o = (==_iff target o).0 same in
      (e.owner_kept, subst (SameUser s s') e' (e.owner_safe (rw e' own)))
  | inr other ↦ (e.owner_kept, e.others_kept o other)
]

-- A request leaves the store, or what its command leaves for the actor that was resolved.
served_as-holds :
    (P : Store → Type 0) (env : Env) (s : Store) (o : Option AdminActor) (r : Request)
    → P s
    → ((actor : AdminActor) (s' : Store)
        → o ≡ some actor
        → Effect s actor (permission_of r.command) r.target r.current s'
        → P s')
    → P (served_as env s o r)
served_as-holds P env s none r same changed = same
served_as-holds P env s (some actor) r same changed =
    after (run_command env s actor r.target r.command r.current)
      (run_command-Effect env s actor r.target r.current r.command)
  where
    after :
        (o : Result Store)
        → Ensures (Effect s actor (permission_of r.command) r.target r.current) o
        → P (committed s o)
    after (err e) h = same
    after (ok s') h = changed actor s' refl (Ensures-ok s' h refl)

serve-OwnerKept :
    (env : Env) (s : Store) (o : ℕ) (r : Request)
    → is_owner s.owner o ≡ true
    → OwnerKept o s (serve env s r)
unfolding serve
serve-OwnerKept env s o r own =
    served_as-holds (OwnerKept o s) env s (resolve_admin_actor s.owner (s.staff r.sender) r.sender)
      r (refl, SameUser-refl s o)
      (λ actor s' _ e. Effect-owner s s' actor (permission_of r.command) r.target r.current o own e)

-- Whatever requests are served, sent by whomever, the owner stays the owner, and keeps the XP
-- totals and levels, the memberships, the restriction and the staff row that were there.
pub owner_is_safe :
    (env : Env) (s : Store) (o : ℕ) (l : List Request)
    → is_owner s.owner o ≡ true
    → ((serve_all env s l).owner ≡ s.owner) × SameUser s (serve_all env s l) o
unfolding serve_all
owner_is_safe env s o [] own = (refl, SameUser-refl s o)
owner_is_safe env s o (r ∷ l) own =
    let (kept, same) = serve-OwnerKept env s o r own in
    let (kept', same') =
      owner_is_safe env (serve env s r) o l (ap (λ w. is_owner w o) kept ∙ own) in
    (kept' ∙ kept, SameUser-trans s (serve env s r) (serve_all env (serve env s r) l) o same same')

-- Nobody but the owner may change the staff.
role_permissions-staff :
    (name : String) (role : AdminRole)
    → staff_role name ≡ some role
    → role_permissions role staff_manage ≡ false
unfolding staff_role role_permissions
role_permissions-staff name owner e = ground arith
role_permissions-staff name admin e = refl
role_permissions-staff name moderator e = refl
role_permissions-staff name support e = refl

named_actor-staff :
    (user : ℕ) (name : String) (o : Option AdminRole) (actor : AdminActor)
    → staff_role name ≡ o
    → named_actor user o ≡ some actor
    → can actor staff_manage ≡ false
named_actor-staff user name none actor named e = absurd (cc)
named_actor-staff user name (some role) actor named e =
    subst (λ o. can (get_or o actor) staff_manage ≡ false) e
      (role_permissions-staff name role named)

staff_actor-staff :
    (user : ℕ) (row : Option AdminStaff) (actor : AdminActor)
    → staff_actor user row ≡ some actor
    → can actor staff_manage ≡ false
unfolding staff_actor
staff_actor-staff user none actor e = absurd (cc)
staff_actor-staff user (some row) actor e = active row.is_active e
  where
    active :
        (b : Bool)
        → (if b then named_actor user (staff_role row.role) else none) ≡ some actor
        → can actor staff_manage ≡ false
    active true e' = named_actor-staff user row.role (staff_role row.role) actor refl e'
    active false e' = absurd (cc)

resolved-staff :
    (s : Store) (sender : ℕ) (actor : AdminActor)
    → is_owner s.owner sender ≡ false
    → resolve_admin_actor s.owner (s.staff sender) sender ≡ some actor
    → can actor staff_manage ≡ false
unfolding resolve_admin_actor
resolved-staff s sender actor other e =
    staff_actor-staff sender (s.staff sender) actor (rw other at e)

-- A command that does not need `staff.manage` was given, by who may not.
staff_or_not :
    (p : Permission) (actor : AdminActor)
    → can actor staff_manage ≡ false
    → can actor p ≡ true
    → is_not_staff_manage p ≡ true
staff_or_not staff_manage actor no_ yes_ = absurd (cc)
staff_or_not users_view actor no_ yes_ = refl
staff_or_not _ actor no_ yes_ = refl

serve-staff :
    (env : Env) (s : Store) (r : Request)
    → is_owner s.owner r.sender ≡ false
    → ((serve env s r).owner ≡ s.owner) × ((serve env s r).staff ≡ s.staff)
unfolding serve
serve-staff env s r other =
    served_as-holds (λ s'. (s'.owner ≡ s.owner) × (s'.staff ≡ s.staff)) env s
      (resolve_admin_actor s.owner (s.staff r.sender) r.sender) r (refl, refl)
      (λ actor s' found e. (
        e.owner_kept,
        e.staff_kept (
            staff_or_not (permission_of r.command) actor
              (resolved-staff s r.sender actor other found) e.permitted),
      ))

-- Requests whose senders are not the owner leave the staff as it is: no role is given, changed or
-- taken away by anybody of the staff, in any order of requests.
pub staff_cannot_change_staff :
    (env : Env) (s : Store) (l : List Request)
    → All (λ r. is_owner s.owner r.sender ≡ false) l
    → (serve_all env s l).staff ≡ s.staff
unfolding serve_all
staff_cannot_change_staff env s [] h = refl
staff_cannot_change_staff env s (r ∷ l) (h, hs) =
    let (kept, same) = serve-staff env s r h in
    staff_cannot_change_staff env (serve env s r) l
      (subst (λ w. All (λ (q : Request). is_owner w q.sender ≡ false) l) (sym kept) hs)
    ∙ same

serve-TagsFew : (env : Env) (s : Store) (r : Request) → TagsFew s → TagsFew (serve env s r)
unfolding serve
serve-TagsFew env s r few =
    served_as-holds TagsFew env s (resolve_admin_actor s.owner (s.staff r.sender) r.sender) r few
      (λ actor s' _ e. e.tags_few few)

-- Whatever requests are served, no user ever has more than ten tags, if none had before.
serve_all-TagsFew :
    (env : Env) (s : Store) (l : List Request) → TagsFew s → TagsFew (serve_all env s l)
unfolding serve_all
serve_all-TagsFew env s [] few = few
serve_all-TagsFew env s (r ∷ l) few =
    serve_all-TagsFew env (serve env s r) l (serve-TagsFew env s r few)
