-- ===== src/Control/Ledger.antt =====
-- Corrections of XP, and blocking and unblocking.
use chat_pulse.Prelude.{
  ℕ, ◌+◌, ◌≤◌, ◌≡◌, refl, ◌∙◌, ap, String, true, false, ◌&&◌, Option, none, some, List, [], ◌∷◌,
  ◌++◌, ltb, ◌==◌, ==_iff, arith, if◌then◌else◌, Table, Table2,
}
use chat_pulse.Prelude.Int.{ℤ, pos, pos_part, neg_part, ◌+ℤ◌}
use chat_pulse.Xp.Store.{User, GroupMember}
use chat_pulse.Control.{AdminActor}
use chat_pulse.Control.Store.{Env, UserXpAdjustment, Store, Error, ok, or_raise, level_for_xp}
use chat_pulse.Control.Adjust.{
  resulting_of, with_global_xp, with_group_xp, adjust_total, adjustment_row, adjust_store,
  adjust_xp,
}
use chat_pulse.Control.Cases.{
  Ensures, returned, Ensures-ok, Ensures-raise_if, Ensures-bind, Ensures-require,
}

abbrev user_total : Option User → Option (ℕ × ℕ)
user_total none = none
user_total (some u) = some (u.global_xp_total, u.global_level)

abbrev member_total : Option GroupMember → Option (ℕ × ℕ)
member_total none = none
member_total (some m) = some (m.xp_total, m.level)

-- The total and the level that a correction is about: a user's, or a member's in a chat.
abbrev pub total_of : Store → ℕ → Option ℕ → Option (ℕ × ℕ)
total_of s user none = user_total (s.users user)
total_of s user (some chat) = member_total (s.members chat user)

or_raise-some : {A : Type 0} (o : Option A) (e : Error) (a : A) → or_raise o e ≡ ok a → o ≡ some a
or_raise-some none e a h = absurd (cc)
or_raise-some (some b) e a h = cc

-- What a correction of `amount` did to the tables, with the row that it wrote.
pub record Corrects (env : Env) (s : Store) (user : ℕ) (amount : ℤ) (chat : Option ℕ) (s' : Store)
    (previous resulting : ℕ) : Type 0 where
  pub sum : pos resulting ≡ pos previous +ℤ amount
  pub before : (level : ℕ) × (total_of s user chat ≡ some (previous, level))
  pub after : total_of s' user chat ≡ some (resulting, level_for_xp env resulting)
  pub ledger_same : s'.adjustments ≡ s.adjustments

self_eq : (n : ℕ) → (n == n) ≡ true
self_eq n = (==_iff n n).1 refl

self_eq2 : (a b : ℕ) → ((a == a) && (b == b)) ≡ true
self_eq2 a b = ground (arith, self_eq a, self_eq b)

total_of-same :
    (s s' : Store) (user : ℕ) (chat : Option ℕ)
    → s'.users ≡ s.users
    → s'.members ≡ s.members
    → total_of s' user chat ≡ total_of s user chat
total_of-same s s' user none hu hm = ap (λ (t : Table User). user_total (t user)) hu
total_of-same s s' user (some chat) hu hm =
    ap (λ (t : Table2 GroupMember). member_total (t chat user)) hm

-- What is left of a sum that is not negative.
resulting_sum :
    (previous : ℕ) (amount : ℤ)
    → Ensures (λ r. pos r ≡ pos previous +ℤ amount) (resulting_of previous amount)
resulting_sum previous amount =
    Ensures-raise_if _ _ _ λ h. returned (whole (pos previous +ℤ amount) h)
  where
    whole : (z : ℤ) → ltb 0 (neg_part z) ≡ false → pos (pos_part z) ≡ z
    whole (pos n) h = refl
    whole (ℤ.negsuc n) h = ground (arith)

module _ (env : Env) (s : Store) (user : ℕ) (amount : ℤ) where
  adjust_total-Corrects :
      (chat : Option ℕ)
      → Ensures
          (λ r. Corrects env s user amount chat r.0 r.1.0 r.1.1)
          (adjust_total env s user amount chat)
  unfolding adjust_total
  adjust_total-Corrects none = Ensures-bind _ _ λ u found. Ensures-bind _ _ λ total e.
      returned (record {
        sum = Ensures-ok total (resulting_sum u.global_xp_total amount) e;
        before = (u.global_level, ap user_total (or_raise-some (s.users user) _ u found));
        after =
            ap (λ b. user_total (if b then some (with_global_xp env u total) else s.users user))
              (self_eq user);
        ledger_same = refl;
      })
  adjust_total-Corrects (some chat) = Ensures-bind _ _ λ m found. Ensures-bind _ _ λ total e.
      returned (record {
        sum = Ensures-ok total (resulting_sum m.xp_total amount) e;
        before = (m.level, ap member_total (or_raise-some (s.members chat user) _ m found));
        after =
            ap
              (λ b.
                member_total (if b then some (with_group_xp env m total) else s.members chat user))
              (self_eq2 chat user);
        ledger_same = refl;
      })

-- A correction that succeeds is between 1 and 100000 up or down. It appends one row to the ledger,
-- whose previous total is the one that stood there, and whose resulting total is their exact sum,
-- never negative; the user, or the member of the chat that is given, then has that total and the
-- level of it.
pub adjust_xp_law :
    (env : Env) (s : Store) (actor : AdminActor) (user : ℕ) (amount : ℤ) (reason : String)
    (chat : Option ℕ) (current : ℕ)
    → Ensures
        (λ ((s', row) : Store × UserXpAdjustment).
          (1 ≤ pos_part amount + neg_part amount)
          × (pos_part amount + neg_part amount ≤ 100000)
          × (s'.adjustments ≡ s.adjustments ++ (row ∷ []))
          × (pos row.resulting_total ≡ pos row.previous_total +ℤ amount)
          × ((level : ℕ) × (total_of s user chat ≡ some (row.previous_total, level)))
          × (total_of s' user chat
              ≡ some (row.resulting_total, level_for_xp env row.resulting_total)))
        (adjust_xp env s actor user amount reason chat current)
unfolding adjust_xp
adjust_xp_law env s actor user amount reason chat current = Ensures-require _ _ λ may.
    Ensures-raise_if _ _ _ λ fits. Ensures-bind _ _ λ reason' _. Ensures-bind _ _ λ u _.
      Ensures-bind _ _ λ changed e.
        let c = Ensures-ok changed (adjust_total-Corrects env s user amount chat) e in
        let row = adjustment_row actor user amount reason' chat current changed.1 in
        returned (
          ground (arith, fits),
          ground (arith, fits),
          ap (λ (l : List UserXpAdjustment). l ++ (row ∷ [])) c.ledger_same,
          c.sum,
          c.before,
          total_of-same changed.0 (adjust_store actor user reason' row current changed.0) user chat
                refl refl
              ∙ c.after,
        )
