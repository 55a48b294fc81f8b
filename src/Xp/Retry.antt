-- ===== src/Xp/Retry.antt =====
-- Awarding one message again.
use chat_pulse.Prelude.{
  lt→ltb, ap, ◌&&◌, ℕ, ◌<◌, ◌≡◌, refl, true, Option, none, some, List, [], ◌∷◌, Bool-cases, inl,
  inr, ltb, ◌==◌, is_some, arith,
}
use chat_pulse.Antispam.{MessageActivity}
use chat_pulse.Xp.Store.{
  Env, ChatGroup, User, GroupMember, MessageAuthor, Store, GamificationUpdate, Context, author_of,
  set_author, is_message,
}
use chat_pulse.Xp.Pay.{lock_from, lock_xp_context, apply_xp}
use chat_pulse.Xp.Message.{
  award_in_context, award_from, awarded, stamped, requested_xp_of, recent_messages,
  award_message_xp, award_message_xp-cases, unchanged,
}

pub author_of-set_author :
    (chat_id message_id : ℕ) (row : MessageAuthor) (l : List MessageAuthor)
    → is_message chat_id message_id row ≡ true
    → author_of chat_id message_id (set_author chat_id message_id row l)
      ≡ elim (author_of chat_id message_id l) [ none ↦ none | some _ ↦ some row ]
unfolding author_of set_author
author_of-set_author chat_id message_id row [] h = refl
author_of-set_author chat_id message_id row (a ∷ l) h =
    ground (arith, author_of-set_author chat_id message_id row l h)

pub author_of-is_message :
    (chat_id message_id : ℕ) (l : List MessageAuthor) (a : MessageAuthor)
    → author_of chat_id message_id l ≡ some a
    → is_message chat_id message_id a ≡ true
unfolding author_of
author_of-is_message chat_id message_id [] a h = ground arith
author_of-is_message chat_id message_id (b ∷ l) a h =
    ground (arith, author_of-is_message chat_id message_id l a)

lock_from-inv :
    (g : Option ChatGroup) (u : Option User) (m : Option GroupMember) (a : Option MessageAuthor)
    (c : Context)
    → lock_from g u m a ≡ some c
    → (g ≡ some c.group) × (u ≡ some c.user) × (m ≡ some c.member) × (a ≡ some c.author)
unfolding lock_from
lock_from-inv (some g) (some u) (some m) (some a) c h = (cc, cc, cc, cc)
lock_from-inv _ _ _ _ c h = (cc, cc, cc, cc)

lock_from-some :
    (g : Option ChatGroup) (u : Option User) (m : Option GroupMember) (a : MessageAuthor)
    → is_some g ≡ true
    → is_some u ≡ true
    → is_some m ≡ true
    → (c : Context) × (lock_from g u m (some a) ≡ some c) × (c.author ≡ a)
unfolding lock_from
lock_from-some (some g) (some u) (some m) a hg hu hm =
    (record { group = g; user = u; member = m; author = a }, refl, refl)
lock_from-some none u m a hg hu hm = cc
lock_from-some (some g) none m a hg hu hm = cc
lock_from-some (some g) (some u) none a hg hu hm = cc

-- An award deletes no group, user or member.
module _ (env : Env) (s : Store) (g : ChatGroup) (m : GroupMember) (u : User)
    (requested timestamp : ℕ) where
  apply_xp-groups : (apply_xp env s g m u requested timestamp).0.groups ≡ s.groups
  unfolding apply_xp
  apply_xp-groups = refl

  apply_xp-users :
      (k : ℕ)
      → is_some (s.users k) ≡ true
      → is_some ((apply_xp env s g m u requested timestamp).0.users k) ≡ true
  unfolding apply_xp
  apply_xp-users k h = elim (Bool-cases (u.telegram_id == k)) [
    | inl same ↦ rw same
    | inr other ↦ rw other h
  ]

  apply_xp-members :
      (c k : ℕ)
      → is_some (s.members c k) ≡ true
      → is_some ((apply_xp env s g m u requested timestamp).0.members c k) ≡ true
  unfolding apply_xp
  apply_xp-members c k h =
      elim (Bool-cases ((m.telegram_chat_id == c) && (m.telegram_user_id == k))) [
        | inl same ↦ rw same
        | inr other ↦ rw other h
      ]

module _ (env : Env) (s : Store) (chat_id user_id message_id : ℕ) (activity : MessageActivity)
    (timestamp : ℕ) where
  -- After an award the four rows are there, and the author row carries the XP.
  awarded-lock :
      (c : Context)
      → lock_xp_context s chat_id user_id message_id ≡ some c
      → let (s', update) = awarded env s c chat_id user_id message_id activity timestamp in
        (c' : Context) × (lock_xp_context s' chat_id user_id message_id ≡ some c')
        × (c'.author.xp_awarded ≡ update.group_xp_awarded)
  unfolding lock_xp_context awarded stamped
  awarded-lock c e =
      let (eg, eu, em, ea) =
        lock_from-inv (s.groups chat_id) (s.users user_id) (s.members chat_id user_id)
          (author_of chat_id message_id s.authors) c e in
      let xp : ℕ =
        requested_xp_of activity timestamp
          (recent_messages s.authors chat_id user_id message_id timestamp) in
      let paid = apply_xp env s c.group c.member c.user xp timestamp in
      let row : MessageAuthor = stamped activity paid.1.group_xp_awarded c.author in
      let mine : is_message chat_id message_id row ≡ true =
        author_of-is_message chat_id message_id s.authors c.author ea in
      let (c', locked, same) =
        lock_from-some (paid.0.groups chat_id) (paid.0.users user_id)
          (paid.0.members chat_id user_id) row
          (rw (apply_xp-groups env s c.group c.member c.user xp timestamp, eg))
          (apply_xp-users env s c.group c.member c.user xp timestamp user_id (rw eu))
          (apply_xp-members env s c.group c.member c.user xp timestamp chat_id user_id (rw em)) in
      (
        c',
        rw (author_of-set_author chat_id message_id row s.authors mine, ea) locked,
        ap (λ (a : MessageAuthor). a.xp_awarded) same,
      )

-- What a second award of the message finds: a row with XP.
awarded_before :
    (env : Env) (s : Store) (chat_id user_id message_id : ℕ) (activity : MessageActivity)
    (timestamp : ℕ) (c : Context)
    → lock_xp_context s chat_id user_id message_id ≡ some c
    → 0 < c.author.xp_awarded
    → award_message_xp env s chat_id user_id message_id activity timestamp ≡ (s, unchanged c)
unfolding award_message_xp award_in_context
awarded_before env s chat_id user_id message_id activity timestamp c e h =
    let done : ltb 0 c.author.xp_awarded ≡ true = lt→ltb 0 _ h in rw (e, award_from, done)

-- What is claimed of the result `r` of a first award.
abbrev Settled : Env → ℕ → ℕ → ℕ → MessageActivity → ℕ → Store × GamificationUpdate → Type 0
Settled env chat_id user_id message_id activity timestamp r =
    0 < r.1.group_xp_awarded
    → let (s'', update) = award_message_xp env r.0 chat_id user_id message_id activity timestamp in
      (s'' ≡ r.0) × (update.group_xp_awarded ≡ 0) × (update.global_xp_awarded ≡ 0)

Settled-of_lock :
    (env : Env) (chat_id user_id message_id : ℕ) (activity : MessageActivity) (timestamp : ℕ)
    (r : Store × GamificationUpdate) (c : Context)
    → lock_xp_context r.0 chat_id user_id message_id ≡ some c
    → c.author.xp_awarded ≡ r.1.group_xp_awarded
    → Settled env chat_id user_id message_id activity timestamp r
unfolding unchanged
Settled-of_lock env chat_id user_id message_id activity timestamp r c e same h =
    let again =
      awarded_before env r.0 chat_id user_id message_id activity timestamp c e (omega arith) in
    (
      ap (λ p. p.0) again,
      ap (λ p. p.1.group_xp_awarded) again,
      ap (λ p. p.1.global_xp_awarded) again,
    )

-- Once a message has earned XP in its group, awarding it again, at any time and with any content,
-- changes no row and gives no XP in the group or in the global profile.
pub award_message_xp-again :
    (env : Env) (s : Store) (chat_id user_id message_id : ℕ) (activity activity' : MessageActivity)
    (timestamp timestamp' : ℕ)
    → 0 < (award_message_xp env s chat_id user_id message_id activity timestamp).1.group_xp_awarded
    → let s' = (award_message_xp env s chat_id user_id message_id activity timestamp).0 in
      let (s'', update) = award_message_xp env s' chat_id user_id message_id activity' timestamp' in
      (s'' ≡ s') × (update.group_xp_awarded ≡ 0) × (update.global_xp_awarded ≡ 0)
unfolding unchanged
award_message_xp-again env s chat_id user_id message_id activity activity' timestamp timestamp' =
    award_message_xp-cases env s chat_id user_id message_id activity timestamp
      (Settled env chat_id user_id message_id activity' timestamp') (λ _ h. absurd (omega arith))
      (λ c _ _ h. absurd (omega arith))
      (λ c e _.
        let (c', locked, same) =
          awarded-lock env s chat_id user_id message_id activity timestamp c e in
        Settled-of_lock env chat_id user_id message_id activity' timestamp'
          (awarded env s c chat_id user_id message_id activity timestamp) c' locked same)
