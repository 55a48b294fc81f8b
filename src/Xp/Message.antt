-- ===== src/Xp/Message.antt =====
-- Awards for messages and for reactions: `award_message_xp_in_session`, `award_reaction_xp_in_session`
-- and `update_message_reaction_total_in_session` of app/repositories/gamification.py.
use chat_pulse.Prelude.{
  true, false, ◌≡◌, refl, ℕ, ◌+◌, ◌-◌, ◌*◌, String, Bool, false, not, ◌&&◌, ◌||◌, Option, none,
  some, List, [], ◌∷◌, length, any, find?, where_, get_or, ltb, leb, ◌==◌, if◌then◌else◌, str_eq,
}
use chat_pulse.Prelude.Int.{ℤ, pos, pos_part, ◌+ℤ◌}
use chat_pulse.Antispam.{MessageActivity, message_base_xp, adjusted_message_xp, near}
use chat_pulse.Xp.Store.{
  Env, MessageAuthor, Store, GamificationUpdate, no_update, author_of, set_author, Context,
}
use chat_pulse.Xp.Pay.{xp_cooldown, burst_window, lock_xp_context, apply_xp}

-- The author's other messages of the window, newest first.
unfoldable pub in_window : ℕ → ℕ → ℕ → ℕ → MessageAuthor → Bool
in_window chat_id user_id message_id timestamp a =
    (a.telegram_chat_id == chat_id)
    && ((a.telegram_user_id == user_id)
        && (not (a.message_id == message_id)
            && (leb (timestamp - burst_window) a.created_at && leb a.created_at timestamp)))

unfoldable pub insert_newest : MessageAuthor → List MessageAuthor → List MessageAuthor
insert_newest a [] = a ∷ []
insert_newest a (b ∷ l) = if leb b.created_at a.created_at then a ∷ b ∷ l else b ∷ insert_newest a l

unfoldable pub newest_first : List MessageAuthor → List MessageAuthor
newest_first [] = []
newest_first (a ∷ l) = insert_newest a (newest_first l)

unfoldable pub recent_messages : List MessageAuthor → ℕ → ℕ → ℕ → ℕ → List MessageAuthor
unfolding in_window insert_newest newest_first
recent_messages authors chat_id user_id message_id timestamp =
    newest_first (where_ (in_window chat_id user_id message_id timestamp) authors)

-- Less than five seconds since the newest message of the window that earned XP.
unfoldable pub cooling : ℕ → List MessageAuthor → Bool
cooling timestamp recent = elim (find? (λ item. ltb 0 item.xp_awarded) recent) [
  | none ↦ false
  | some latest ↦ ltb (timestamp - latest.created_at) xp_cooldown
]

-- `item.content_fingerprint == activity.content_fingerprint`, for a fingerprint that is not None.
abbrev same_fingerprint : String → MessageAuthor → Bool
same_fingerprint fingerprint item = elim item.content_fingerprint [
  | none ↦ false
  | some f ↦ str_eq f fingerprint
]

-- `if activity.content_fingerprint:` is false on None and on an empty text.
unfoldable pub exact_duplicate : Option String → List MessageAuthor → Bool
exact_duplicate none recent = false
exact_duplicate (some fingerprint) recent =
    not (str_eq fingerprint "") && any (same_fingerprint fingerprint) recent

unfoldable pub near_duplicate : Option ℕ → List MessageAuthor → Bool
near_duplicate none recent = false
near_duplicate (some simhash) recent = any (λ item. near simhash item.content_simhash) recent

unfoldable pub duplicate_of : MessageActivity → List MessageAuthor → Bool
unfolding exact_duplicate near_duplicate
duplicate_of activity recent =
    exact_duplicate activity.content_fingerprint recent
    || near_duplicate activity.content_simhash recent

unfoldable pub requested_xp_of : MessageActivity → ℕ → List MessageAuthor → ℕ
unfolding cooling duplicate_of
requested_xp_of activity timestamp recent =
    if cooling timestamp recent || duplicate_of activity recent
    then 0
    else adjusted_message_xp (message_base_xp activity) (length recent + 1)

-- What is returned for a message that has its XP already.
unfoldable pub unchanged : Context → GamificationUpdate
unchanged c = record no_update {
  old_group_level = c.member.level;
  new_group_level = c.member.level;
  old_global_level = c.user.global_level;
  new_global_level = c.user.global_level;
  current_streak = c.member.streak.current_streak;
}

-- The author row with the new fingerprints, and at the end with the XP. The text form `:016x` of
-- the similarity fingerprint, read back by `int(_, 16)`, is kept as its number.
unfoldable pub stamped : MessageActivity → ℕ → MessageAuthor → MessageAuthor
stamped activity xp a = record a {
  content_fingerprint = activity.content_fingerprint;
  content_simhash = activity.content_simhash;
  content_length = activity.content_length;
  xp_awarded = xp;
}

-- The award of a message that has no XP yet.
unfoldable pub awarded :
    Env → Store → Context → ℕ → ℕ → ℕ → MessageActivity → ℕ → Store × GamificationUpdate
unfolding stamped requested_xp_of recent_messages
awarded env s c chat_id user_id message_id activity timestamp =
    let recent = recent_messages s.authors chat_id user_id message_id timestamp in
    let (s', update) =
      apply_xp env s c.group c.member c.user (requested_xp_of activity timestamp recent)
        timestamp in
    (
      record s' {
        authors =
            set_author chat_id message_id (stamped activity update.group_xp_awarded c.author)
              s.authors;
      },
      update,
    )

unfoldable pub award_in_context :
    Env → Store → Context → ℕ → ℕ → ℕ → MessageActivity → ℕ → Store × GamificationUpdate
unfolding unchanged awarded
award_in_context env s c chat_id user_id message_id activity timestamp =
    if ltb 0 c.author.xp_awarded
    then (s, unchanged c)
    else awarded env s c chat_id user_id message_id activity timestamp

unfoldable pub award_from :
    Env → Store → Option Context → ℕ → ℕ → ℕ → MessageActivity → ℕ → Store × GamificationUpdate
unfolding award_in_context
award_from env s none chat_id user_id message_id activity timestamp = (s, no_update)
award_from env s (some c) chat_id user_id message_id activity timestamp =
    award_in_context env s c chat_id user_id message_id activity timestamp

unfoldable pub award_message_xp :
    Env → Store → ℕ → ℕ → ℕ → MessageActivity → ℕ → Store × GamificationUpdate
unfolding award_from
award_message_xp env s chat_id user_id message_id activity timestamp =
    award_from env s (lock_xp_context s chat_id user_id message_id) chat_id user_id message_id
      activity timestamp

unfoldable pub react_in_context : Env → Store → Option Context → ℕ → ℕ → Store × GamificationUpdate
react_in_context env s none requested_xp timestamp = (s, no_update)
react_in_context env s (some c) requested_xp timestamp =
    apply_xp env s c.group c.member c.user requested_xp timestamp

unfoldable pub react_from :
    Env → Store → Option MessageAuthor → ℕ → ℕ → ℕ → ℕ → Store × GamificationUpdate
unfolding react_in_context
react_from env s none chat_id message_id positive_delta timestamp = (s, no_update)
react_from env s (some author) chat_id message_id positive_delta timestamp =
    react_in_context env s (lock_xp_context s chat_id author.telegram_user_id message_id)
      (positive_delta * 3) timestamp

unfoldable pub award_reaction_xp : Env → Store → ℕ → ℕ → ℤ → ℕ → Store × GamificationUpdate
unfolding react_from
award_reaction_xp env s chat_id message_id positive_delta timestamp =
    if pos_part positive_delta == 0
    then (s, no_update)
    else react_from env s (author_of chat_id message_id s.authors) chat_id message_id
        (pos_part positive_delta) timestamp

unfoldable pub total_from :
    Store → Option MessageAuthor → ℕ → ℕ → Option ℤ → Option ℤ → Store × (ℕ × ℕ)
total_from s none chat_id message_id delta total = (s, (0, 0))
total_from s (some author) chat_id message_id delta total =
    let previous = author.reactions_count in
    let new_total : ℤ = elim total [ some t ↦ t | none ↦ pos previous +ℤ get_or delta (pos 0) ] in
    let row = record author { reactions_count = pos_part new_total } in
    (
      record s { authors = set_author chat_id message_id row s.authors },
      (previous, pos_part new_total),
    )

-- The total before and after; a `total` overrides a `delta`, and no total is negative.
unfoldable pub update_message_reaction_total : Store → ℕ → ℕ → Option ℤ → Option ℤ → Store × (ℕ × ℕ)
unfolding total_from
update_message_reaction_total s chat_id message_id delta total =
    total_from s (author_of chat_id message_id s.authors) chat_id message_id delta total

-- The three ways that an award ends, for any property of its result.
module _ (env : Env) (s : Store) (chat_id user_id message_id : ℕ) (activity : MessageActivity)
    (timestamp : ℕ) (P : Store × GamificationUpdate → Type 0) where
  pub award_message_xp-cases :
      (lock_xp_context s chat_id user_id message_id ≡ none → P (s, no_update))
      → ((c : Context)
          → lock_xp_context s chat_id user_id message_id ≡ some c
          → ltb 0 c.author.xp_awarded ≡ true
          → P (s, unchanged c))
      → ((c : Context)
          → lock_xp_context s chat_id user_id message_id ≡ some c
          → ltb 0 c.author.xp_awarded ≡ false
          → P (awarded env s c chat_id user_id message_id activity timestamp))
      → P (award_message_xp env s chat_id user_id message_id activity timestamp)
  unfolding award_message_xp award_in_context
  award_message_xp-cases missing done fresh =
      pick (lock_xp_context s chat_id user_id message_id) missing done fresh
    where
      test :
          (c : Context) (b : Bool)
          → (b ≡ true → P (s, unchanged c))
          → (b ≡ false → P (awarded env s c chat_id user_id message_id activity timestamp))
          → P (
              if b
              then (s, unchanged c)
              else awarded env s c chat_id user_id message_id activity timestamp)
      test c true yes_ no_ = yes_ refl
      test c false yes_ no_ = no_ refl

      pick :
          (o : Option Context)
          → (o ≡ none → P (s, no_update))
          → ((c : Context) → o ≡ some c → ltb 0 c.author.xp_awarded ≡ true → P (s, unchanged c))
          → ((c : Context)
              → o ≡ some c
              → ltb 0 c.author.xp_awarded ≡ false
              → P (awarded env s c chat_id user_id message_id activity timestamp))
          → P (award_from env s o chat_id user_id message_id activity timestamp)
      pick none a b c = a refl
      pick (some x) a b c = test x (ltb 0 x.author.xp_awarded) (b x refl) (c x refl)
