-- ===== src/Xp/Caps.antt =====
-- The daily caps over awards for messages and for reactions.
use chat_pulse.Prelude.{ℕ, ◌*◌, ◌≤◌, Option, none, some, get_or, Bool-cases, inl, inr, ◌==◌, arith}
use chat_pulse.Prelude.Int.{ℤ, pos_part}
use chat_pulse.Antispam.{MessageActivity}
use chat_pulse.Xp.Store.{
  Env, ChatGroup, User, GroupMember, MessageAuthor, Store, Context, author_of, utc_date,
}
use chat_pulse.Xp.Pay.{apply_xp}
use chat_pulse.Xp.Message.{
  requested_xp_of, recent_messages, award_message_xp, awarded, award_message_xp-cases,
  requested_xp_of, recent_messages, react_in_context, react_from, award_reaction_xp,
}

-- No member has passed the cap of a group on any day, and no user the global one.
pub record CapsHold (s : Store) : Type 0 where
  pub in_group : (c u d : ℕ) → get_or (s.daily c u d) 0 ≤ 200
  pub overall : (u d : ℕ) → get_or (s.global_daily u d) 0 ≤ 400

module _ (env : Env) where
  apply_xp-CapsHold :
      (s : Store) (g : ChatGroup) (m : GroupMember) (u : User) (requested timestamp : ℕ)
      → CapsHold s
      → CapsHold (apply_xp env s g m u requested timestamp).0
  unfolding apply_xp
  apply_xp-CapsHold s g m u requested timestamp h = record {
    in_group = λ c v d. ground (
      arith,
      h.in_group c v d,
      h.in_group g.telegram_chat_id m.telegram_user_id (env.local_date g.timezone timestamp),
    );
    overall = λ v d. ground (arith, h.overall v d, h.overall u.telegram_id (utc_date timestamp));
  }

  -- Awarding a message, also one that gets nothing, keeps every daily total within its cap: 200 XP
  -- in a group and 400 XP overall.
  pub award_message_xp-CapsHold :
      (s : Store) (chat_id user_id message_id : ℕ) (activity : MessageActivity) (timestamp : ℕ)
      → CapsHold s
      → CapsHold (award_message_xp env s chat_id user_id message_id activity timestamp).0
  unfolding awarded
  award_message_xp-CapsHold s chat_id user_id message_id activity timestamp h =
      award_message_xp-cases env s chat_id user_id message_id activity timestamp (λ r. CapsHold r.0)
        (λ _. h) (λ c _ _. h)
        (λ c _ _.
          let kept =
            apply_xp-CapsHold s c.group c.member c.user
              (requested_xp_of activity timestamp
                (recent_messages s.authors chat_id user_id message_id timestamp))
              timestamp h in
          record { in_group = kept.in_group; overall = kept.overall })

  react_in_context-CapsHold :
      (s : Store) (o : Option Context) (requested timestamp : ℕ)
      → CapsHold s
      → CapsHold (react_in_context env s o requested timestamp).0
  unfolding react_in_context
  react_in_context-CapsHold s none requested timestamp h = h
  react_in_context-CapsHold s (some c) requested timestamp h =
      apply_xp-CapsHold s c.group c.member c.user requested timestamp h

  react_from-CapsHold :
      (s : Store) (o : Option MessageAuthor) (chat_id message_id delta timestamp : ℕ)
      → CapsHold s
      → CapsHold (react_from env s o chat_id message_id delta timestamp).0
  unfolding react_from
  react_from-CapsHold s none chat_id message_id delta timestamp h = h
  react_from-CapsHold s (some author) chat_id message_id delta timestamp h =
      react_in_context-CapsHold s _ (delta * 3) timestamp h

  -- Awarding XP for reactions to a message, also where it gets nothing, keeps every daily total
  -- within its cap: 200 XP in a group and 400 XP overall.
  pub award_reaction_xp-CapsHold :
      (s : Store) (chat_id message_id : ℕ) (positive_delta : ℤ) (timestamp : ℕ)
      → CapsHold s
      → CapsHold (award_reaction_xp env s chat_id message_id positive_delta timestamp).0
  unfolding award_reaction_xp
  award_reaction_xp-CapsHold s chat_id message_id positive_delta timestamp h =
      elim (Bool-cases (pos_part positive_delta == 0)) [
        | inl nothing ↦ rw nothing h
        | inr some_ ↦ rw some_ (
            react_from-CapsHold s (author_of chat_id message_id s.authors) chat_id message_id
              (pos_part positive_delta) timestamp h)
      ]
