-- ===== src/Activity/Writes.antt =====
-- Any sequence of the writes of app/repositories/activity, and what such a sequence keeps.
use chat_pulse.Prelude.{
  ℕ, ◌≡◌, refl, String, Bool, true, false, ◌&&◌, Option, none, some, List, [], ◌∷◌, put,
  if◌then◌else◌, arith,
}
use chat_pulse.Antispam.{MessageActivity}
use chat_pulse.Activity.Recount.{
  write_reaction_count, recount_by, recount_to, recount_in, record_reaction_count,
  reset_group_stats,
}
use chat_pulse.Activity.{
  ChatGroup, UserData, GroupMember, MessageAuthor, Store, Zone, is_tracked, is_open, write_message,
  record_from, record_message, write_reaction, react_by, react_to, react_in, record_reaction,
}

-- A write; settings may change a group in any way, and a reset deletes what was counted of one.
pub data Write : Type 0 where
  message : ℕ → UserData → MessageActivity → ℕ → Option ℕ → Write
  reaction : ℕ → ℕ → List String → List String → ℕ → Write
  counts : ℕ → ℕ → List (String × ℕ) → ℕ → Write
  settings : ℕ → ChatGroup → Write
  reset : ℕ → Write

abbrev pub write : Zone → Store → Write → Store
write z s (message chat user activity at id) = (record_message z s chat user activity at id).0
write z s (reaction chat id old new at) = (record_reaction z s chat id old new at).0
write z s (counts chat id new at) = (record_reaction_count z s chat id new at).0
write z s (reset chat) = reset_group_stats s chat
write z s (settings chat g) = record s { groups = put s.groups chat g }

abbrev pub write_all : Zone → Store → List Write → Store
write_all z s [] = s
write_all z s (w ∷ l) = write_all z (write z s w) l

-- Whether only chats of these are reset.
abbrev pub resets_free : (ℕ → Bool) → Write → Bool
resets_free free (reset chat) = free chat
resets_free free _ = true

abbrev pub resets_only : (ℕ → Bool) → List Write → Bool
resets_only free [] = true
resets_only free (w ∷ l) = resets_free free w && resets_only free l

-- What holds of a store that a write leaves, by the branches of the code.
module _ (z : Zone) (s : Store) (P : Store → Type 0) (same : P s) where
  pub either :
      (b : Bool) (r : Store × Bool) → P r.0 → P (if◌then◌else◌ {A = Store × Bool} b r (s, false)).0
  either true r h = h
  either false r h = same

  record_from-cases :
      (o : Option ChatGroup) (chat : ℕ) (user : UserData) (a : MessageActivity) (at : ℕ)
      (id : Option ℕ)
      → ((g : ChatGroup) → P (write_message z s chat g user a at id))
      → P (record_from z s o chat user a at id).0
  unfolding record_from
  record_from-cases none chat user a at id f = same
  record_from-cases (some g) chat user a at id f =
      either (is_open g && is_tracked g a) (write_message z s chat g user a at id, true) (f g)

  react_by-cases :
      (g : ChatGroup) (chat user : ℕ) (o : Option GroupMember) (old new : List String) (at : ℕ)
      → s.members chat user ≡ o
      → ((m : GroupMember) (date : ℕ)
          → s.members chat user ≡ some m
          → P (write_reaction s chat user m date old new))
      → P (react_by z s g chat user o old new at).0
  unfolding react_by
  react_by-cases g chat user none old new at e f = same
  react_by-cases g chat user (some m) old new at e f = f m (z.local_date g.timezone at) e

  abbrev Reacts : ℕ → List String → List String → Type 0
  Reacts chat old new =
      (user : ℕ) (m : GroupMember) (date : ℕ)
      → s.members chat user ≡ some m
      → P (write_reaction s chat user m date old new)

  react_to-cases :
      (g : ChatGroup) (chat : ℕ) (o : Option MessageAuthor) (old new : List String) (at : ℕ)
      → Reacts chat old new
      → P (react_to z s g chat o old new at).0
  unfolding react_to
  react_to-cases g chat none old new at f = same
  react_to-cases g chat (some a) old new at f =
      react_by-cases g chat a.telegram_user_id (s.members chat a.telegram_user_id) old new at refl
        (f a.telegram_user_id)

  react_in-cases :
      (o : Option ChatGroup) (chat id : ℕ) (old new : List String) (at : ℕ)
      → Reacts chat old new
      → P (react_in z s o chat id old new at).0
  unfolding react_in
  react_in-cases none chat id old new at f = same
  react_in-cases (some g) chat id old new at f =
      either (is_open g && g.track_reactions) (react_to z s g chat (s.authors chat id) old new at)
        (react_to-cases g chat (s.authors chat id) old new at f)

  recount_by-cases :
      (g : ChatGroup) (chat id user : ℕ) (o : Option GroupMember) (new : List (String × ℕ)) (at : ℕ)
      → s.members chat user ≡ o
      → ((m : GroupMember) (date : ℕ)
          → s.members chat user ≡ some m
          → P (write_reaction_count s chat id user m date new))
      → P (recount_by z s g chat id user o new at).0
  unfolding recount_by
  recount_by-cases g chat id user none new at e f = same
  recount_by-cases g chat id user (some m) new at e f = f m (z.local_date g.timezone at) e

  abbrev Recounts : ℕ → ℕ → List (String × ℕ) → Type 0
  Recounts chat id new =
      (user : ℕ) (m : GroupMember) (date : ℕ)
      → s.members chat user ≡ some m
      → P (write_reaction_count s chat id user m date new)

  recount_to-cases :
      (g : ChatGroup) (chat id : ℕ) (o : Option MessageAuthor) (new : List (String × ℕ)) (at : ℕ)
      → Recounts chat id new
      → P (recount_to z s g chat id o new at).0
  unfolding recount_to
  recount_to-cases g chat id none new at f = same
  recount_to-cases g chat id (some a) new at f =
      recount_by-cases g chat id a.telegram_user_id (s.members chat a.telegram_user_id) new at refl
        (f a.telegram_user_id)

  recount_in-cases :
      (o : Option ChatGroup) (chat id : ℕ) (new : List (String × ℕ)) (at : ℕ)
      → Recounts chat id new
      → P (recount_in z s o chat id new at).0
  unfolding recount_in
  recount_in-cases none chat id new at f = same
  recount_in-cases (some g) chat id new at f =
      either (is_open g && g.track_reactions) (recount_to z s g chat id (s.authors chat id) new at)
        (recount_to-cases g chat id (s.authors chat id) new at f)

-- An invariant that every write keeps, resets of these chats included.
pub record Keeps (z : Zone) (free : ℕ → Bool) (P : Store → Type 0) : Type 0 where
  pub by_message :
      (s : Store) (chat : ℕ) (g : ChatGroup) (user : UserData) (a : MessageActivity) (at : ℕ)
      (id : Option ℕ)
      → P s
      → P (write_message z s chat g user a at id)
  pub by_reaction :
      (s : Store) (chat user : ℕ) (m : GroupMember) (date : ℕ) (old new : List String)
      → s.members chat user ≡ some m
      → P s
      → P (write_reaction s chat user m date old new)
  pub by_counts :
      (s : Store) (chat id user : ℕ) (m : GroupMember) (date : ℕ) (new : List (String × ℕ))
      → s.members chat user ≡ some m
      → P s
      → P (write_reaction_count s chat id user m date new)
  pub by_reset : (s : Store) (chat : ℕ) → free chat ≡ true → P s → P (reset_group_stats s chat)
  pub by_settings :
      (s : Store) (chat : ℕ) (g : ChatGroup) → P s → P (record s { groups = put s.groups chat g })

write-Keeps :
    (z : Zone) (free : ℕ → Bool) (P : Store → Type 0) (s : Store) (w : Write)
    → Keeps z free P
    → resets_free free w ≡ true
    → P s
    → P (write z s w)
unfolding record_message record_reaction record_reaction_count
write-Keeps z free P s (message chat user a at id) k r h =
    record_from-cases z s P h (s.groups chat) chat user a at id
      (λ g. k.by_message s chat g user a at id h)
write-Keeps z free P s (reaction chat id old new at) k r h =
    react_in-cases z s P h (s.groups chat) chat id old new at
      (λ user m date e. k.by_reaction s chat user m date old new e h)
write-Keeps z free P s (counts chat id new at) k r h =
    recount_in-cases z s P h (s.groups chat) chat id new at
      (λ user m date e. k.by_counts s chat id user m date new e h)
write-Keeps z free P s (settings chat g) k r h = k.by_settings s chat g h
write-Keeps z free P s (reset chat) k r h = k.by_reset s chat r h

pub write_all-Keeps :
    (z : Zone) (free : ℕ → Bool) (P : Store → Type 0) (s : Store) (l : List Write)
    → Keeps z free P
    → resets_only free l ≡ true
    → P s
    → P (write_all z s l)
write_all-Keeps z free P s [] k r h = h
write_all-Keeps z free P s (w ∷ l) k r h =
    write_all-Keeps z free P (write z s w) l k (ground (arith, r))
      (write-Keeps z free P s w k (ground (arith, r)) h)
