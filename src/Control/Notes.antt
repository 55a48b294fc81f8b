-- ===== src/Control/Notes.antt =====
-- app/repositories/user_control/notes_tags.py: the note and the tags of a user.
use chat_pulse.Prelude.{
  ℕ, String, Bool, true, false, not, ◌&&◌, Option, none, some, List, [], ◌∷◌, ◌++◌, any, where_,
  length, ltb, leb, ◌==◌, str_eq, if◌then◌else◌, Table,
}
use chat_pulse.Control.{AdminActor, users_notes}
use chat_pulse.Control.Store.{
  Env, UserAdminNote, UserAdminTag, Action, Store, Error, Result, ok, ◌>>=◌, ◌>>◌, raise_if,
  require, require_user, normalize_tag, audited,
}

-- An empty text deletes the note, any other is written.
unfoldable pub note_after : Env → String → ℕ → ℕ → Option UserAdminNote
note_after env note actor_id current =
    if env.len note == 0
    then none
    else some record { note = note; updated_by_actor_id = actor_id; updated_at = current }

abbrev pub put_note : Table UserAdminNote → ℕ → Option UserAdminNote → Table UserAdminNote
put_note t user_id row u = if user_id == u then row else t u

abbrev pub note_store : Env → AdminActor → ℕ → String → ℕ → Store → Store
unfolding note_after
note_store env actor user_id note current s =
    audited actor (Action.user_note_updated (not (env.len note == 0)) (env.len note)) user_id
      current
      record s {
        notes = put_note s.notes user_id (note_after env note actor.telegram_user_id current);
      }

unfoldable pub set_note : Env → Store → AdminActor → ℕ → String → ℕ → Result Store
unfolding note_after
set_note env s actor user_id note current = do
  require actor users_notes
  raise_if (ltb 4000 (env.len (env.strip note))) Error.value_error
  user ← require_user s user_id
  ok (note_store env actor user_id (env.strip note) current s)

abbrev pub is_tag_of : ℕ → UserAdminTag → Bool
is_tag_of user_id t = t.telegram_user_id == user_id

abbrev pub is_tag : ℕ → String → UserAdminTag → Bool
is_tag user_id tag t = (t.telegram_user_id == user_id) && str_eq t.tag tag

abbrev pub tag_count : ℕ → List UserAdminTag → ℕ
tag_count user_id tags = length (where_ (is_tag_of user_id) tags)

abbrev pub tag_row : AdminActor → ℕ → String → ℕ → UserAdminTag
tag_row actor user_id tag current = record {
  telegram_user_id = user_id;
  tag = tag;
  created_by_actor_id = actor.telegram_user_id;
  created_at = current;
}

abbrev pub tagged_store : AdminActor → ℕ → String → ℕ → Store → Store
tagged_store actor user_id tag current s =
    audited actor (Action.user_tag_added tag) user_id current
      record s { tags = s.tags ++ (tag_row actor user_id tag current ∷ []) }

abbrev pub untagged_store : AdminActor → ℕ → String → ℕ → Store → Store
untagged_store actor user_id tag current s =
    audited actor (Action.user_tag_removed tag) user_id current
      record s { tags = where_ (λ t. not (is_tag user_id tag t)) s.tags }

-- What is done with a tag that is, or is not, there already.
unfoldable pub tag_with : Bool → Store → AdminActor → ℕ → String → ℕ → Result Store
tag_with true s actor user_id tag current = ok s
tag_with false s actor user_id tag current = do
  raise_if (leb 10 (tag_count user_id s.tags)) Error.value_error
  ok (tagged_store actor user_id tag current s)

unfoldable pub add_tag : Env → Store → AdminActor → ℕ → String → ℕ → Result Store
unfolding tag_with
add_tag env s actor user_id tag current = do
  require actor users_notes
  normalized ← normalize_tag env tag
  user ← require_user s user_id
  tag_with (any (is_tag user_id normalized) s.tags) s actor user_id normalized current

unfoldable pub remove_tag : Env → Store → AdminActor → ℕ → String → ℕ → Result Store
remove_tag env s actor user_id tag current = do
  require actor users_notes
  normalized ← normalize_tag env tag
  user ← require_user s user_id
  raise_if (not (any (is_tag user_id normalized) s.tags)) Error.lookup_error
  ok (untagged_store actor user_id normalized current s)
