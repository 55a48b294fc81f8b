-- ===== src/Catalog/Tracks.antt =====
-- The set of codes that `record_events` keeps, against the rows of the tables.
use chat_pulse.Prelude.{
  ℕ, String, ◌≡◌, refl, sym, ◌∙◌, ap, Bool, true, ◌||◌, ◌&&◌, Option, none, some, List, [], ◌∷◌,
  ◌++◌, any, str_eq, str_eq_iff, arith, Bool-cases, inl, inr, ◌==◌,
}
use chat_pulse.Achievements.{contains, AchievementScope, group, global}
use chat_pulse.Achievements.Award.{contains-append}
use chat_pulse.Xp.Store.{MemberAchievement}
use chat_pulse.Catalog.Engine.{AchievementUnlock, has_scope, chat_of}
use chat_pulse.Catalog.Met.{IsOf}
use chat_pulse.Catalog.Record.{
  AchievementUnlockRecord, ScopeKey, global_key, group_key, same_key, achievement_scope_key, Store,
  is_identity, is_legacy, chat_exists, unlock_row, add_legacy, insert_unlock, Recording, in_scope,
  unlock_codes, legacy_codes, existing_codes_of,
}

unlock_codes-append :
    (user : ℕ) (chat : Option ℕ) (r : AchievementUnlockRecord) (l : List AchievementUnlockRecord)
    (code : String)
    → contains code (unlock_codes user chat (l ++ (r ∷ []))) ≡ (
        contains code (unlock_codes user chat l)
        || ((r.telegram_user_id == user)
            && in_scope chat r.scope_key
            && str_eq code r.achievement_code))
unfolding contains
unlock_codes-append user chat r [] code = ground arith
unlock_codes-append user chat r (x ∷ l) code =
    ground (arith, unlock_codes-append user chat r l code)

legacy_codes-append :
    (user chat : ℕ) (r : MemberAchievement) (l : List MemberAchievement) (code : String)
    → contains code (legacy_codes user (some chat) (l ++ (r ∷ []))) ≡ (
        contains code (legacy_codes user (some chat) l)
        || ((r.telegram_chat_id == chat)
            && (r.telegram_user_id == user)
            && str_eq code r.achievement_code))
unfolding contains
legacy_codes-append user chat r [] code = ground arith
legacy_codes-append user chat r (x ∷ l) code =
    ground (arith, legacy_codes-append user chat r l code)

same_key-in_scope :
    (chat : Option ℕ) (a b : ScopeKey)
    → in_scope chat b ≡ true
    → same_key a b ≡ true
    → in_scope chat a ≡ true
same_key-in_scope chat global_key global_key h e = h
same_key-in_scope chat global_key (group_key b) h e = absurd (cc)
same_key-in_scope chat (group_key a) global_key h e = absurd (cc)
same_key-in_scope none (group_key a) (group_key b) h e = h
same_key-in_scope (some c) (group_key a) (group_key b) h e = ground arith

-- A row with the identity is among the codes of the user.
identity_held :
    (user : ℕ) (chat : Option ℕ) (key : ScopeKey) (code : String) (l : List AchievementUnlockRecord)
    → in_scope chat key ≡ true
    → any (is_identity user key code) l ≡ true
    → contains code (unlock_codes user chat l) ≡ true
unfolding contains
identity_held user chat key code [] s h = absurd (cc)
identity_held user chat key code (x ∷ l) s h = ground (
  arith,
  same_key-in_scope chat x.scope_key key s,
  str_eq_iff x.achievement_code code,
  str_eq_iff code x.achievement_code,
  identity_held user chat key code l s,
)

-- The key of an unlock that is in scope, and that it is one of those looked up.
pub key_in_scope :
    (scope : AchievementScope) (chat : Option ℕ)
    → has_scope scope chat ≡ true
    → (key : ScopeKey) × (achievement_scope_key scope (chat_of scope chat) ≡ some key)
      × (in_scope chat key ≡ true)
key_in_scope global chat h = (global_key, refl, refl)
key_in_scope group none h = absurd (cc)
key_in_scope group (some c) h = (group_key c, refl, ground arith)

-- The codes kept are those that the tables answer for the user and the chat, whose rows exist.
pub record Tracks (user : ℕ) (chat : Option ℕ) (r : Recording) : Type 0 where
  pub known :
      (code : String)
      → contains code r.existing_codes ≡ contains code (existing_codes_of r.store user chat)
  pub user_exists : r.store.has_user user ≡ true
  pub chat_is_there : chat_exists r.store.has_chat chat ≡ true

-- Adding the row of an unlock adds no other code than the unlock's.
add_legacy_codes :
    (user : ℕ) (chat o : Option ℕ) (u : AchievementUnlock) (l : List MemberAchievement)
    (code : String)
    → (str_eq code u.definition.code || contains code (legacy_codes user chat (add_legacy o u l)))
      ≡ (str_eq code u.definition.code || contains code (legacy_codes user chat l))
unfolding add_legacy
add_legacy_codes user none none u l code = refl
add_legacy_codes user none (some d) u l code = refl
add_legacy_codes user (some c) none u l code = refl
add_legacy_codes user (some c) (some d) u l code =
    elim (Bool-cases (any (is_legacy d u.telegram_user_id u.definition.code) l)) [
      | inl e ↦ rw e refl
      | inr e ↦ rw e (rw (legacy_codes-append user c _ l code) (ground arith))
    ]

chat_of_exists :
    (has_chat : ℕ → Bool) (scope : AchievementScope) (chat : Option ℕ)
    → chat_exists has_chat chat ≡ true
    → chat_exists has_chat (chat_of scope chat) ≡ true
chat_of_exists has_chat group chat h = h
chat_of_exists has_chat global chat h = refl

-- What an insertion leaves: the codes of the tables with the unlock's among them, and the rows that
-- are referred to as they were. An insertion that fails found the code there.
abbrev pub Inserted : ℕ → Option ℕ → String → Store → Option Store → Type 0
Inserted user chat new s none = contains new (existing_codes_of s user chat) ≡ true
Inserted user chat new s (some s') =
    ((code : String)
      → contains code (existing_codes_of s' user chat)
        ≡ (str_eq code new || contains code (existing_codes_of s user chat)))
    × (s'.has_user ≡ s.has_user)
    × (s'.has_chat ≡ s.has_chat)

module _ (user : ℕ) (chat : Option ℕ) (u : AchievementUnlock) (h : IsOf user chat u) where
  inserted_codes :
      (s : Store) (key : ScopeKey) (code : String)
      → in_scope chat key ≡ true
      → contains code (
          unlock_codes user chat (s.unlocks ++ (unlock_row s.next_unlock u key ∷ []))
          ++ legacy_codes user chat (add_legacy u.telegram_chat_id u s.legacy))
        ≡ (str_eq code u.definition.code || contains code (existing_codes_of s user chat))
  unfolding existing_codes_of
  inserted_codes s key code sc =
      rw (contains-append, unlock_codes-append user chat _ s.unlocks code)
        (ground (
          arith,
          sc,
          h.user_same,
          add_legacy_codes user chat u.telegram_chat_id u s.legacy code,
          contains-append code (unlock_codes user chat s.unlocks) (legacy_codes user chat s.legacy),
        ))

  identity_known :
      (s : Store) (key : ScopeKey)
      → in_scope chat key ≡ true
      → any (is_identity u.telegram_user_id key u.definition.code) s.unlocks ≡ true
      → contains u.definition.code (existing_codes_of s user chat) ≡ true
  unfolding existing_codes_of
  identity_known s key sc found = rw contains-append (
      ground (
        arith,
        identity_held user chat key u.definition.code s.unlocks sc (rw (sym h.user_same) found),
      ))

  pub insert_unlock-Inserted :
      (ce : Bool) (s : Store) (key : ScopeKey)
      → in_scope chat key ≡ true
      → s.has_user user ≡ true
      → chat_exists s.has_chat chat ≡ true
      → Inserted user chat u.definition.code s (insert_unlock ce s u key)
  unfolding insert_unlock existing_codes_of
  insert_unlock-Inserted ce s key sc hu hc =
      let user_there : s.has_user u.telegram_user_id ≡ true = ap s.has_user h.user_same ∙ hu in
      let chat_there : chat_exists s.has_chat u.telegram_chat_id ≡ true =
        ap (chat_exists s.has_chat) h.chat_same
        ∙ chat_of_exists s.has_chat u.definition.scope chat hc in
      elim (Bool-cases (any (is_identity u.telegram_user_id key u.definition.code) s.unlocks)) [
        | inl found ↦ rw found (identity_known s key sc found)
        | inr new ↦
            rw (new, user_there, chat_there) ((λ code. inserted_codes s key code sc), refl, refl)
      ]
