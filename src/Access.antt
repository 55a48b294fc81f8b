-- ===== src/Access.antt =====
-- The cache of Telegram statuses: app/services/telegram_access_cache.py. A call of `get_or_load` is
-- two sections under the lock, before and after the load; other calls may run in between, so each
-- section is an operation of its own. Instants and durations count in one unit of the clock.
pub mod Loads
pub mod Sections
pub mod Flight
mod Tests
use chat_pulse.Prelude.{
  ℕ, suc, ◌+◌, Bool, true, false, not, ◌&&◌, Option, none, some, List, [], ◌∷◌, ◌++◌, length, ltb,
  leb, ◌==◌, if◌then◌else◌,
}
use chat_pulse.Prelude.Int.{ℤ, pos_part}

-- A key is a tuple of numbers: a kind, a chat, and often a user.
abbrev pub Key : Type 0
Key = List ℕ

unfoldable pub same_key : Key → Key → Bool
same_key [] [] = true
same_key (a ∷ k) (b ∷ l) = (a == b) && same_key k l
same_key _ _ = false

module _ {ℓ} (V : Type ℓ) where
  pub record CacheEntry : Type ℓ where
    pub value : Option V
    pub fresh_until : ℕ
    pub stale_until : ℕ

  pub record CachedTelegramStatus : Type ℓ where
    pub value : Option V
    pub fresh : Bool
    pub stale : Bool

  -- `_entries` with the least recently used key first, `_inflight` by the numbers of the tasks.
  pub record Cache : Type ℓ where
    pub entries : List (Key × CacheEntry)
    pub inflight : List (Key × ℕ)
    pub next_task : ℕ

  -- How long a value is fresh, negative or not, and for how long it may be used after that.
  pub record TtlPolicy : Type ℓ where
    pub is_negative : Option V → Bool
    pub positive_ttl : ℤ
    pub negative_ttl : ℤ
    pub stale_grace : ℤ

  -- What the first section ends with: an answer, or a task to wait for, whether this call made
  -- it, and the entry to fall back to.
  pub data Entered : Type ℓ where
    answered : CachedTelegramStatus → Entered
    waiting : ℕ → Bool → Option CacheEntry → Entered

-- Dictionaries in the order of their keys.
module _ {ℓ} {A : Type ℓ} where
  unfoldable pub lookup : Key → List (Key × A) → Option A
  lookup key [] = none
  lookup key ((k, a) ∷ l) = if same_key k key then some a else lookup key l

  unfoldable pub remove : Key → List (Key × A) → List (Key × A)
  remove key [] = []
  remove key ((k, a) ∷ l) =
      let rest = remove key l in if same_key k key then rest else (k, a) ∷ rest

  -- An entry that is written, or moved, to the end.
  unfoldable pub put_last : Key → A → List (Key × A) → List (Key × A)
  unfolding remove
  put_last key a l = remove key l ++ (key, a) ∷ []

  -- `while len(self._entries) > self._max_entries: self._entries.popitem(last=False)`
  unfoldable pub evict : ℕ → List (Key × A) → List (Key × A)
  evict max_entries [] = []
  evict max_entries (x ∷ l) =
      let rest = evict max_entries l in if ltb max_entries (suc (length l)) then rest else x ∷ l

  -- `invalidate`
  unfoldable pub drop_where : (Key → Bool) → List (Key × A) → List (Key × A)
  drop_where predicate [] = []
  drop_where predicate ((k, a) ∷ l) =
      let rest = drop_where predicate l in if predicate k then rest else (k, a) ∷ rest

-- The tests of `invalidate_user` and `invalidate_group`.
abbrev pub of_user : ℕ → ℕ → Key → Bool
of_user chat_id user_id (kind ∷ c ∷ u ∷ rest) = (c == chat_id) && (u == user_id)
of_user chat_id user_id _ = false

abbrev pub of_group : ℕ → Key → Bool
of_group chat_id (kind ∷ c ∷ rest) = c == chat_id
of_group chat_id _ = false

-- `self._inflight.get(key) is task`
unfoldable pub is_current : Option ℕ → ℕ → Bool
is_current none task = false
is_current (some t) task = t == task

module _ {ℓ} {V : Type ℓ} where
  -- The task of a key: the one that runs, or a new one.
  unfoldable pub join_load : Cache V → Key → Option (CacheEntry V) → Option ℕ → Cache V × Entered V
  join_load s key stale none = (
    record s { inflight = (key, s.next_task) ∷ s.inflight; next_task = s.next_task + 1 },
    waiting s.next_task true stale,
  )
  join_load s key stale (some task) = (s, waiting task false stale)

  unfoldable pub start_load : Cache V → Key → Option (CacheEntry V) → Cache V × Entered V
  unfolding join_load
  start_load s key stale = join_load s key stale (lookup key s.inflight)

  unfoldable pub enter_from : Cache V → Key → Option (CacheEntry V) → ℕ → Cache V × Entered V
  unfolding start_load
  enter_from s key none now = start_load s key none
  enter_from s key (some entry) now =
      if leb now entry.fresh_until
      then (
        record s { entries = put_last key entry s.entries },
        answered (record { value = entry.value; fresh = true; stale = false }),
      )
      else if leb now entry.stale_until
      then start_load s key (some entry)
      else start_load (record s { entries = remove key s.entries }) key none

  -- The first section of `get_or_load`.
  unfoldable pub enter : Cache V → Key → ℕ → Cache V × Entered V
  unfolding enter_from
  enter s key now = enter_from s key (lookup key s.entries) now

  unfoldable pub end_load : Cache V → Key → ℕ → Bool → Cache V
  unfolding is_current
  end_load s key task created =
      if created && is_current (lookup key s.inflight) task
      then record s { inflight = remove key s.inflight }
      else s

  unfoldable pub ttl_of : TtlPolicy V → Option V → ℤ
  ttl_of policy value =
      if policy.is_negative value then policy.negative_ttl else policy.positive_ttl

  -- The last section after a load, at `now`.
  unfoldable pub loaded :
      ℕ → Cache V → Key → ℕ → Bool → Option V → TtlPolicy V → ℕ → Cache V × CachedTelegramStatus V
  unfolding end_load ttl_of
  loaded max_entries s key task created value policy now =
      let s' = end_load s key task created in
      let fresh_until = now + pos_part (ttl_of policy value) in
      let entry : CacheEntry V = record {
        value = value;
        fresh_until = fresh_until;
        stale_until = fresh_until + pos_part policy.stale_grace;
      } in
      (
        record s' { entries = evict max_entries (put_last key entry s'.entries) },
        record { value = value; fresh = true; stale = false },
      )

  -- What a load that failed answers: the entry to fall back to.
  unfoldable pub answer_stale : Option (CacheEntry V) → CachedTelegramStatus V
  answer_stale none = record { value = none; fresh = false; stale = false }
  answer_stale (some entry) = record { value = entry.value; fresh = false; stale = true }

  unfoldable pub fall_back :
      Cache V
      → Key
      → Option (CacheEntry V)
      → Option (CacheEntry V)
      → ℕ
      → Cache V × CachedTelegramStatus V
  fall_back s key none stale_entry now = (s, answer_stale stale_entry)
  fall_back s key (some current) stale_entry now =
      if leb now current.stale_until
      then (record s { entries = put_last key current s.entries }, answer_stale (some current))
      else (s, answer_stale stale_entry)

  -- The last section after a load that raised.
  unfoldable pub failed :
      Cache V → Key → ℕ → Bool → Option (CacheEntry V) → ℕ → Cache V × CachedTelegramStatus V
  unfolding fall_back end_load answer_stale
  failed s key task created stale_entry now =
      let s' = end_load s key task created in
      fall_back s' key (lookup key s'.entries) stale_entry now

  unfoldable pub invalidate : (Key → Bool) → Cache V → Cache V
  invalidate predicate s = record s { entries = drop_where predicate s.entries }

  unfoldable pub invalidate_user : Cache V → ℕ → ℕ → Cache V
  unfolding invalidate
  invalidate_user s chat_id user_id = invalidate (of_user chat_id user_id) s

  unfoldable pub invalidate_group : Cache V → ℕ → Cache V
  unfolding invalidate
  invalidate_group s chat_id = invalidate (of_group chat_id) s

  unfoldable pub clear : Cache V → Cache V
  clear s = record s { entries = [] }
