-- ===== src/Control/Blocking.antt =====
-- Blocking, unblocking, and the attempts of blocked users.
use chat_pulse.Prelude.{
  ℕ, ◌+◌, ◌/◌, ◌≡◌, refl, ap, String, Bool, true, false, ◌&&◌, some, List, [], ◌∷◌, ◌==◌, ==_iff,
  arith, Bool-cases, inl, inr, if◌then◌else◌, Table, put,
}
use chat_pulse.Xp.Store.{User}
use chat_pulse.Control.{AdminActor, can, users_block}
use chat_pulse.Control.Store.{
  Env, UserRestriction, Store, Error, err, ok, ◌>>=◌, reason_of, require_mutable_target,
  BlockedAccessEvent, Source,
}
use chat_pulse.Control.Restrict.{
  blocked, is_blocked, blocked_by, block_store, block_user, unblocked_by, unblock_store,
  require_blocked, unblock_user, count_attempt, record_blocked_access, is_window, window_of,
  source_no,
}
use chat_pulse.Control.Cases.{Ensures, returned, Ensures-raise_if, Ensures-bind, Ensures-require}

module _ (env : Env) (s : Store) (actor : AdminActor) (target : ℕ)
    (may : can actor users_block ≡ true) (u : User) (found : require_mutable_target s target ≡ ok u)
    (reason good : String) (fine : reason_of env reason ≡ ok good) (later : ℕ) where
  -- What a permitted block or unblock with a good reason comes to, by the row that is there.
  block_user-blocked :
      blocked (s.restrictions target) ≡ true
      → block_user env s actor target reason later ≡ err Error.value_error
  unfolding block_user ◌>>=◌
  block_user-blocked there = rw (may, fine, found, there) refl

  unblock_user-blocked :
      (row : UserRestriction)
      → s.restrictions target ≡ some row
      → row.is_blocked ≡ true
      → unblock_user env s actor target reason later
        ≡ ok (unblock_store actor target good later row s, unblocked_by actor good later row)
  unfolding unblock_user ◌>>=◌ require_blocked
  unblock_user-blocked row there on = rw (may, fine, found, there) (rw on refl)

  unblock_user-free :
      (row : UserRestriction)
      → s.restrictions target ≡ some row
      → row.is_blocked ≡ false
      → unblock_user env s actor target reason later ≡ err Error.value_error
  unfolding unblock_user ◌>>=◌ require_blocked
  unblock_user-free row there off = rw (may, fine, found, there) (rw off refl)

-- What a block leaves: the user is blocked and nobody else is touched; no actor who may block can
-- block again, and each of them can unblock, which keeps the reason and the time of the block, and
-- after which none of them can unblock again.
pub record Blocks (env : Env) (s : Store) (target : ℕ) (s' : Store) (row : UserRestriction)
    : Type 0 where
  pub stands : is_blocked s' target ≡ true
  pub others : (k : ℕ) → (target == k) ≡ false → is_blocked s' k ≡ is_blocked s k
  pub not_twice :
      (other : AdminActor) (reason good : String) (later : ℕ)
      → can other users_block ≡ true
      → reason_of env reason ≡ ok good
      → block_user env s' other target reason later ≡ err Error.value_error
  pub reopens :
      (other third : AdminActor) (reason good : String) (later : ℕ)
      → can other users_block ≡ true
      → can third users_block ≡ true
      → reason_of env reason ≡ ok good
      → let free = unblock_store other target good later row s' in
        (unblock_user env s' other target reason later
          ≡ ok (free, unblocked_by other good later row))
        × (is_blocked free target ≡ false)
        × (unblock_user env free third target reason later ≡ err Error.value_error)

self_eq : (n : ℕ) → (n == n) ≡ true
self_eq n = (==_iff n n).1 refl

put_self : (t : Table UserRestriction) (k : ℕ) (row : UserRestriction) → put t k row k ≡ some row
put_self t k row = rw (self_eq k) refl

put_other :
    (t : Table UserRestriction) (k j : ℕ) (row : UserRestriction)
    → (k == j) ≡ false
    → put t k row j ≡ t j
put_other t k j row other = rw other refl

-- Blocking that succeeds blocks the user and nobody else. Then no actor with the permission, the
-- one who blocked or another, can block the user again with a good reason, and each of them can
-- unblock with one, after which none can unblock again.
pub block_user_law :
    (env : Env) (s : Store) (actor : AdminActor) (target current : ℕ) (reason : String)
    → Ensures
        (λ ((s', row) : Store × UserRestriction). Blocks env s target s' row)
        (block_user env s actor target reason current)
unfolding block_user
block_user_law env s actor target current reason = Ensures-require _ _ λ _.
    Ensures-bind _ _ λ reason' _. Ensures-bind _ _ λ u found. Ensures-raise_if _ _ _ λ _.
      let s' : Store = block_store actor target reason' current s in
      let row : UserRestriction = blocked_by actor reason' current in
      let there : s'.restrictions target ≡ some row = put_self s.restrictions target row in
      returned (record {
        stands = ap blocked there;
        others = λ k other. ap blocked (put_other s.restrictions target k row other);
        not_twice = λ other again good later can_ fine.
            block_user-blocked env s' other target can_ u found again good fine later
              (ap blocked there);
        reopens = λ other third again good later can_ can_too fine.
            let free : Store = unblock_store other target good later row s' in
            let gone = put_self s'.restrictions target (unblocked_by other good later row) in
            (
              unblock_user-blocked env s' other target can_ u found again good fine later row there
                  refl,
              ap blocked gone,
              unblock_user-free env free third target can_too u found again good fine later
                  (unblocked_by other good later row) gone refl,
            );
      })

-- All the attempts that are counted, and the windows that have a row.
abbrev pub attempts_of : ℕ → Source → ℕ → List BlockedAccessEvent → ℕ
attempts_of user source window [] = 0
attempts_of user source window (e ∷ l) =
    if is_window user source window e
    then e.attempt_count + attempts_of user source window l
    else attempts_of user source window l

abbrev pub rows_of : ℕ → Source → ℕ → List BlockedAccessEvent → ℕ
rows_of user source window [] = 0
rows_of user source window (e ∷ l) =
    if is_window user source window e
    then 1 + rows_of user source window l
    else rows_of user source window l

abbrev same_window : ℕ → Source → ℕ → ℕ → Source → ℕ → Bool
same_window user source current v src window =
    (user == v) && (source_no source == source_no src) && (window_of current == window)

-- The row of the window is in the other window exactly when the windows are one.
is_window-same :
    (user : ℕ) (source : Source) (current v : ℕ) (src : Source) (window : ℕ)
    (e : BlockedAccessEvent)
    → is_window user source (window_of current) e ≡ true
    → is_window v src window e ≡ same_window user source current v src window
is_window-same user source current v src window e h =
    same_keys e.telegram_user_id user (source_no e.source) (source_no source) e.window_key
      (window_of current) v (source_no src) window h
  where
    same_keys :
        (a a' b b' c c' x y z : ℕ)
        → ((a == a') && (b == b') && (c == c')) ≡ true
        → ((a == x) && (b == y) && (c == z)) ≡ ((a' == x) && (b' == y) && (c' == z))
    same_keys a a' b b' c c' x y z h = ground arith

other_keys :
    (a a' b b' c c' x y z : ℕ)
    → ((a == a') && (b == b') && (c == c')) ≡ false
    → ((a == x) && (b == y) && (c == z)) ≡ true
    → ((a' == x) && (b' == y) && (c' == z)) ≡ false
other_keys a a' b b' c c' x y z h at = ground arith

count_attempt-attempts :
    (user : ℕ) (source : Source) (current : ℕ) (l : List BlockedAccessEvent) (v : ℕ) (src : Source)
    (window : ℕ)
    → attempts_of v src window (count_attempt user source current l) ≡ (
        if same_window user source current v src window
        then attempts_of v src window l + 1
        else attempts_of v src window l)
unfolding count_attempt
count_attempt-attempts user source current [] v src window = ground arith
count_attempt-attempts user source current (e ∷ l) v src window =
    elim (Bool-cases (is_window user source (window_of current) e)) [
      | inl mine ↦
          rw (mine, is_window-same user source current v src window e mine)
            (counted (same_window user source current v src window))
      | inr other ↦
          rw (other, count_attempt-attempts user source current l v src window)
            (passed (is_window v src window e) (same_window user source current v src window))
    ]
  where
    counted :
        (b : Bool)
        → (if b
            then e.attempt_count + 1 + attempts_of v src window l
            else attempts_of v src window l)
          ≡ (if b
              then (if b
                  then e.attempt_count + attempts_of v src window l
                  else attempts_of v src window l)
                + 1
              else (if b
                  then e.attempt_count + attempts_of v src window l
                  else attempts_of v src window l))
    counted true = omega arith
    counted false = refl

    passed :
        (m b : Bool)
        → (if m
            then e.attempt_count
              + (if b then attempts_of v src window l + 1 else attempts_of v src window l)
            else (if b then attempts_of v src window l + 1 else attempts_of v src window l))
          ≡ (if b
              then (if m
                  then e.attempt_count + attempts_of v src window l
                  else attempts_of v src window l)
                + 1
              else (if m
                  then e.attempt_count + attempts_of v src window l
                  else attempts_of v src window l))
    passed true true = omega arith
    passed true false = refl
    passed false true = refl
    passed false false = refl

count_attempt-rows :
    (user : ℕ) (source : Source) (current : ℕ) (l : List BlockedAccessEvent) (v : ℕ) (src : Source)
    (window : ℕ)
    → rows_of v src window (count_attempt user source current l) ≡ (
        if same_window user source current v src window && (rows_of v src window l == 0)
        then 1
        else rows_of v src window l)
unfolding count_attempt
count_attempt-rows user source current [] v src window = ground arith
count_attempt-rows user source current (e ∷ l) v src window =
    elim (Bool-cases (is_window user source (window_of current) e)) [
      | inl mine ↦
          rw (mine, is_window-same user source current v src window e mine)
            (counted (same_window user source current v src window) (rows_of v src window l))
      | inr other ↦
          rw (other, count_attempt-rows user source current l v src window)
            (passed (is_window v src window e) (same_window user source current v src window)
              (rows_of v src window l)
              (λ at.
                other_keys e.telegram_user_id user (source_no e.source) (source_no source)
                  e.window_key (window_of current) v (source_no src) window other at))
    ]
  where
    counted :
        (b : Bool) (n : ℕ)
        → (if b then 1 + n else n)
          ≡ (if b && ((if b then 1 + n else n) == 0) then 1 else (if b then 1 + n else n))
    counted true n = ground arith
    counted false n = refl

    passed :
        (m b : Bool) (n : ℕ)
        → (m ≡ true → b ≡ false)
        → (if m then 1 + (if b && (n == 0) then 1 else n) else (if b && (n == 0) then 1 else n))
          ≡ (if b && ((if m then 1 + n else n) == 0) then 1 else (if m then 1 + n else n))
    passed true true n h = absurd (cc (h refl))
    passed true false n h = refl
    passed false b n h = refl

-- An attempt of a blocked user is counted once, in the window of ten minutes that it falls in, for
-- its source, and in no other; a window gets its row with the first attempt, and never a second row.
pub record_blocked_access_law :
    (s : Store) (user : ℕ) (source : Source) (current v : ℕ) (src : Source) (window : ℕ)
    → let s' = record_blocked_access s user source current in
      let same = (user == v) && (source_no source == source_no src) && (current / 600 == window) in
      (attempts_of v src window s'.attempts ≡ (
        if same
        then attempts_of v src window s.attempts + 1
        else attempts_of v src window s.attempts))
      × (rows_of v src window s'.attempts ≡ (
          if same && (rows_of v src window s.attempts == 0)
          then 1
          else rows_of v src window s.attempts))
unfolding record_blocked_access
record_blocked_access_law s user source current v src window = (
  count_attempt-attempts user source current s.attempts v src window,
  count_attempt-rows user source current s.attempts v src window,
)
