-- ===== src/Access/Loads.antt =====
-- What the cache holds after a load, and after an invalidation.
use chat_pulse.Prelude.{
  ℕ, suc, ◌+◌, ◌≤◌, ◌≡◌, refl, ap, Bool, true, false, Option, none, some, List, [], ◌∷◌, ◌++◌,
  length, ltb, leb, if◌then◌else◌, Bool-cases, inl, inr, arith,
}
use chat_pulse.Prelude.Int.{pos_part}
use chat_pulse.Access.{
  TtlPolicy, ttl_of, Key, same_key, Cache, answered, lookup, remove, put_last, evict, drop_where,
  of_user, end_load, enter_from, enter, loaded, invalidate_user,
}

same_key_self : (k : Key) → same_key k k ≡ true
unfolding same_key
same_key_self [] = refl
same_key_self (a ∷ k) = ground (arith, same_key_self k)

pub same_key-eq : (k l : Key) → same_key k l ≡ true → k ≡ l
unfolding same_key
same_key-eq [] [] h = refl
same_key-eq [] (b ∷ l) h = cc h
same_key-eq (a ∷ k) [] h = cc h
same_key-eq (a ∷ k) (b ∷ l) h = ground (arith, same_key-eq k l)

module _ {ℓ} {A : Type ℓ} where
  lookup-remove : (key : Key) (l : List (Key × A)) → lookup key (remove key l) ≡ none
  unfolding lookup remove
  lookup-remove key [] = refl
  lookup-remove key ((k, a) ∷ l) = elim (Bool-cases (same_key k key)) [
    | inl same ↦ rw same (lookup-remove key l)
    | inr other ↦ rw other (rw other (lookup-remove key l))
  ]

  lookup-append :
      (key : Key) (a : A) (l : List (Key × A))
      → lookup key l ≡ none
      → lookup key (l ++ (key, a) ∷ []) ≡ some a
  unfolding lookup
  lookup-append key a [] h = rw (same_key_self key)
  lookup-append key a ((k, b) ∷ l) h = elim (Bool-cases (same_key k key)) [
    | inl same ↦ absurd (cc (rw same at h))
    | inr other ↦ rw other (lookup-append key a l (rw other at h))
  ]

  -- The entry at the end survives an eviction, as there is room for one.
  lookup-evict :
      (max_entries : ℕ) (key : Key) (a : A) (l : List (Key × A))
      → 1 ≤ max_entries
      → lookup key l ≡ none
      → lookup key (evict max_entries (l ++ (key, a) ∷ [])) ≡ some a
  unfolding evict lookup
  lookup-evict m key a [] one h =
      let room : ltb m 1 ≡ false = ground arith in rw (room, same_key_self key)
  lookup-evict m key a ((k, b) ∷ l) one h = elim (Bool-cases (same_key k key)) [
    | inl same ↦ absurd (cc (rw same at h))
    | inr other ↦ elim (Bool-cases (ltb m (suc (length (l ++ (key, a) ∷ []))))) [
      | inl over ↦ rw over (lookup-evict m key a l one (rw other at h))
      | inr fits ↦ rw (fits, other) (lookup-append key a l (rw other at h))
    ]
  ]

  -- A key that the predicate takes is gone, and every other key is as it was.
  pub lookup-drop_where :
      (predicate : Key → Bool) (key : Key) (l : List (Key × A))
      → lookup key (drop_where predicate l) ≡ (if predicate key then none else lookup key l)
  unfolding lookup drop_where
  lookup-drop_where predicate key [] = ground arith
  lookup-drop_where predicate key ((k, a) ∷ l) = elim (Bool-cases (same_key k key)) [
    | inl same ↦
        let e : predicate k ≡ predicate key = ap predicate (same_key-eq k key same) in
        ground (arith, same, e, lookup-drop_where predicate key l)
    | inr other ↦ ground (arith, other, lookup-drop_where predicate key l)
  ]

-- A value that was loaded is answered as fresh to every call of that key until its time to live
-- has passed, if nothing comes between, whatever the cache held before: it is not evicted itself.
pub hit_after_load :
    {V : Type 0} (max_entries : ℕ) (s : Cache V) (key : Key) (task : ℕ) (created : Bool)
    (value : Option V) (policy : TtlPolicy V) (now now' : ℕ)
    → 1 ≤ max_entries
    → now' ≤ now + pos_part (ttl_of policy value)
    → let s' = (loaded max_entries s key task created value policy now).0 in
      (enter s' key now').1 ≡ answered (record { value = value; fresh = true; stale = false })
unfolding loaded enter put_last
hit_after_load m s key task created value policy now now' one fresh =
    let l = (end_load s key task created).entries in
    let within : leb now' (now + pos_part (ttl_of policy value)) ≡ true = ground arith in
    rw (lookup-evict m key _ (remove key l) one (lookup-remove key l), enter_from, within)

-- Dropping a user takes exactly the entries of that user in that chat: none of them is answered or
-- kept to fall back to, and the entry of every other key stays as it was.
pub invalidate_user_law :
    {V : Type 0} (s : Cache V) (chat_id user_id : ℕ) (key : Key)
    → lookup key (invalidate_user s chat_id user_id).entries
      ≡ (if of_user chat_id user_id key then none else lookup key s.entries)
unfolding invalidate_user
invalidate_user_law s chat_id user_id key =
    lookup-drop_where (of_user chat_id user_id) key s.entries
