-- ===== src/Leases/Lock.antt =====
-- The lock that a lease of app/operations/leases.py promises, and what its calls do to the key.
use mathlib.Core.Path.{subst}
use chat_pulse.Prelude.{
  ℕ, ◌+◌, ◌≤◌, ◌≡◌, refl, ap, Bool, true, false, ◌&&◌, ◌||◌, Option, none, some, List, [], ◌∷◌,
  ◌==◌, ==_iff, arith,
}
use chat_pulse.Leases.{
  LeaseHandle, Cell, World, Reply, answered, failed_before, failed_after, takes_effect, is_answered,
  live, is_free, is_held_by, set_cell, drop_cell,
}
use chat_pulse.Leases.Holder.{Step, acquires, renews, releases, waits, Reach, here, next}

-- Who calls what; the answer of `acquire` and `renew` is whether the handle is acquired after it.
pub data LockEvent : Type 0 where
  acquire_call renew_call : ℕ → Bool → LockEvent
  release_call : ℕ → LockEvent
  time_passes : LockEvent

-- The lock that a lease promises, by the token of its holder. It is granted while it is free, to
-- the token that asks, which need not learn of it; it is kept by its holder, left by its holder,
-- and lost by time.
pub data LockStep : LockEvent → Option ℕ → Option ℕ → Type 0 where
  grants : (token : ℕ) → LockStep (acquire_call token true) none (some token)
  grants_unheard : (token : ℕ) → LockStep (acquire_call token false) none (some token)
  refuses : (token : ℕ) (o : Option ℕ) → LockStep (acquire_call token false) o o
  keeps : (token : ℕ) → LockStep (renew_call token true) (some token) (some token)
  keeps_not : (token : ℕ) (o : Option ℕ) → LockStep (renew_call token false) o o
  leaves : (token : ℕ) → LockStep (release_call token) (some token) none
  leaves_not : (token : ℕ) (o : Option ℕ) → LockStep (release_call token) o o
  expires : (token : ℕ) → LockStep time_passes (some token) none
  lasts : (o : Option ℕ) → LockStep time_passes o o

-- The steps of a run, the latest first, each with the holder after it.
pub data LockRun (o : Option ℕ) : Option ℕ → List (LockEvent × Option ℕ) → Type 0 where
  starts : LockRun o o []
  then_ :
      {p q : Option ℕ} {e : LockEvent} {l : List (LockEvent × Option ℕ)}
      → LockRun o p l
      → LockStep e p q
      → LockRun o q ((e, q) ∷ l)

abbrev pub holder : World → Option ℕ
holder w = live w.now w.cell

-- What the caller sees on the handle.
abbrev pub is_acquired : Option LeaseHandle → Bool
is_acquired none = false
is_acquired (some h) = h.acquired

abbrev pub event_of : (w w' : World) → Step w w' → LockEvent
event_of w w' (acquires ok_ token ttl reply e) = acquire_call token (is_acquired (w'.handles token))
event_of w w' (renews token reply e) = renew_call token (is_acquired (w'.handles token))
event_of w w' (releases token reply e) = release_call token
event_of w w' (waits elapsed e) = time_passes

-- What is seen of a run from outside.
abbrev pub trace_of : (w w' : World) → Reach w w' → List (LockEvent × Option ℕ)
trace_of w w' here = []
trace_of w w' (next {v} r step) = (event_of v w' step, holder w') ∷ trace_of w v r

abbrev same : Option ℕ → Option ℕ → Bool
same none none = true
same none (some u) = false
same (some t) none = false
same (some t) (some u) = t == u

abbrev pub is_lock_step : LockEvent → Option ℕ → Option ℕ → Bool
is_lock_step (acquire_call token true) o p = is_free o && is_held_by token p
is_lock_step (acquire_call token false) o p = (is_free o && is_held_by token p) || same o p
is_lock_step (renew_call token true) o p = is_held_by token o && is_held_by token p
is_lock_step (renew_call token false) o p = same o p
is_lock_step (release_call token) o p = (is_held_by token o && is_free p) || same o p
is_lock_step time_passes o p = is_free p || same o p

some_eq : (P : Option ℕ → Type 0) (t u : ℕ) → (t == u) ≡ true → P (some u) → P (some t)
some_eq P t u h x = subst (λ v. P (some v)) (ap (λ n. n) ((==_iff u t).0 (ground (arith, h)))) x

pub same_self : (o : Option ℕ) → same o o ≡ true
same_self none = refl
same_self (some t) = (==_iff t t).1 refl

pub set_free_step :
    (now : ℕ) (cell : Option Cell) (reply : Reply) (token ttl_ms : ℕ)
    → 1 ≤ ttl_ms
    → is_lock_step
        (acquire_call token (is_answered reply && is_free (live now cell)))
        (live now cell)
        (live now
          (set_cell (takes_effect reply && is_free (live now cell)) token (now + ttl_ms) cell))
      ≡ true
unfolding live
set_free_step now none answered token ttl_ms h = ground arith
set_free_step now none failed_before token ttl_ms h = ground arith
set_free_step now none failed_after token ttl_ms h = ground arith
set_free_step now (some c) answered token ttl_ms h = ground arith
set_free_step now (some c) failed_before token ttl_ms h = ground arith
set_free_step now (some c) failed_after token ttl_ms h = ground arith

pub set_own_step :
    (now : ℕ) (cell : Option Cell) (reply : Reply) (token ttl_ms : ℕ)
    → 1 ≤ ttl_ms
    → is_lock_step
        (renew_call token (is_answered reply && is_held_by token (live now cell)))
        (live now cell)
        (live now (
          set_cell
            (takes_effect reply && is_held_by token (live now cell))
            token
            (now + ttl_ms)
            cell))
      ≡ true
unfolding live
set_own_step now none answered token ttl_ms h = ground arith
set_own_step now none failed_before token ttl_ms h = ground arith
set_own_step now none failed_after token ttl_ms h = ground arith
set_own_step now (some c) answered token ttl_ms h = ground arith
set_own_step now (some c) failed_before token ttl_ms h = ground arith
set_own_step now (some c) failed_after token ttl_ms h = ground arith

pub drop_own_step :
    (now : ℕ) (cell : Option Cell) (reply : Reply) (token : ℕ)
    → is_lock_step
        (release_call token)
        (live now cell)
        (live now (drop_cell (takes_effect reply && is_held_by token (live now cell)) cell))
      ≡ true
unfolding live
drop_own_step now none reply token = ground arith
drop_own_step now (some c) answered token = ground arith
drop_own_step now (some c) failed_before token = ground arith
drop_own_step now (some c) failed_after token = ground arith

pub wait_step :
    (now elapsed : ℕ) (cell : Option Cell)
    → is_lock_step time_passes (live now cell) (live (now + elapsed) cell) ≡ true
unfolding live
wait_step now elapsed none = refl
wait_step now elapsed (some c) = ground arith

-- The test is right.
pub lock_step : (e : LockEvent) (o p : Option ℕ) → is_lock_step e o p ≡ true → LockStep e o p
lock_step (acquire_call t true) none none h = absurd (cc)
lock_step (acquire_call t true) none (some u) h =
    some_eq (λ p. LockStep (acquire_call t true) none p) u t h (grants t)
lock_step (acquire_call t true) (some v) p h = absurd (cc)
lock_step (acquire_call t false) none none h = refuses t none
lock_step (acquire_call t false) none (some u) h =
    some_eq (λ p. LockStep (acquire_call t false) none p) u t (ground (arith, h)) (grants_unheard t)
lock_step (acquire_call t false) (some v) none h = absurd (cc)
lock_step (acquire_call t false) (some v) (some u) h =
    some_eq (λ p. LockStep (acquire_call t false) p (some u)) v u h (refuses t (some u))
lock_step (renew_call t true) none p h = absurd (cc)
lock_step (renew_call t true) (some v) none h = absurd (ground (arith, h))
lock_step (renew_call t true) (some v) (some u) h =
    some_eq (λ p. LockStep (renew_call t true) p (some u)) v t (ground (arith, h))
      (some_eq (λ p. LockStep (renew_call t true) (some t) p) u t (ground (arith, h)) (keeps t))
lock_step (renew_call t false) none none h = keeps_not t none
lock_step (renew_call t false) none (some u) h = absurd (cc)
lock_step (renew_call t false) (some v) none h = absurd (cc)
lock_step (renew_call t false) (some v) (some u) h =
    some_eq (λ p. LockStep (renew_call t false) p (some u)) v u h (keeps_not t (some u))
lock_step (release_call t) none none h = leaves_not t none
lock_step (release_call t) none (some u) h = absurd (cc)
lock_step (release_call t) (some v) none h =
    some_eq (λ p. LockStep (release_call t) p none) v t (ground (arith, h)) (leaves t)
lock_step (release_call t) (some v) (some u) h =
    some_eq (λ p. LockStep (release_call t) p (some u)) v u (ground (arith, h))
      (leaves_not t (some u))
lock_step time_passes none none h = lasts none
lock_step time_passes none (some u) h = absurd (cc)
lock_step time_passes (some v) none h = expires v
lock_step time_passes (some v) (some u) h =
    some_eq (λ p. LockStep time_passes p (some u)) v u h (lasts (some u))
