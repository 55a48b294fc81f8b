-- ===== src/Leases/Refines.antt =====
-- A lease as a lock: every call, answer and wait of a run against the steps of the lock, with the
-- token that calls and what it is told.
use mathlib.Core.Path.{subst}
use chat_pulse.Prelude.{
  ℕ, ◌*◌, ◌≤◌, ◌≡◌, refl, Bool, true, false, ◌&&◌, Option, none, some, leb, ◌==◌, ==_iff, put,
  if◌then◌else◌, arith, Bool-cases, inl, inr,
}
use chat_pulse.Leases.{
  LeaseHandle, World, Reply, acquire_handle, acquire, renew_handle, release_handle, if_acquired,
  renew, release,
}
use chat_pulse.Leases.Holder.{Step, acquires, renews, releases, waits, Reach, here, next}
use chat_pulse.Leases.Lock.{
  LockEvent, acquire_call, renew_call, release_call, time_passes, LockRun, starts, then_, holder,
  is_acquired, event_of, trace_of, is_lock_step, same_self, set_free_step, set_own_step,
  drop_own_step, wait_step, lock_step,
}

-- Every handle was made with a time to live.
abbrev pub Lasting : World → Type 0
Lasting w = (token : ℕ) (h : LeaseHandle) → w.handles token ≡ some h → 1 ≤ h.ttl_ms

-- A step that the lock allows, and that leaves the handles so.
abbrev Refines : World → LockEvent → World → Type 0
Refines w e w' = (is_lock_step e (holder w) (holder w') ≡ true) × Lasting w'

put-Lasting :
    (w : World) (token : ℕ) (new : LeaseHandle)
    → 1 ≤ new.ttl_ms
    → Lasting w
    → (t : ℕ) (h : LeaseHandle) → put w.handles token new t ≡ some h
    → 1 ≤ h.ttl_ms
put-Lasting w token new long lasting t h there = elim (Bool-cases (token == t)) [
  | inl one ↦
      let written : some new ≡ some h = rw one at there in
      let is_it : new ≡ h = cc in subst (λ v. 1 ≤ v.ttl_ms) is_it long
  | inr other ↦ lasting t h (rw other at there)
]

put_mine : (w : World) (token : ℕ) (new : LeaseHandle) → put w.handles token new token ≡ some new
put_mine w token new = rw ((==_iff token token).1 refl) refl

acquire_handle-Refines :
    (w : World) (token ttl_ms : ℕ) (reply : Reply)
    → 1 ≤ ttl_ms
    → Lasting w
    → let w' = acquire_handle w token ttl_ms reply in
      Refines w (acquire_call token (is_acquired (w'.handles token))) w'
unfolding acquire_handle
acquire_handle-Refines w token ttl_ms reply long lasting = (
  rw (put_mine w token) (set_free_step w.now w.cell reply token ttl_ms long),
  put-Lasting w token _ long lasting,
)

renew_handle-Refines :
    (w : World) (token : ℕ) (h : LeaseHandle) (reply : Reply)
    → 1 ≤ h.ttl_ms
    → Lasting w
    → let w' = renew_handle w token h reply in
      Refines w (renew_call token (is_acquired (w'.handles token))) w'
unfolding renew_handle
renew_handle-Refines w token h reply long lasting = (
  rw (put_mine w token) (set_own_step w.now w.cell reply token h.ttl_ms long),
  put-Lasting w token _ long lasting,
)

release_handle-Refines :
    (w : World) (token : ℕ) (h : LeaseHandle) (reply : Reply)
    → 1 ≤ h.ttl_ms
    → Lasting w
    → Refines w (release_call token) (release_handle w token h reply)
unfolding release_handle
release_handle-Refines w token h reply long lasting =
    (drop_own_step w.now w.cell reply token, put-Lasting w token _ long lasting)

-- A call on a handle that is not acquired, and so is refused.
if_acquired-Refines :
    (w : World) (token : ℕ) (k : LeaseHandle → World) (e : Bool → LockEvent)
    → ((o : Option ℕ) → is_lock_step (e false) o o ≡ true)
    → ((h : LeaseHandle) → 1 ≤ h.ttl_ms → Refines w (e (is_acquired ((k h).handles token))) (k h))
    → Lasting w
    → let w' = if_acquired w (w.handles token) k in
      Refines w (e (is_acquired (w'.handles token))) w'
if_acquired-Refines w token k e idle f lasting = found (w.handles token) refl
  where
    found :
        (o : Option LeaseHandle)
        → w.handles token ≡ o
        → let w' = if_acquired w o k in Refines w (e (is_acquired (w'.handles token))) w'
    found none there = (rw there (idle (holder w)), lasting)
    found (some h) there = pick h.acquired refl
      where
        pick :
            (b : Bool)
            → h.acquired ≡ b
            → let w' = if b then k h else w in Refines w (e (is_acquired (w'.handles token))) w'
        pick true on = f h (lasting token h there)
        pick false off = (rw (there, off) (idle (holder w)), lasting)

Step-Refines : (w w' : World) (step : Step w w') → Lasting w → Refines w (event_of w w' step) w'
unfolding acquire renew release
Step-Refines w w' (acquires ok_ token ttl reply e) lasting =
    elim (Bool-cases (ok_ && leb 1 ttl && leb ttl 3600)) [
      | inl yes_ ↦
          let made : some (acquire_handle w token (ttl * 1000) reply) ≡ some w' = rw yes_ at e in
          let is_it : acquire_handle w token (ttl * 1000) reply ≡ w' = cc in
          subst (λ v. Refines w (acquire_call token (is_acquired (v.handles token))) v) is_it
            (acquire_handle-Refines w token (ttl * 1000) reply (ground (arith, yes_)) lasting)
      | inr no_ ↦ absurd (cc (rw no_ at e))
    ]
Step-Refines w w' (renews token reply e) lasting =
    subst (λ v. Refines w (renew_call token (is_acquired (v.handles token))) v) e
      (if_acquired-Refines w token _ (renew_call token) same_self
        (λ h long. renew_handle-Refines w token h reply long lasting) lasting)
Step-Refines w w' (releases token reply e) lasting =
    subst (λ v. Refines w (release_call token) v) e
      (if_acquired-Refines w token _ (λ _. release_call token) (λ o. ground (arith, same_self o))
        (λ h long. release_handle-Refines w token h reply long lasting) lasting)
Step-Refines w w' (waits elapsed e) lasting =
    subst (λ v. Refines w time_passes v) e (wait_step w.now elapsed w.cell, lasting)

Run-Refines :
    (w w' : World) (run : Reach w w')
    → Lasting w
    → LockRun (holder w) (holder w') (trace_of w w' run) × Lasting w'
Run-Refines w w' here lasting = (starts, lasting)
Run-Refines w w' (next {v} r step) lasting =
    let (before, then_lasting) = Run-Refines w v r lasting in
    let (allowed, after) = Step-Refines v w' step then_lasting in
    (then_ before (lock_step _ _ _ allowed), after)

-- From a world whose handles have a time to live, what is seen of any run of calls, answers, errors
-- and waits is, step by step, a run of the lock: for each step who called what, whether the caller
-- then has the handle acquired, and whose token the key shows.
pub lease_refines_lock :
    (w w' : World) (run : Reach w w')
    → Lasting w
    → LockRun (holder w) (holder w') (trace_of w w' run)
lease_refines_lock w w' run lasting = (Run-Refines w w' run lasting).0
