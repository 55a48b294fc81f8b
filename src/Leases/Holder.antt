-- ===== src/Leases/Holder.antt =====
-- Who holds a lease, over any sequence of calls, answers, errors and waits.
use chat_pulse.Prelude.{
  ℕ, ◌+◌, ◌*◌, ◌<◌, ◌≡◌, refl, Bool, true, false, not, ◌&&◌, ◌||◌, inl, inr, Option, none, some,
  put, ltb, leb, ◌==◌, ==_iff, if◌then◌else◌, arith, Bool-cases,
}
use mathlib.Core.Path.{subst}
use chat_pulse.Leases.{
  LeaseHandle, Cell, World, Reply, answered, failed_before, failed_after, takes_effect, is_answered,
  live, is_free, is_held_by, set_cell, drop_cell, handle_of, acquire_handle, acquire, renew_handle,
  release_handle, if_acquired, renew, release, wait,
}

pub data Step : World → World → Type 0 where
  acquires :
      {w w' : World}
      → (name_matches : Bool) (token ttl_seconds : ℕ) (reply : Reply)
      → acquire w name_matches token ttl_seconds reply ≡ some w'
      → Step w w'
  renews : {w w' : World} → (token : ℕ) (reply : Reply) → renew w token reply ≡ w' → Step w w'
  releases : {w w' : World} → (token : ℕ) (reply : Reply) → release w token reply ≡ w' → Step w w'
  waits : {w w' : World} → (elapsed : ℕ) → wait w elapsed ≡ w' → Step w w'

pub data Reach (w : World) : World → Type 0 where
  here : Reach w w
  next : {v u : World} → Reach w v → Step v u → Reach w u

-- The holder of the lease: who has acquired it and was promised it beyond now.
pub record Holds (w : World) (token : ℕ) : Type 0 where
  pub handle : LeaseHandle
  pub found : w.handles token ≡ some handle
  pub acquired : handle.acquired ≡ true
  pub in_time : w.now < handle.until

-- A promise that still runs is backed by the key.
abbrev pub is_backed : ℕ → Option Cell → ℕ → LeaseHandle → Bool
is_backed now none token h = not (h.acquired && ltb now h.until)
is_backed now (some c) token h =
    not (h.acquired && ltb now h.until) || ((c.token == token) && leb h.until c.expires)

abbrev pub Backed : World → Type 0
Backed w =
    (token : ℕ) (h : LeaseHandle) → w.handles token ≡ some h → is_backed w.now w.cell token h ≡ true

-- Setting the key while it is free, or for its own token, leaves the promises of the others.
set_free-backed :
    (now : ℕ) (cell : Option Cell) (b : Bool) (t token expires : ℕ) (h : LeaseHandle)
    → is_backed now cell t h ≡ true
    → is_backed now (set_cell (b && is_free (live now cell)) token expires cell) t h ≡ true
unfolding live
set_free-backed now none b t token expires h old = ground arith
set_free-backed now (some c) b t token expires h old = ground arith

set_own-backed :
    (now : ℕ) (cell : Option Cell) (b : Bool) (t token expires : ℕ) (h : LeaseHandle)
    → (token == t) ≡ false
    → is_backed now cell t h ≡ true
    → is_backed now (set_cell (b && is_held_by token (live now cell)) token expires cell) t h ≡ true
unfolding live
set_own-backed now none b t token expires h other old = ground arith
set_own-backed now (some c) b t token expires h other old = ground arith

drop_own-backed :
    (now : ℕ) (cell : Option Cell) (b : Bool) (t token : ℕ) (h : LeaseHandle)
    → (token == t) ≡ false
    → is_backed now cell t h ≡ true
    → is_backed now (drop_cell (b && is_held_by token (live now cell)) cell) t h ≡ true
unfolding live
drop_own-backed now none b t token h other old = ground arith
drop_own-backed now (some c) b t token h other old = ground arith

-- The promise that an answer makes is backed by what the call has set.
promised-backed :
    (now : ℕ) (cell : Option Cell) (reply : Reply) (found : Bool) (token ttl_ms expires : ℕ)
    → is_backed now
        (set_cell (takes_effect reply && found) token expires cell)
        token
        (handle_of ttl_ms (is_answered reply && found) expires)
      ≡ true
promised-backed now cell answered true token ttl_ms expires = ground arith
promised-backed now none answered false token ttl_ms expires = refl
promised-backed now (some c) answered false token ttl_ms expires = refl
promised-backed now none failed_before found token ttl_ms expires = refl
promised-backed now (some c) failed_before found token ttl_ms expires = refl
promised-backed now cell failed_after true token ttl_ms expires = refl
promised-backed now none failed_after false token ttl_ms expires = refl
promised-backed now (some c) failed_after false token ttl_ms expires = refl

given_up-backed :
    (now : ℕ) (cell : Option Cell) (token ttl_ms until : ℕ)
    → is_backed now cell token (handle_of ttl_ms false until) ≡ true
given_up-backed now none token ttl_ms until = refl
given_up-backed now (some c) token ttl_ms until = refl

waited-backed :
    (now elapsed : ℕ) (cell : Option Cell) (token : ℕ) (h : LeaseHandle)
    → is_backed now cell token h ≡ true
    → is_backed (now + elapsed) cell token h ≡ true
waited-backed now elapsed none token h old = ground arith
waited-backed now elapsed (some c) token h old = ground arith

-- A table with one handle written, promise by promise.
put-backed :
    (w : World) (now : ℕ) (cell : Option Cell) (token : ℕ) (new : LeaseHandle)
    → is_backed now cell token new ≡ true
    → ((t : ℕ) (h : LeaseHandle)
        → (token == t) ≡ false
        → w.handles t ≡ some h
        → is_backed now cell t h ≡ true)
    → (t : ℕ) (h : LeaseHandle) → put w.handles token new t ≡ some h
    → is_backed now cell t h ≡ true
put-backed w now cell token new mine others t h there = elim (Bool-cases (token == t)) [
  | inl same ↦
      let e : token ≡ t = (==_iff token t).0 same in
      let written : some new ≡ some h = rw same at there in cc (e, written, mine)
  | inr other ↦ others t h other (rw other at there)
]

acquire_handle-Backed :
    (w : World) (token ttl_ms : ℕ) (reply : Reply)
    → Backed w
    → Backed (acquire_handle w token ttl_ms reply)
unfolding acquire_handle
acquire_handle-Backed w token ttl_ms reply backed =
    put-backed w w.now _ token _
      (promised-backed w.now w.cell reply (is_free (live w.now w.cell)) token ttl_ms
        (w.now + ttl_ms))
      (λ t h _ there.
        set_free-backed w.now w.cell (takes_effect reply) t token (w.now + ttl_ms) h
          (backed t h there))

renew_handle-Backed :
    (w : World) (token : ℕ) (h : LeaseHandle) (reply : Reply)
    → Backed w
    → Backed (renew_handle w token h reply)
unfolding renew_handle
renew_handle-Backed w token h reply backed =
    put-backed w w.now _ token _
      (promised-backed w.now w.cell reply (is_held_by token (live w.now w.cell)) token h.ttl_ms
        (w.now + h.ttl_ms))
      (λ t h' other there.
        set_own-backed w.now w.cell (takes_effect reply) t token (w.now + h.ttl_ms) h' other
          (backed t h' there))

release_handle-Backed :
    (w : World) (token : ℕ) (h : LeaseHandle) (reply : Reply)
    → Backed w
    → Backed (release_handle w token h reply)
unfolding release_handle
release_handle-Backed w token h reply backed =
    put-backed w w.now _ token _ (given_up-backed w.now _ token h.ttl_ms h.until)
      (λ t h' other there.
        drop_own-backed w.now w.cell (takes_effect reply) t token h' other (backed t h' there))

if_acquired-Backed :
    (w : World) (o : Option LeaseHandle) (k : LeaseHandle → World)
    → Backed w
    → ((h : LeaseHandle) → Backed (k h))
    → Backed (if_acquired w o k)
if_acquired-Backed w none k backed f = backed
if_acquired-Backed w (some h) k backed f = pick h.acquired
  where
    pick : (b : Bool) → Backed (if b then k h else w)
    pick true = f h
    pick false = backed

Step-Backed : (w w' : World) → Step w w' → Backed w → Backed w'
unfolding acquire renew release
Step-Backed w w' (acquires ok_ token ttl reply e) backed =
    allowed (ok_ && leb 1 ttl && leb ttl 3600) e
  where
    allowed :
        (b : Bool)
        → (if b then some (acquire_handle w token (ttl * 1000) reply) else none) ≡ some w'
        → Backed w'
    allowed true e' =
        let is_it : acquire_handle w token (ttl * 1000) reply ≡ w' = cc in
        subst Backed is_it (acquire_handle-Backed w token (ttl * 1000) reply backed)
    allowed false e' = absurd (cc)
Step-Backed w w' (renews token reply e) backed = subst Backed e (
    if_acquired-Backed w (w.handles token) _ backed
      (λ h. renew_handle-Backed w token h reply backed))
Step-Backed w w' (releases token reply e) backed = subst Backed e (
    if_acquired-Backed w (w.handles token) _ backed
      (λ h. release_handle-Backed w token h reply backed))
Step-Backed w w' (waits elapsed e) backed =
    subst Backed e (λ t h there. waited-backed w.now elapsed w.cell t h (backed t h there))

Reach-Backed : (w w' : World) → Reach w w' → Backed w → Backed w'
Reach-Backed w w' here backed = backed
Reach-Backed w w' (next {v} r step) backed = Step-Backed v w' step (Reach-Backed w v r backed)

-- A holder's token is the one that the key shows.
Holds-live : (w : World) (token : ℕ) → Backed w → Holds w token → live w.now w.cell ≡ some token
unfolding live
Holds-live w token backed h = shown w.cell (backed token h.handle h.found)
  where
    shown :
        (cell : Option Cell)
        → is_backed w.now cell token h.handle ≡ true
        → live w.now cell ≡ some token
    shown none b = ground (arith, h.acquired, h.in_time)
    shown (some c) b = ground (arith, h.acquired, h.in_time)

-- From a start at which every promise is backed by the key, as where there is no handle at all,
-- whatever calls are made by whomever, however they end and whatever time passes between them: two
-- handles that are acquired and within the time that they were promised have one token, so the
-- lease has one holder; and its token is the one in Redis, so everybody else is refused.
pub one_holder :
    (w w' : World) (a b : ℕ)
    → Backed w
    → Reach w w'
    → Holds w' a
    → Holds w' b
    → (a ≡ b) × (live w'.now w'.cell ≡ some a)
one_holder w w' a b backed r ha hb =
    let ea = Holds-live w' a (Reach-Backed w w' r backed) ha in
    let eb = Holds-live w' b (Reach-Backed w w' r backed) hb in (cc (ea, eb), ea)
