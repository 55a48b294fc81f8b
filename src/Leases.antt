-- ===== src/Leases.antt =====
-- app/operations/leases.py: leases over a Redis key that expires. One name is one key, so a single
-- key is modelled; times are in milliseconds.
pub mod Holder
pub mod Lock
pub mod Refines
mod Tests
use chat_pulse.Prelude.{
  ℕ, ◌+◌, ◌*◌, Bool, true, false, not, ◌&&◌, Option, none, some, Table, put, leb, ltb, ◌==◌,
  if◌then◌else◌,
}

-- `LeaseHandle`, by its token. `until` is the end that the last answer promised to its holder.
pub record LeaseHandle : Type 0 where
  pub ttl_ms : ℕ
  pub acquired : Bool
  pub until : ℕ

-- The value of the key, with the time at which it expires.
pub record Cell : Type 0 where
  pub token : ℕ
  pub expires : ℕ

pub record World : Type 0 where
  pub now : ℕ
  pub cell : Option Cell
  pub handles : Table LeaseHandle

-- How a call of Redis ends: with its answer, or with an error before or after it took effect. That
-- Redis is not available is an error before.
pub data Reply : Type 0 where
  answered failed_before failed_after : Reply

abbrev pub takes_effect : Reply → Bool
takes_effect failed_before = false
takes_effect _ = true

abbrev pub is_answered : Reply → Bool
is_answered answered = true
is_answered _ = false

-- What `get` answers: the token, until it expires.
unfoldable pub live : ℕ → Option Cell → Option ℕ
live now none = none
live now (some c) = if ltb now c.expires then some c.token else none

abbrev pub is_free : Option ℕ → Bool
is_free none = true
is_free (some t) = false

abbrev pub is_held_by : ℕ → Option ℕ → Bool
is_held_by token none = false
is_held_by token (some t) = t == token

-- `set(key, token, nx=True, px=ttl_ms)` and the two scripts, by whether they find what they want.
abbrev pub set_cell : Bool → ℕ → ℕ → Option Cell → Option Cell
set_cell found token expires cell =
    if found then some record { token = token; expires = expires } else cell

abbrev pub drop_cell : Bool → Option Cell → Option Cell
drop_cell found cell = if found then none else cell

abbrev pub handle_of : ℕ → Bool → ℕ → LeaseHandle
handle_of ttl_ms acquired until = record { ttl_ms = ttl_ms; acquired = acquired; until = until }

-- The tables after `set`, with the handle that is returned.
unfoldable pub acquire_handle : World → ℕ → ℕ → Reply → World
acquire_handle w token ttl_ms reply = record w {
  cell = set_cell (takes_effect reply && is_free (live w.now w.cell)) token (w.now + ttl_ms) w.cell;
  handles =
      put w.handles token
        (handle_of ttl_ms (is_answered reply && is_free (live w.now w.cell)) (w.now + ttl_ms));
}

-- `acquire`; `none` is the ValueError for a name or a time to live that is not allowed.
unfoldable pub acquire : World → Bool → ℕ → ℕ → Reply → Option World
unfolding acquire_handle
acquire w name_matches token ttl_seconds reply =
    if name_matches && leb 1 ttl_seconds && leb ttl_seconds 3600
    then some (acquire_handle w token (ttl_seconds * 1000) reply)
    else none

-- `renew` of a handle that is acquired.
unfoldable pub renew_handle : World → ℕ → LeaseHandle → Reply → World
renew_handle w token h reply = record w {
  cell =
      set_cell (takes_effect reply && is_held_by token (live w.now w.cell)) token (w.now + h.ttl_ms)
        w.cell;
  handles = put w.handles token (
      handle_of h.ttl_ms (is_answered reply && is_held_by token (live w.now w.cell))
        (w.now + h.ttl_ms));
}

-- `release` of a handle that is acquired: whatever Redis answers, the handle gives up.
unfoldable pub release_handle : World → ℕ → LeaseHandle → Reply → World
release_handle w token h reply = record w {
  cell = drop_cell (takes_effect reply && is_held_by token (live w.now w.cell)) w.cell;
  handles = put w.handles token (handle_of h.ttl_ms false h.until);
}

-- A handle that is not acquired returns at once.
abbrev pub if_acquired : World → Option LeaseHandle → (LeaseHandle → World) → World
if_acquired w none k = w
if_acquired w (some h) k = if h.acquired then k h else w

unfoldable pub renew : World → ℕ → Reply → World
unfolding renew_handle
renew w token reply = if_acquired w (w.handles token) (λ h. renew_handle w token h reply)

unfoldable pub release : World → ℕ → Reply → World
unfolding release_handle
release w token reply = if_acquired w (w.handles token) (λ h. release_handle w token h reply)

-- Time passes.
abbrev pub wait : World → ℕ → World
wait w elapsed = record w { now = w.now + elapsed }
