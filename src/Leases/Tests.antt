-- ===== src/Leases/Tests.antt =====
-- Runs and witnesses for the leases.
use chat_pulse.Prelude.{ℕ, ◌≡◌, refl, true, false, none, some, arith, Option, List, [], ◌∷◌}
use chat_pulse.Leases.{World, answered, live, acquire_handle, acquire, renew_handle, renew, wait}
use chat_pulse.Leases.Holder.{acquires, renews, waits, Reach, here, next, Holds, one_holder}
use chat_pulse.Leases.Lock.{LockEvent, acquire_call, renew_call, time_passes, LockRun, holder}
use chat_pulse.Leases.Refines.{lease_refines_lock}

abbrev start : World
start = record { now = 0; cell = none; handles = λ t. none }

-- Token 1 takes the lease for ten seconds and renews it after five; token 2 is refused.
abbrev taken : World
unfolding acquire_handle live
taken = acquire_handle start 1 10000 answered

abbrev waited : World
waited = wait taken 5000

abbrev renewed : World
unfolding renew renew_handle live
renewed = renew waited 1 answered

abbrev refused : World
unfolding acquire_handle live
refused = acquire_handle renewed 2 60000 answered

taken-by_call : acquire start true 1 10 answered ≡ some taken
unfolding acquire acquire_handle live
taken-by_call = refl

refused-by_call : acquire renewed true 2 60 answered ≡ some refused
unfolding acquire acquire_handle live renew renew_handle
refused-by_call = refl

run : Reach start refused
unfolding renewed renew
run =
    next
      (next (next (next here (acquires true 1 10 answered taken-by_call)) (waits 5000 refl))
        (renews 1 answered refl))
      (acquires true 2 60 answered refused-by_call)

Holds-one : Holds refused 1
unfolding acquire_handle live renew renew_handle
Holds-one = record {
  handle = record { ttl_ms = 10000; acquired = true; until = 15000 };
  found = refl;
  acquired = refl;
  in_time = omega arith;
}

one_holder_example : ◌≡◌ {A = ℕ} 1 1 × (live refused.now refused.cell ≡ some 1)
one_holder_example = one_holder start refused 1 1 (λ t h there. absurd (cc)) run Holds-one Holds-one

-- Token 1 is granted the lock and keeps it after a wait, and token 2 is refused.
abbrev seen : List (LockEvent × Option ℕ)
seen =
    (acquire_call 2 false, some 1)
    ∷ (renew_call 1 true, some 1)
    ∷ (time_passes, some 1)
    ∷ (acquire_call 1 true, some 1)
    ∷ []

lease_refines_lock_example : LockRun none (holder refused) seen
unfolding live run acquire_handle renew renew_handle
lease_refines_lock_example = lease_refines_lock start refused run (λ t h there. absurd (cc))
