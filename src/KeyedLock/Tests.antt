-- ===== src/KeyedLock/Tests.antt =====
-- Runs and witnesses for the keyed lock.
use chat_pulse.Prelude.{◌≤◌, refl, [], ◌∷◌}
use chat_pulse.KeyedLock.{State, task, waiting, enter, acquire}
use chat_pulse.KeyedLock.Exclusion.{
  Reach, here, next, enters, acquires, start, holders, EntryFits, one_in_body,
}

-- Two tasks enter, and the first gets the lock.
abbrev first : State
unfolding enter
first = enter start start.entry

abbrev both : State
unfolding enter
both = enter first first.entry

abbrev busy : State
unfolding acquire
busy = acquire both (task 0 waiting ∷ []) 0 []

run : Reach start busy
unfolding first both enter acquire busy
run =
    next (next (next here (enters refl)) (enters refl))
      (acquires (task 0 waiting ∷ []) 0 [] refl refl refl)

one_in_body_example : (holders busy.tasks ≤ 1) × EntryFits busy.entry busy.tasks
one_in_body_example = one_in_body busy run
