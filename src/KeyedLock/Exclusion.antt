-- ===== src/KeyedLock/Exclusion.antt =====
-- The lock of a key excludes, over any order of the sections of any number of tasks.
use mathlib.Core.Path.{subst}
use chat_pulse.Prelude.{
  ℕ, ◌+◌, ◌-◌, ◌≤◌, ◌<◌, ◌≡◌, refl, Bool, true, false, not, ◌&&◌, Option, none, some, List, [], ◌∷◌,
  ◌++◌, ◌==◌, ==_iff, if◌then◌else◌, arith, length, Bool-cases, inl, inr,
}
use chat_pulse.KeyedLock.{
  Phase, waiting, holding, leaving, Task, LockEntry, State, task, enter, set_locked, acquire,
  release, cancel, entry_after, leave,
}

-- A section of some task. The lock is given to a task that waits only while it is not locked.
pub data Step : State → State → Type 0 where
  enters : {s s' : State} → enter s s.entry ≡ s' → Step s s'
  acquires :
      {s s' : State}
      → (before : List Task) (id : ℕ) (after : List Task)
      → s.tasks ≡ before ++ (task id waiting ∷ after)
      → s.locked id ≡ false
      → acquire s before id after ≡ s'
      → Step s s'
  releases :
      {s s' : State}
      → (before : List Task) (id : ℕ) (after : List Task)
      → s.tasks ≡ before ++ (task id holding ∷ after)
      → release s before id after ≡ s'
      → Step s s'
  cancels :
      {s s' : State}
      → (before : List Task) (id : ℕ) (after : List Task)
      → s.tasks ≡ before ++ (task id waiting ∷ after)
      → cancel s before id after ≡ s'
      → Step s s'
  leaves :
      {s s' : State}
      → (before : List Task) (id : ℕ) (after : List Task)
      → s.tasks ≡ before ++ (task id leaving ∷ after)
      → leave s before after ≡ s'
      → Step s s'

pub data Reach (s : State) : State → Type 0 where
  here : Reach s s
  next : {t u : State} → Reach s t → Step t u → Reach s u

abbrev pub is_holding : Phase → ℕ
is_holding holding = 1
is_holding _ = 0

-- How many tasks are in the body of `hold`.
abbrev pub holders : List Task → ℕ
holders [] = 0
holders (t ∷ l) = is_holding t.phase + holders l

-- How many tasks have another entry in hand.
abbrev pub strays : ℕ → List Task → ℕ
strays id [] = 0
strays id (t ∷ l) = (if t.entry == id then 0 else 1) + strays id l

holders-append : (xs ys : List Task) → holders (xs ++ ys) ≡ holders xs + holders ys
holders-append [] ys = omega arith
holders-append (x ∷ xs) ys = omega (arith, holders-append xs ys)

strays-append : (id : ℕ) (xs ys : List Task) → strays id (xs ++ ys) ≡ strays id xs + strays id ys
strays-append id [] ys = omega arith
strays-append id (x ∷ xs) ys = omega (arith, strays-append id xs ys)

length-append : (xs ys : List Task) → length (xs ++ ys) ≡ length xs + length ys
length-append [] ys = omega arith
length-append (x ∷ xs) ys = omega (arith, length-append xs ys)

holders_le : (l : List Task) → holders l ≤ length l
holders_le [] = omega arith
holders_le (t ∷ l) = ground (arith, holders_le l)

-- What the numbers of a state say: all tasks in `hold` have the entry of the dict, it counts them and
-- there is one,
-- its lock is locked exactly while one of them is in the body, and no entry is made twice.
abbrev Fits : Option LockEntry → (ℕ → Bool) → ℕ → List Task → Type 0
Fits none locked next_id tasks = length tasks ≡ 0
Fits (some e) locked next_id tasks =
    (e.users ≡ length tasks)
    × (strays e.id tasks ≡ 0)
    × (holders tasks ≡ (if locked e.id then 1 else 0))
    × (e.id < next_id)
    × (0 < e.users)

pub record IsSound (s : State) : Type 0 where
  fits : Fits s.entry s.locked s.next_id s.tasks
  fresh : (id : ℕ) → s.next_id ≤ id → s.locked id ≡ false

no_tasks : (l : List Task) → length l ≡ 0 → l ≡ []
no_tasks [] h = refl
no_tasks (x ∷ l) h = absurd (omega (arith, h))

enter-IsSound : (s : State) (o : Option LockEntry) → s.entry ≡ o → IsSound s → IsSound (enter s o)
unfolding enter
enter-IsSound s none e h =
    let empty : length s.tasks ≡ 0 = subst (λ o. Fits o s.locked s.next_id s.tasks) e h.fits in
    let nobody : s.tasks ≡ [] = no_tasks s.tasks empty in
    let free : s.locked s.next_id ≡ false = h.fresh s.next_id (omega arith) in
    record {
      fits = (
        rw nobody (omega arith),
        rw nobody (ground arith),
        rw nobody (rw free refl),
        omega arith,
        omega arith,
      );
      fresh = λ id more. h.fresh id (omega (arith, more));
    }
enter-IsSound s (some e) eq h =
    let (users, same, held, below, used_by) =
      subst (λ o. Fits o s.locked s.next_id s.tasks) eq h.fits in
    record {
      fits = (omega (arith, users), ground (arith, same), omega (arith, held), below, omega arith);
      fresh = h.fresh;
    }

module _ (locked : ℕ → Bool) (next_id : ℕ) (before : List Task) (id : ℕ) (after : List Task) where
  -- The tasks, with one at the given phase.
  abbrev at_phase : Phase → List Task
  at_phase phase = before ++ (task id phase ∷ after)

  length_at : (p : Phase) → length (at_phase p) ≡ length before + length after + 1
  length_at p = omega (arith, length-append before (task id p ∷ after))

  strays_at :
      (k : ℕ) (p : Phase)
      → strays k (at_phase p) ≡ strays k before + strays k after + (if id == k then 0 else 1)
  strays_at k p = omega (arith, strays-append k before (task id p ∷ after))

  holders_at : (p : Phase) → holders (at_phase p) ≡ holders before + holders after + is_holding p
  holders_at p = omega (arith, holders-append before (task id p ∷ after))

  -- A task that goes on to another phase, where the lock is told of it.
  moves-Fits :
      (o : Option LockEntry) (p q : Phase) (locked' : ℕ → Bool)
      → ((k : ℕ)
          → (id == k) ≡ true
          → holders (at_phase p) ≡ (if locked k then 1 else 0)
          → holders (at_phase q) ≡ (if locked' k then 1 else 0))
      → Fits o locked next_id (at_phase p)
      → Fits o locked' next_id (at_phase q)
  moves-Fits none p q locked' step h = omega (arith, h, length_at p, length_at q)
  moves-Fits (some e) p q locked' step (users, same, held, below, used_by) = (
    omega (arith, users, length_at p, length_at q),
    omega (arith, same, strays_at e.id p, strays_at e.id q),
    step e.id (ground (arith, same, strays_at e.id p)) held,
    below,
    used_by,
  )

  acquire-Fits :
      (o : Option LockEntry)
      → locked id ≡ false
      → Fits o locked next_id (at_phase waiting)
      → Fits o (set_locked locked id true) next_id (at_phase holding)
  acquire-Fits o free = moves-Fits o waiting holding (set_locked locked id true) λ k mine held.
      let unlocked : locked k ≡ false = subst (λ i. locked i ≡ false) ((==_iff id k).0 mine) free in
      rw mine (omega (arith, holders_at waiting, holders_at holding, rw unlocked at held))

  release-Fits :
      (o : Option LockEntry)
      → Fits o locked next_id (at_phase holding)
      → Fits o (set_locked locked id false) next_id (at_phase leaving)
  release-Fits o =
      moves-Fits o holding leaving (set_locked locked id false)
        λ k mine held. rw mine (ground (arith, held, holders_at holding, holders_at leaving))

  cancel-Fits :
      (o : Option LockEntry)
      → Fits o locked next_id (at_phase waiting)
      → Fits o locked next_id (at_phase leaving)
  cancel-Fits o =
      moves-Fits o waiting leaving locked
        λ k _ held. omega (arith, holders_at waiting, holders_at leaving, held)

  leave-Fits :
      (o : Option LockEntry)
      → Fits o locked next_id (at_phase leaving)
      → Fits (entry_after o locked) locked next_id (before ++ after)
  unfolding entry_after
  leave-Fits none h = absurd (omega (arith, h, length_at leaving))
  leave-Fits (some e) (users, same, held, below, used_by) =
      elim (Bool-cases (((e.users - 1) == 0) && not (locked e.id))) [
        | inl unused ↦
            rw unused (ground (arith, users, unused, length_at leaving, length-append before after))
        | inr used ↦ rw used (
          omega (arith, users, length_at leaving, length-append before after),
          omega (arith, same, strays_at e.id leaving, strays-append e.id before after),
          omega (arith, held, holders_at leaving, holders-append before after),
          below,
          ground (
            arith,
            used,
            users,
            held,
            length_at leaving,
            holders_at leaving,
            holders_le before,
            holders_le after,
          ),
        )
      ]

  -- The entry that a task has in hand was made before.
  id_below : (o : Option LockEntry) (p : Phase) → Fits o locked next_id (at_phase p) → id < next_id
  id_below none p h = absurd (omega (arith, h, length_at p))
  id_below (some e) p (users, same, held, below, used_by) =
      ground (arith, same, strays_at e.id p, below)

  -- So its lock is not that of an entry to come.
  set_locked-fresh :
      (b : Bool)
      → id < next_id
      → ((i : ℕ) → next_id ≤ i → locked i ≡ false)
      → (i : ℕ) → next_id ≤ i
      → set_locked locked id b i ≡ false
  set_locked-fresh b below fresh i more = ground (arith, fresh i more)

Step-IsSound : (s s' : State) → Step s s' → IsSound s → IsSound s'
unfolding acquire release cancel leave
Step-IsSound s s' (enters e) h = subst IsSound e (enter-IsSound s s.entry refl h)
Step-IsSound s s' (acquires before id after at free e) h =
    let fits = subst (Fits s.entry s.locked s.next_id) at h.fits in
    subst IsSound e record {
      fits = acquire-Fits s.locked s.next_id before id after s.entry free fits;
      fresh =
          set_locked-fresh s.locked s.next_id before id after true
            (id_below s.locked s.next_id before id after s.entry waiting fits) h.fresh;
    }
Step-IsSound s s' (releases before id after at e) h =
    let fits = subst (Fits s.entry s.locked s.next_id) at h.fits in
    subst IsSound e record {
      fits = release-Fits s.locked s.next_id before id after s.entry fits;
      fresh =
          set_locked-fresh s.locked s.next_id before id after false
            (id_below s.locked s.next_id before id after s.entry holding fits) h.fresh;
    }
Step-IsSound s s' (cancels before id after at e) h =
    let fits = subst (Fits s.entry s.locked s.next_id) at h.fits in
    subst IsSound e
      record { fits = cancel-Fits s.locked s.next_id before id after s.entry fits; fresh = h.fresh }
Step-IsSound s s' (leaves before id after at e) h =
    let fits = subst (Fits s.entry s.locked s.next_id) at h.fits in
    subst IsSound e
      record { fits = leave-Fits s.locked s.next_id before id after s.entry fits; fresh = h.fresh }

Reach-IsSound : (s s' : State) → IsSound s → Reach s s' → IsSound s'
Reach-IsSound s s' h here = h
Reach-IsSound s s' h (next {t} r step) = Step-IsSound t s' step (Reach-IsSound s t h r)

-- The state before the first call.
abbrev pub start : State
start = record { entry = none; locked = λ id. false; next_id = 0; tasks = [] }

start-IsSound : IsSound start
start-IsSound = record { fits = refl; fresh = λ id more. refl }

abbrev pub EntryFits : Option LockEntry → List Task → Type 0
EntryFits none tasks = tasks ≡ []
EntryFits (some e) tasks = (e.users ≡ length tasks) × (strays e.id tasks ≡ 0) × (0 < e.users)

one_holder_of :
    (o : Option LockEntry) (locked : ℕ → Bool) (next_id : ℕ) (tasks : List Task)
    → Fits o locked next_id tasks
    → (holders tasks ≤ 1) × EntryFits o tasks
one_holder_of none locked next_id tasks h =
    let nobody = no_tasks tasks h in (rw nobody (omega arith), nobody)
one_holder_of (some e) locked next_id tasks (users, same, held, below, used_by) =
    (ground (arith, held), (users, same, used_by))

-- In whatever order the sections of any number of tasks run, with bodies that end and tasks that
-- are cancelled while they wait: never more than one task is in the body of `hold` of one key; the
-- dict has the entry that every task in `hold` has in hand, with their number; and it has none where
-- there is no such task.
pub one_in_body : (s : State) → Reach start s → (holders s.tasks ≤ 1) × EntryFits s.entry s.tasks
one_in_body s r =
    one_holder_of s.entry s.locked s.next_id s.tasks (Reach-IsSound start s start-IsSound r).fits
