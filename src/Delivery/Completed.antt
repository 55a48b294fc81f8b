-- ===== src/Delivery/Completed.antt =====
-- What becomes of an update after it was completed or failed.
use chat_pulse.Prelude.{
  sym, ap, ◌∙◌, ℕ, ◌+◌, ◌≡◌, refl, String, Bool, true, some, Option-cases, inl, inr, put, arith,
}
use chat_pulse.Delivery.{
  UpdateStatus, process, completed_duplicate, ProcessedUpdate, Updates, Cuts, claimed_row,
  begin_update, complete_row, complete_update, fail_row, fail_update,
}
use chat_pulse.Delivery.Steps.{
  Step, Reach, here, next, begin_other, begin_same, complete_other, complete_same, fail_other,
  self_eq, begin-other, complete-other, fail-other,
}

-- The update is completed.
pub record Completed (id : ℕ) (s : Updates) : Type 0 where
  pub row : ProcessedUpdate
  pub found : s id ≡ some row
  pub completed : row.status ≡ UpdateStatus.completed

pub begin-Completed :
    (cuts : Cuts) (s : Updates) (id : ℕ) (update_type : String) (current : ℕ)
    → Completed id s
    → begin_update cuts s id update_type current ≡ (s, completed_duplicate)
unfolding begin_update
begin-Completed cuts s id update_type current c = rw (c.found, c.completed)

pub complete-Completed :
    (s s' : Updates) (id current : ℕ) → complete_update s id current ≡ some s' → Completed id s'
unfolding complete_update complete_row
complete-Completed s s' id current h = elim (Option-cases (s id)) [
  | inl missing ↦ absurd (cc (rw (complete_update, missing) at h))
  | inr (row, e) ↦ record {
    row = complete_row row current;
    found =
        let same : put s id (complete_row row current) ≡ s' =
          ground (arith, rw (complete_update, e) at h) in
        ap (λ (f : Updates). f id) (sym same) ∙ rw (self_eq id);
    completed = refl;
  }
]

keep-Completed : (s s' : Updates) (id : ℕ) → s' id ≡ s id → Completed id s → Completed id s'
keep-Completed s s' id e c = record { row = c.row; found = e ∙ c.found; completed = c.completed }

Step-Completed :
    {cuts : Cuts} {id : ℕ} {MayBegin : ℕ → Type 0} {b : Bool} {s s' : Updates}
    → Step cuts id MayBegin b s s'
    → Completed id s
    → Completed id s'
Step-Completed {cuts} {id} (begin_other {s} k ty t ne) c =
    keep-Completed s _ id (begin-other cuts s k id ty t ne) c
Step-Completed {cuts} {id} (begin_same {s} ty t early) c =
    keep-Completed s _ id (ap (λ p. p.0 id) (begin-Completed cuts s id ty t c)) c
Step-Completed {cuts} {id} (complete_other {s} {s'} k t ne e) c =
    keep-Completed s s' id (complete-other s s' k id t ne e) c
Step-Completed {cuts} {id} (complete_same {s} {s'} t may e) c = complete-Completed s s' id t e
Step-Completed {cuts} {id} (fail_other {s} {s'} k err t ne e) c =
    keep-Completed s s' id (fail-other cuts s s' k id err t ne e) c

-- Once an update is completed, and as long as no worker fails it, every later attempt to begin it
-- is answered as a completed duplicate and changes nothing, at any time and whatever other
-- operations came between.
pub completed_sticks :
    (cuts : Cuts) (s s1 s2 : Updates) (id current current' : ℕ) (ty : String)
    → complete_update s id current ≡ some s1
    → Reach cuts id (λ _. Unit) true s1 s2
    → begin_update cuts s2 id ty current' ≡ (s2, completed_duplicate)
completed_sticks cuts s s1 s2 id current current' ty completed between =
    begin-Completed cuts s2 id ty current'
      (keep between (complete-Completed s s1 id current completed))
  where
    keep : {t : Updates} → Reach cuts id (λ _. Unit) true s1 t → Completed id s1 → Completed id t
    keep here c = c
    keep (next r st) c = Step-Completed st (keep r c)

-- A failure reopens the update whatever state it was in, completed by another worker included: the
-- next attempt to begin it, at any time, is told to process it, and its attempts grow by one.
pub failure_reopens :
    (cuts : Cuts) (s : Updates) (id : ℕ) (row : ProcessedUpdate) (error ty : String)
    (current current' : ℕ)
    → s id ≡ some row
    → (s1 : Updates) × (fail_update cuts s id error current ≡ some s1)
      × (s2 : Updates) × (begin_update cuts s1 id ty current' ≡ (s2, process))
      × (row2 : ProcessedUpdate) × (s2 id ≡ some row2)
      × (row2.attempts ≡ row.attempts + 1)
unfolding fail_update begin_update fail_row
failure_reopens cuts s id row error ty current current' e =
    let s1 : Updates = put s id (fail_row cuts row error current) in
    let row2 = claimed_row cuts (fail_row cuts row error current) ty current' in
    (s1, rw (fail_update, e), put s1 id row2, rw (self_eq id), row2, rw (self_eq id), refl)
