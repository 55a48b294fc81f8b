-- ===== src/Delivery/Steps.antt =====
-- Sequences of operations on the claims, by any workers.
use chat_pulse.Prelude.{
  ℕ, ◌≡◌, refl, String, Bool, true, false, some, Option-cases, inl, inr, ◌==◌, ==_iff, arith,
}
use chat_pulse.Delivery.{Updates, Cuts, begin_update, complete_update, fail_update}

pub self_eq : (n : ℕ) → (n == n) ≡ true
self_eq n = (==_iff n n).1 refl

-- One operation of any worker. For the update `id`, `MayBegin` says at which times it is begun and
-- `may_complete` whether it is completed, and it is never failed; other updates are free.
pub data Step (cuts : Cuts) (id : ℕ) (MayBegin : ℕ → Type 0) (may_complete : Bool)
    : Updates → Updates → Type 0 where
  begin_other :
      {s : Updates}
      → (k : ℕ) (update_type : String) (current : ℕ) → (k == id) ≡ false
      → Step cuts id MayBegin may_complete s (begin_update cuts s k update_type current).0
  begin_same :
      {s : Updates}
      → (update_type : String) (current : ℕ) → MayBegin current
      → Step cuts id MayBegin may_complete s (begin_update cuts s id update_type current).0
  complete_other :
      {s s' : Updates}
      → (k current : ℕ) → (k == id) ≡ false
      → complete_update s k current ≡ some s'
      → Step cuts id MayBegin may_complete s s'
  complete_same :
      {s s' : Updates}
      → (current : ℕ) → may_complete ≡ true
      → complete_update s id current ≡ some s'
      → Step cuts id MayBegin may_complete s s'
  fail_other :
      {s s' : Updates}
      → (k : ℕ) (safe_error : String) (current : ℕ) → (k == id) ≡ false
      → fail_update cuts s k safe_error current ≡ some s'
      → Step cuts id MayBegin may_complete s s'

pub data Reach (cuts : Cuts) (id : ℕ) (MayBegin : ℕ → Type 0) (may_complete : Bool) (s : Updates)
    : Updates → Type 0 where
  here : Reach cuts id MayBegin may_complete s s
  next :
      {t u : Updates}
      → Reach cuts id MayBegin may_complete s t
      → Step cuts id MayBegin may_complete t u
      → Reach cuts id MayBegin may_complete s u

pub begin-other :
    (cuts : Cuts) (s : Updates) (k id : ℕ) (update_type : String) (current : ℕ)
    → (k == id) ≡ false
    → (begin_update cuts s k update_type current).0 id ≡ s id
unfolding begin_update
begin-other cuts s k id update_type current ne = elim (Option-cases (s k)) [
  | inl new ↦ rw (new, ne)
  | inr (row, e) ↦ rw e (ground arith)
]

pub complete-other :
    (s s' : Updates) (k id current : ℕ)
    → (k == id) ≡ false
    → complete_update s k current ≡ some s'
    → s' id ≡ s id
unfolding complete_update
complete-other s s' k id current ne h = ground arith

pub fail-other :
    (cuts : Cuts) (s s' : Updates) (k id : ℕ) (safe_error : String) (current : ℕ)
    → (k == id) ≡ false
    → fail_update cuts s k safe_error current ≡ some s'
    → s' id ≡ s id
unfolding fail_update
fail-other cuts s s' k id safe_error current ne h = ground arith
