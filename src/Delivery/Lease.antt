-- ===== src/Delivery/Lease.antt =====
-- Who may process an update while a claim's lease runs.
use chat_pulse.Prelude.{
  sym, ap, ◌∙◌, lt→ltb, ℕ, ◌+◌, ◌<◌, ◌≡◌, refl, String, false, some, Option-cases, Bool-cases, inl,
  inr, put,
}
use chat_pulse.Delivery.{
  update_lease, UpdateStatus, process, in_progress, is_completed, ProcessedUpdate, Updates, Cuts,
  lease_runs, claimed_row, first_row, begin_from, begin_update,
}
use chat_pulse.Delivery.Steps.{
  Step, Reach, here, next, begin_other, begin_same, complete_other, complete_same, fail_other,
  self_eq, begin-other, complete-other, fail-other,
}

-- The claim of an update runs until `until`.
record Leased (id until : ℕ) (s : Updates) : Type 0 where
  row : ProcessedUpdate
  found : s id ≡ some row
  processing : row.status ≡ UpdateStatus.processing
  lease : row.lease_expires_at ≡ some until

claimed-found :
    (cuts : Cuts) (s s' : Updates) (row : ProcessedUpdate) (id : ℕ) (ty : String) (current : ℕ)
    → begin_from cuts s (some row) id ty current ≡ (s', process)
    → s' id ≡ some (claimed_row cuts row ty current)
unfolding begin_from
claimed-found cuts s s' row id ty current h = elim (Bool-cases (is_completed row.status)) [
  | inl done ↦ absurd (cc (rw done at h))
  | inr open_ ↦ elim (Bool-cases (lease_runs row current)) [
    | inl runs ↦ absurd (cc (rw (open_, runs) at h))
    | inr over ↦
        let e : s' ≡ put s id (claimed_row cuts row ty current) =
          ap (λ p. p.0) (sym (rw (open_, over) at h)) in
        ap (λ (f : Updates). f id) e ∙ rw (self_eq id)
  ]
]

begin-process :
    (cuts : Cuts) (s s' : Updates) (id : ℕ) (update_type : String) (current : ℕ)
    → begin_update cuts s id update_type current ≡ (s', process)
    → Leased id (current + update_lease) s'
unfolding begin_update claimed_row first_row
begin-process cuts s s' id update_type current h = elim (Option-cases (s id)) [
  | inl new ↦ record {
    row = first_row cuts update_type current;
    found = rw (← ap (λ p. p.0) h, new, self_eq id);
    processing = refl;
    lease = refl;
  }
  | inr (row, e) ↦ record {
    row = claimed_row cuts row update_type current;
    found = claimed-found cuts s s' row id update_type current (rw e at h);
    processing = refl;
    lease = refl;
  }
]

begin-Leased :
    (cuts : Cuts) (s : Updates) (id until : ℕ) (update_type : String) (current : ℕ)
    → Leased id until s
    → current < until
    → begin_update cuts s id update_type current ≡ (s, in_progress)
unfolding begin_update lease_runs
begin-Leased cuts s id until update_type current l h =
    rw (l.found, l.processing, l.lease, lt→ltb current until h)

keep-Leased :
    (s s' : Updates) (id until : ℕ) → s' id ≡ s id → Leased id until s → Leased id until s'
keep-Leased s s' id until e l = record {
  row = l.row;
  found = e ∙ l.found;
  processing = l.processing;
  lease = l.lease;
}

Step-Leased :
    {cuts : Cuts} {id until : ℕ} {s s' : Updates}
    → Step cuts id (λ t. t < until) false s s'
    → Leased id until s
    → Leased id until s'
Step-Leased {cuts} {id} (begin_other {s} k ty t ne) l =
    keep-Leased s _ id _ (begin-other cuts s k id ty t ne) l
Step-Leased {cuts} {id} (begin_same {s} ty t early) l =
    keep-Leased s _ id _ (ap (λ p. p.0 id) (begin-Leased cuts s id _ ty t l early)) l
Step-Leased {cuts} {id} (complete_other {s} {s'} k t ne e) l =
    keep-Leased s s' id _ (complete-other s s' k id t ne e) l
Step-Leased (complete_same t never e) l = cc never
Step-Leased {cuts} {id} (fail_other {s} {s'} k err t ne e) l =
    keep-Leased s s' id _ (fail-other cuts s s' k id err t ne e) l

-- While a claim's five minutes run and it is neither completed nor failed, no other worker gets
-- the update: whatever other operations came between, each attempt to begin it before the end of
-- the lease is answered as in progress and changes nothing.
pub lease_excludes :
    (cuts : Cuts) (s s1 s2 : Updates) (id : ℕ) (ty ty' : String) (current current' : ℕ)
    → begin_update cuts s id ty current ≡ (s1, process)
    → Reach cuts id (λ t. t < current + update_lease) false s1 s2
    → current' < current + update_lease
    → begin_update cuts s2 id ty' current' ≡ (s2, in_progress)
lease_excludes cuts s s1 s2 id ty ty' current current' claimed between early =
    begin-Leased cuts s2 id (current + update_lease) ty' current'
      (keep between (begin-process cuts s s1 id ty current claimed)) early
  where
    keep :
        {t : Updates}
        → Reach cuts id (λ t. t < current + update_lease) false s1 t
        → Leased id (current + update_lease) s1
        → Leased id (current + update_lease) t
    keep here l = l
    keep (next r st) l = Step-Leased st (keep r l)
