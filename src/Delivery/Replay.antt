-- ===== src/Delivery/Replay.antt =====
-- What a second delivery of an update does, after one that was answered.
use chat_pulse.Prelude.{
  ap, sym, ◌∙◌, ℕ, ◌≡◌, refl, String, true, Option, none, some, List, Option-cases, inl, inr, put,
  is_some, if◌then◌else◌, arith,
}
use chat_pulse.Delivery.{
  UpdateClaim, UpdateStatus, process, completed_duplicate, in_progress, ProcessedUpdate, Updates,
  Cuts, lease_runs, claimed_row, begin_update, complete_update, fail_update, fail_row,
}
use chat_pulse.Delivery.Steps.{self_eq}
use chat_pulse.Delivery.Completed.{Completed, begin-Completed, complete-Completed}
use chat_pulse.Delivery.Body.{body, read_body}
use chat_pulse.Delivery.Webhook.{
  Payload, Runtime, Request, Reply, ok, duplicate, processing_failed, update_type_of,
  or_empty_object, settle_claim, dispatch, on_claim, on_id, on_payload, on_body, same_secret,
  telegram_webhook,
}

-- A request with the right secret whose body is accepted and decodes to a payload.
pub record Carries {X : Type 0} (rt : Runtime X) (r : Request) (payload : Payload) : Type 0 where
  pub secret : same_secret rt r.telegram_secret ≡ true
  pub bytes : List ℕ
  pub accepted : read_body rt.int rt.max_body_bytes r.content_length r.chunks ≡ body bytes
  pub decoded : rt.decode (or_empty_object bytes) ≡ some payload

-- The row says that the last attempt failed.
record Failed (id : ℕ) (s : Updates) : Type 0 where
  row : ProcessedUpdate
  found : s id ≡ some row
  failed : row.status ≡ UpdateStatus.failed

pair_eq : (p : Updates × Reply) {s : Updates} {r : Reply} → p.0 ≡ s → p.1 ≡ r → p ≡ (s, r)
pair_eq (a, b) e f = cc (e, f)

settle-ok :
    (cuts : Cuts) (s s1 : Updates) (id : ℕ) (e : Option String) (t : ℕ)
    → settle_claim cuts s (some id) e t ≡ (s1, ok)
    → Completed id s1
unfolding settle_claim
settle-ok cuts s s1 id none t h = elim (Option-cases (complete_update s id t)) [
  | inl gone ↦ absurd (cc (rw (settle_claim, gone) at h))
  | inr (s', done) ↦
      complete-Completed s s1 id t (done ∙ ap some (ap (λ p. p.0) (rw (settle_claim, done) at h)))
]
settle-ok cuts s s1 id (some e) t h = elim (Option-cases (fail_update cuts s id e t)) [
  | inl gone ↦ absurd (cc (rw (settle_claim, gone) at h))
  | inr (s', done) ↦ absurd (cc (rw (settle_claim, done) at h))
]

fail-Failed :
    (cuts : Cuts) (s s1 : Updates) (id : ℕ) (e : String) (t : ℕ)
    → fail_update cuts s id e t ≡ some s1
    → Failed id s1
unfolding fail_update fail_row
fail-Failed cuts s s1 id e t h = elim (Option-cases (s id)) [
  | inl missing ↦ absurd (cc (rw (fail_update, missing) at h))
  | inr (row, found_) ↦ record {
    row = fail_row cuts row e t;
    found =
        let same : put s id (fail_row cuts row e t) ≡ s1 =
          ground (arith, rw (fail_update, found_) at h) in
        ap (λ (f : Updates). f id) (sym same) ∙ rw (self_eq id);
    failed = refl;
  }
]

settle-Failed :
    (cuts : Cuts) (s s1 : Updates) (id : ℕ) (e : Option String) (t : ℕ)
    → settle_claim cuts s (some id) e t ≡ (s1, processing_failed)
    → Failed id s1
unfolding settle_claim
settle-Failed cuts s s1 id none t h = elim (Option-cases (complete_update s id t)) [
  | inl gone ↦ absurd (cc (rw (settle_claim, gone) at h))
  | inr (s', done) ↦ absurd (cc (rw (settle_claim, done) at h))
]
settle-Failed cuts s s1 id (some e) t h = elim (Option-cases (fail_update cuts s id e t)) [
  | inl gone ↦ absurd (cc (rw (settle_claim, gone) at h))
  | inr (s', done) ↦
      fail-Failed cuts s s1 id e t (done ∙ ap some (ap (λ p. p.0) (rw (settle_claim, done) at h)))
]

module _ {X : Type 0} (rt : Runtime X) where
  webhook-Carries :
      (s : Updates) (x : X) (r : Request) (payload : Payload)
      → Carries rt r payload
      → telegram_webhook rt s x r ≡ on_payload rt s x payload r.received_at r.finished_at
  unfolding telegram_webhook on_body
  webhook-Carries s x r payload c = rw (c.secret, c.accepted, on_body, c.decoded)

  on_payload-id :
      (s : Updates) (x : X) (payload : Payload) (id received finished : ℕ)
      → payload.update_id ≡ some id
      → on_payload rt s x payload received finished
        ≡ on_claim rt
            (begin_update rt.cuts s id (update_type_of payload.keys) received)
            x
            payload
            finished
  unfolding on_payload on_id
  on_payload-id s x payload id received finished e =
      ap (λ o. on_id rt s x payload o received finished) e

  claim-Completed :
      (c : Updates × UpdateClaim) (x x1 : X) (s1 : Updates) (payload : Payload) (id t : ℕ)
      → payload.update_id ≡ some id
      → on_claim rt c x payload t ≡ ((s1, x1), ok)
      → Completed id s1
  unfolding on_claim dispatch
  claim-Completed (s, process) x x1 s1 payload id t e h =
      settle-ok rt.cuts s s1 id (rt.feed_update payload x).1 t (
        ap (λ o. settle_claim rt.cuts s o (rt.feed_update payload x).1 t) (sym e)
        ∙ pair_eq _ (ap (λ p. p.0.0) h) (ap (λ p. p.1) h))
  claim-Completed (s, completed_duplicate) x x1 s1 payload id t e h = absurd (cc h)
  claim-Completed (s, in_progress) x x1 s1 payload id t e h = absurd (cc h)

  claim-Failed :
      (c : Updates × UpdateClaim) (x x1 : X) (s1 : Updates) (payload : Payload) (id t : ℕ)
      → payload.update_id ≡ some id
      → on_claim rt c x payload t ≡ ((s1, x1), processing_failed)
      → Failed id s1
  unfolding on_claim dispatch
  claim-Failed (s, process) x x1 s1 payload id t e h =
      settle-Failed rt.cuts s s1 id (rt.feed_update payload x).1 t (
        ap (λ o. settle_claim rt.cuts s o (rt.feed_update payload x).1 t) (sym e)
        ∙ pair_eq _ (ap (λ p. p.0.0) h) (ap (λ p. p.1) h))
  claim-Failed (s, completed_duplicate) x x1 s1 payload id t e h = absurd (cc h)
  claim-Failed (s, in_progress) x x1 s1 payload id t e h = absurd (cc h)

  -- After a delivery of an update was answered with success, every delivery of a payload with the
  -- same update id is answered as a duplicate: the dispatcher does not run, and neither the claims
  -- nor the bot's state change.
  pub webhook-again :
      (s s1 : Updates) (x x1 : X) (r r' : Request) (payload payload' : Payload) (id : ℕ)
      → Carries rt r payload
      → Carries rt r' payload'
      → payload.update_id ≡ some id
      → payload'.update_id ≡ some id
      → telegram_webhook rt s x r ≡ ((s1, x1), ok)
      → telegram_webhook rt s1 x1 r' ≡ ((s1, x1), duplicate)
  unfolding on_claim
  webhook-again s s1 x x1 r r' payload payload' id c c' e e' answered =
      let first =
        sym (on_payload-id s x payload id r.received_at r.finished_at e)
        ∙ (sym (webhook-Carries s x r payload c) ∙ answered) in
      let done : Completed id s1 =
        claim-Completed (begin_update rt.cuts s id (update_type_of payload.keys) r.received_at) x x1
          s1 payload id r.finished_at e first in
      webhook-Carries s1 x1 r' payload' c'
      ∙ (on_payload-id s1 x1 payload' id r'.received_at r'.finished_at e'
          ∙ ap (λ k. on_claim rt k x1 payload' r'.finished_at)
              (begin-Completed rt.cuts s1 id (update_type_of payload'.keys) r'.received_at done))

  settle-present :
      (s : Updates) (o : Option ℕ) (id : ℕ) (row : ProcessedUpdate) (e : Option String) (t : ℕ)
      → o ≡ some id
      → (settle_claim rt.cuts (put s id row) o e t).1
        ≡ (if is_some e then processing_failed else ok)
  unfolding settle_claim complete_update fail_update
  settle-present s o id row none t h =
      ap (λ k. (settle_claim rt.cuts (put s id row) k none t).1) h
      ∙ rw (settle_claim, complete_update, self_eq id)
  settle-present s o id row (some error) t h =
      ap (λ k. (settle_claim rt.cuts (put s id row) k (some error) t).1) h
      ∙ rw (settle_claim, fail_update, self_eq id)

  begin-Failed :
      (s : Updates) (id : ℕ) (ty : String) (t : ℕ)
      → Failed id s
      → (row : ProcessedUpdate) × (begin_update rt.cuts s id ty t ≡ (put s id row, process))
  unfolding begin_update lease_runs
  begin-Failed s id ty t f = (claimed_row rt.cuts f.row ty t, rw (f.found, f.failed))

  -- After a delivery whose processing failed, the next delivery of the update is processed at
  -- once, with no wait for a lease: the dispatcher runs on its payload, and the answer is success
  -- exactly if the dispatcher raises nothing.
  pub webhook_retry :
      (s s1 : Updates) (x x1 : X) (r r' : Request) (payload payload' : Payload) (id : ℕ)
      → Carries rt r payload
      → Carries rt r' payload'
      → payload.update_id ≡ some id
      → payload'.update_id ≡ some id
      → telegram_webhook rt s x r ≡ ((s1, x1), processing_failed)
      → let ((s2, x2), reply) = telegram_webhook rt s1 x1 r' in
        (x2 ≡ (rt.feed_update payload' x1).0)
        × (reply ≡ (if is_some (rt.feed_update payload' x1).1 then processing_failed else ok))
  unfolding on_claim dispatch
  webhook_retry s s1 x x1 r r' payload payload' id c c' e e' answered =
      let first =
        sym (on_payload-id s x payload id r.received_at r.finished_at e)
        ∙ (sym (webhook-Carries s x r payload c) ∙ answered) in
      let (row, again) = begin-Failed s1 id (update_type_of payload'.keys) r'.received_at (
        claim-Failed (begin_update rt.cuts s id (update_type_of payload.keys) r.received_at) x x1 s1
          payload id r.finished_at e first) in
      let second =
        webhook-Carries s1 x1 r' payload' c'
        ∙ (on_payload-id s1 x1 payload' id r'.received_at r'.finished_at e'
            ∙ ap (λ k. on_claim rt k x1 payload' r'.finished_at) again) in
      (
        ap (λ p. p.0.1) second,
        ap (λ p. p.1) second
            ∙ settle-present s1 payload'.update_id id row (rt.feed_update payload' x1).1
                r'.finished_at e',
      )
