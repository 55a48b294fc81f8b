-- ===== src/Delivery/Tests.antt =====
-- Runs and witnesses for the webhook and the claims.
use chat_pulse.Prelude.{ℕ, ◌+◌, ◌≡◌, refl, String, Option, none, some, [], ◌∷◌, put, arith}
use chat_pulse.Prelude.Int.{ℤ, pos}
use chat_pulse.Delivery.{
  process, completed_duplicate, in_progress, ProcessedUpdate, Updates, Cuts, first_row, begin_from,
  begin_update, complete_row, complete_update, fail_update,
}
use chat_pulse.Delivery.Steps.{here, next, begin_same, begin_other}
use chat_pulse.Delivery.Lease.{lease_excludes}
use chat_pulse.Delivery.Completed.{completed_sticks, failure_reopens}
use chat_pulse.Delivery.Body.{read_stream, read_body}
use chat_pulse.Delivery.Webhook.{
  Payload, Runtime, Request, Reply, ok, duplicate, processing_failed, settle_claim, dispatch,
  on_claim, on_id, on_payload, on_body, telegram_webhook,
}
use chat_pulse.Delivery.Replay.{Carries, webhook-again, webhook_retry}

abbrev cuts : Cuts
cuts = record { cut_type = λ t. t; cut_error = λ t. t }

abbrev empty : Updates
empty id = none

-- Update 5 is begun at 100; update 6 is begun, and 5 is tried again at 200.
abbrev begun : Updates
begun = (begin_update cuts empty 5 "message" 100).0

begin_run : begin_update cuts empty 5 "message" 100 ≡ (begun, process)
unfolding begin_update begin_from
begin_run = refl

abbrev later : Updates
later = (begin_update cuts (begin_update cuts begun 6 "message" 150).0 5 "message" 200).0

lease_excludes_example : begin_update cuts later 5 "message" 399 ≡ (later, in_progress)
lease_excludes_example =
    lease_excludes cuts empty begun later 5 "message" "message" 100 399 begin_run
      (next (next here (begin_other 6 "message" 150 refl)) (begin_same "message" 200 (omega arith)))
      (omega arith)

abbrev row_5 : ProcessedUpdate
row_5 = first_row cuts "message" 100

abbrev completed_5 : Updates
completed_5 = put begun 5 (complete_row row_5 130)

complete_run : complete_update begun 5 130 ≡ some completed_5
unfolding complete_update begin_update begin_from
complete_run = refl

completed_sticks_example :
    let s = (begin_update cuts completed_5 6 "message" 900).0 in
    begin_update cuts s 5 "message" 9000 ≡ (s, completed_duplicate)
completed_sticks_example =
    completed_sticks cuts begun completed_5 ((begin_update cuts completed_5 6 "message" 900).0) 5
      130 9000 "message" complete_run (next here (begin_other 6 "message" 900 refl))

-- The update was completed at 130, and a worker that was late fails it at 500.
failure_reopens_example :
    (s1 : Updates) × (fail_update cuts completed_5 5 "TimeoutError" 500 ≡ some s1)
    × (s2 : Updates) × (begin_update cuts s1 5 "message" 510 ≡ (s2, process))
    × (row2 : ProcessedUpdate) × (s2 5 ≡ some row2)
    × (row2.attempts ≡ (complete_row row_5 130).attempts + 1)
failure_reopens_example =
    failure_reopens cuts completed_5 5 (complete_row row_5 130) "TimeoutError" "message" 500 510
      refl

-- Every text that is given is read as 3.
abbrev int : String → Option ℤ
int t = some (pos 3)

-- The bot counts its updates.
abbrev update_5 : Payload
update_5 = record { keys = "update_id" ∷ "message" ∷ []; update_id = some 5 }

abbrev counting : Option String → Runtime ℕ
counting error = record {
  cuts = cuts;
  expected_secret = "secret";
  max_body_bytes = 1024;
  int = int;
  decode = λ bytes. some update_5;
  feed_update = λ payload n. (n + 1, error);
}

abbrev request : ℕ → Request
request at = record {
  telegram_secret = some "secret";
  content_length = none;
  chunks = (1 ∷ 2 ∷ []) ∷ [];
  received_at = at;
  finished_at = at + 3;
}

request-Carries : (error : Option String) (at : ℕ) → Carries (counting error) (request at) update_5
unfolding read_body read_stream
request-Carries error at = record {
  secret = refl;
  bytes = 1 ∷ 2 ∷ [];
  accepted = refl;
  decoded = refl;
}

abbrev after : Option String → (Updates × ℕ) × Reply
after error = telegram_webhook (counting error) empty 0 (request 100)

after_ok : after none ≡ ((((after none).0.0, 1)), ok)
unfolding telegram_webhook on_body read_body read_stream on_payload on_id begin_update begin_from
    on_claim dispatch settle_claim complete_update
after_ok = refl

after_failed : after (some "E") ≡ ((((after (some "E")).0.0, 1)), processing_failed)
unfolding telegram_webhook on_body read_body read_stream on_payload on_id begin_update begin_from
    on_claim dispatch settle_claim fail_update
after_failed = refl

webhook-again_example :
    telegram_webhook (counting none) (after none).0.0 1 (request 110)
    ≡ (((after none).0.0, 1), duplicate)
webhook-again_example =
    webhook-again (counting none) empty (after none).0.0 0 1 (request 100) (request 110) update_5
      update_5 5 (request-Carries none 100) (request-Carries none 110) refl refl after_ok

webhook_retry_example :
    let ((s2, x2), reply) =
      telegram_webhook (counting (some "E")) (after (some "E")).0.0 1 (request 110) in
    (x2 ≡ 2) × (reply ≡ processing_failed)
webhook_retry_example =
    webhook_retry (counting (some "E")) empty (after (some "E")).0.0 0 1 (request 100) (request 110)
      update_5 update_5 5 (request-Carries (some "E") 100) (request-Carries (some "E") 110) refl
      refl after_failed
