-- ===== src/Delivery/Webhook.antt =====
-- The webhook's handler of app/main.py (`telegram_webhook`), on the claims and on the state `X`
-- that the bot's own handlers change.
use chat_pulse.Prelude.{
  ℕ, String, Bool, false, not, Option, none, some, List, [], ◌∷◌, str_eq, if◌then◌else◌,
}
use chat_pulse.Prelude.Int.{ℤ}
use chat_pulse.Delivery.{
  UpdateClaim, process, completed_duplicate, in_progress, Updates, Cuts, begin_update,
  complete_update, fail_update,
}
use chat_pulse.Delivery.Body.{BodyResult, body, invalid_length, too_large, read_body}

-- A decoded JSON object: its keys in their order, and its "update_id" where that is an integer.
pub record Payload : Type 0 where
  pub keys : List String
  pub update_id : Option ℕ

-- What the handler calls: `int`, `json.loads` with the test for an object, and the dispatcher, which
-- returns the class name of the error that it raised, if it raised one.
pub record Runtime (X : Type 0) : Type 0 where
  pub cuts : Cuts
  pub expected_secret : String
  pub max_body_bytes : ℕ
  pub int : String → Option ℤ
  pub decode : List ℕ → Option Payload
  pub feed_update : Payload → X → X × Option String

pub record Request : Type 0 where
  pub telegram_secret : Option String
  pub content_length : Option String
  pub chunks : List (List ℕ)
  pub received_at : ℕ
  pub finished_at : ℕ

pub data Reply : Type 0 where
  forbidden invalid_body body_too_large invalid_payload : Reply
  ok duplicate being_processed processing_failed unclaimed : Reply

-- `next((key for key in payload if key != "update_id"), "unknown")`
unfoldable pub update_type_of : List String → String
update_type_of [] = "unknown"
update_type_of (key ∷ keys) = if str_eq key "update_id" then update_type_of keys else key

-- `body or b"{}"`
abbrev pub or_empty_object : List ℕ → List ℕ
or_empty_object [] = 123 ∷ 125 ∷ []
or_empty_object (b ∷ rest) = b ∷ rest

-- The claim after the dispatcher: failed with the error's name, or completed. A claim that is gone
-- raises a `LookupError`, which is answered as `unclaimed`.
unfoldable pub settle_claim : Cuts → Updates → Option ℕ → Option String → ℕ → Updates × Reply
settle_claim cuts s none none current = (s, ok)
settle_claim cuts s none (some error) current = (s, processing_failed)
settle_claim cuts s (some id) none current = elim (complete_update s id current) [
  | none ↦ (s, unclaimed)
  | some s' ↦ (s', ok)
]
settle_claim cuts s (some id) (some error) current = elim (fail_update cuts s id error current) [
  | none ↦ (s, unclaimed)
  | some s' ↦ (s', processing_failed)
]

module _ {X : Type 0} (rt : Runtime X) where
  -- The dispatcher runs, and the claim is settled.
  unfoldable pub dispatch : Updates → X → Payload → ℕ → (Updates × X) × Reply
  dispatch s x payload finished_at =
      let (x', error) = rt.feed_update payload x in
      let (s', reply) = settle_claim rt.cuts s payload.update_id error finished_at in
      ((s', x'), reply)

  unfoldable pub on_claim : Updates × UpdateClaim → X → Payload → ℕ → (Updates × X) × Reply
  on_claim (s, process) x payload finished_at = dispatch s x payload finished_at
  on_claim (s, completed_duplicate) x payload finished_at = ((s, x), duplicate)
  on_claim (s, in_progress) x payload finished_at = ((s, x), being_processed)

  unfoldable pub on_id : Updates → X → Payload → Option ℕ → ℕ → ℕ → (Updates × X) × Reply
  on_id s x payload none received_at finished_at = dispatch s x payload finished_at
  on_id s x payload (some id) received_at finished_at =
      on_claim (begin_update rt.cuts s id (update_type_of payload.keys) received_at) x payload
        finished_at

  unfoldable pub on_payload : Updates → X → Payload → ℕ → ℕ → (Updates × X) × Reply
  unfolding on_id
  on_payload s x payload received_at finished_at =
      on_id s x payload payload.update_id received_at finished_at

  unfoldable pub on_body : Updates → X → BodyResult → ℕ → ℕ → (Updates × X) × Reply
  on_body s x invalid_length received_at finished_at = ((s, x), invalid_body)
  on_body s x too_large received_at finished_at = ((s, x), body_too_large)
  on_body s x (body bytes) received_at finished_at = elim (rt.decode (or_empty_object bytes)) [
    | none ↦ ((s, x), invalid_payload)
    | some payload ↦ on_payload s x payload received_at finished_at
  ]

  abbrev pub same_secret : Option String → Bool
  same_secret none = false
  same_secret (some secret) = str_eq secret rt.expected_secret

  unfoldable pub telegram_webhook : Updates → X → Request → (Updates × X) × Reply
  telegram_webhook s x request =
      if not (same_secret request.telegram_secret)
      then ((s, x), forbidden)
      else on_body s x (read_body rt.int rt.max_body_bytes request.content_length request.chunks)
          request.received_at request.finished_at
