-- ===== src/Webhooks/Prepare.antt =====
-- The bodies of webhook requests: `prepareWebhookPayload` of backend/src/services/webhookService.ts and
-- its summaries.
use dukapay.Base.{ℕ, ◌≤◌, ◌≡◌, Option, none, some, ltb, if◌then◌else◌, arith}
use dukapay.Webhooks.{Value, text, Payload, Body, whole_payload, summary, Env}

-- The keys that `payload[key]` finds; a summary has no `topics`.
unfoldable pub keys : Body → Payload
keys (whole_payload p) = p
keys (summary p bytes limit) = record p { topics_count = none }

-- `summarizeOversizedPayload`: the passed-through keys, and the number of topics.
unfoldable pub summarize_oversized_payload : Payload → ℕ → ℕ → Body
summarize_oversized_payload p bytes limit = summary (record p { rest = 0 }) bytes limit

-- `typeof value === 'string'`.
abbrev pub if_text : Option Value → Option Value
if_text (some (text t)) = some (text t)
if_text _ = none

-- `summarizeOversizedPayloadMinimal`.
unfoldable pub summarize_oversized_payload_minimal : Payload → ℕ → ℕ → Body
summarize_oversized_payload_minimal p bytes limit =
    summary
      (record {
        event_id = if_text p.event_id;
        event_type = if_text p.event_type;
        loan_id = none;
        address = none;
        ledger = none;
        topics_count = none;
        rest = 0;
      })
      bytes limit

module _ (env : Env) where
  open env use {byte_length, max_payload_bytes}

  -- `prepareWebhookPayload`, none when it throws. The time and the nonce are not in the body.
  unfoldable pub prepare_webhook_payload : Body → Option Body
  prepare_webhook_payload payload =
      let bytes = byte_length payload in
      let short = summarize_oversized_payload (keys payload) bytes max_payload_bytes in
      let minimal = summarize_oversized_payload_minimal (keys payload) bytes max_payload_bytes in
      if ltb max_payload_bytes bytes
      then if ltb max_payload_bytes (byte_length short)
        then if ltb max_payload_bytes (byte_length minimal) then none else some minimal
        else some short
      else some payload

  -- Every body that `prepareWebhookPayload` returns fits the limit, and is returned as it is when it is
  -- prepared again, as for a retry.
  pub prepare_webhook_payload_fits :
      (payload body : Body)
      → prepare_webhook_payload payload ≡ some body
      → (byte_length body ≤ max_payload_bytes) × (prepare_webhook_payload body ≡ some body)
  unfolding prepare_webhook_payload
  prepare_webhook_payload_fits payload body e = ground arith
