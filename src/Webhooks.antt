-- ===== src/Webhooks.antt =====
-- Webhooks: backend/src/services/webhookService.ts, with the tables `webhook_subscriptions` and
-- `webhook_deliveries`. Texts are numbers, 0 being the empty one, and times are milliseconds.
use dukapay.Base.{
  ℕ, ◌+◌, ◌-◌, Bool, true, false, Option, none, some, List, [], ◌∷◌, min, max, get_elem?, ◌==◌,
  if◌then◌else◌,
}
pub mod Prepare
pub mod Post
pub mod Retry
pub mod Dispatch
pub mod Steps
pub mod Dispatched
pub mod Interleaved
pub mod Sound
pub mod Guard
pub mod Due
pub mod Signature
mod Tests

-- A value of a JSON object: a string, or anything else.
pub data Value : Type 0 where
  text : ℕ → Value
  other : ℕ → Value

-- The keys of a payload that the service reads; `rest` stands for the others, and `topics_count` is the
-- length of `topics` where it is an array.
pub record Payload : Type 0 where
  pub event_id : Option Value
  pub event_type : Option Value
  pub loan_id : Option Value
  pub address : Option Value
  pub ledger : Option Value
  pub topics_count : Option ℕ
  pub rest : ℕ

-- What `JSON.stringify` is applied to: the payload, or a summary with the sizes of the payload and of the limit.
pub data Body : Type 0 where
  whole_payload : Payload → Body
  summary : Payload → ℕ → ℕ → Body

pub data ErrorKind : Type 0 where
  disallowed_callback_url invalid_callback_url request_failed query_failed : ErrorKind

-- The texts of `last_error`.
pub data ErrorText : Type 0 where
  returned_status : ℕ → ErrorText
  message : ErrorKind → ErrorText

pub record Subscription : Type 0 where
  pub id : ℕ
  pub callback_url : ℕ
  pub event_types : List Value
  pub secret : Option ℕ
  pub is_active : Bool

pub record Delivery : Type 0 where
  pub id : ℕ
  pub subscription_id : ℕ
  pub payload : Body
  pub attempt_count : ℕ
  pub last_status_code : Option ℕ
  pub last_error : Option ErrorText
  pub delivered_at : Option ℕ
  pub next_retry_at : Option ℕ

-- A request that was sent: for which delivery, none at the first attempt, with which secret signed, and
-- when.
pub record Sent : Type 0 where
  pub delivery_id : Option ℕ
  pub subscription_id : ℕ
  pub url : ℕ
  pub body : Body
  pub secret : Option ℕ
  pub sent_at : ℕ

-- How a coming request ends, and after how many milliseconds.
pub data Exchange : Type 0 where
  responds : ℕ → ℕ → Exchange
  fails : ℕ → Exchange

-- The tables, which coming queries fail, how the coming requests end (one that is not listed fails at
-- once), the clock, and the requests sent so far.
pub record World : Type 0 where
  pub subscriptions : List Subscription
  pub deliveries : List Delivery
  pub next_id : ℕ
  pub failing : List Bool
  pub exchanges : List Exchange
  pub now : ℕ
  pub sent : List Sent

-- What the service uses of Node and of the PII service: the hostname of a URL, none for an invalid one;
-- the hostname without its brackets; `net.isIP`; the check of the BlockList; the answers of DNS at a
-- time, none for an error; the size of a body as JSON text; and `decryptWebhookSecret`, none when it throws.
-- `resolves_id` says whether PostgreSQL resolves a column `id` without a table in a join of two tables that
-- both have one, as `webhook_deliveries` and `webhook_subscriptions` do; it refuses such a statement.
pub record Env : Type 0 where
  pub hostname : ℕ → Option ℕ
  pub bare : ℕ → ℕ
  pub is_ip : ℕ → Bool
  pub is_blocked : ℕ → Bool
  pub resolve4 : ℕ → ℕ → Option (List ℕ)
  pub resolve6 : ℕ → ℕ → Option (List ℕ)
  pub byte_length : Body → ℕ
  pub decrypt_webhook_secret : ℕ → ℕ → Option ℕ
  pub max_payload_bytes : ℕ
  pub resolves_id : Bool

abbrev pub retry_delays_ms : List ℕ
retry_delays_ms = 300000 ∷ 900000 ∷ 2700000 ∷ []

-- `RETRY_DELAYS_MS.length + 1`.
abbrev pub max_retry_attempts : ℕ
max_retry_attempts = 4

abbrev pub or_last : Option ℕ → ℕ
or_last none = 2700000
or_last (some delay) = delay

-- The subtraction may stop at 0, where the source takes the greater of 0 and the difference.
unfoldable pub get_retry_delay_ms : ℕ → ℕ
get_retry_delay_ms attempt_number =
    or_last (get_elem? retry_delays_ms (max 0 (min (attempt_number - 1) 2)))

-- One `await query(…)`: whether it is answered.
abbrev pub is_answered : List Bool → World → Bool × World
is_answered [] w = (true, w)
is_answered (true ∷ rest) w = (false, record w { failing = rest })
is_answered (false ∷ rest) w = (true, record w { failing = rest })

unfoldable pub ask : World → Bool × World
ask w = is_answered w.failing w

-- A statement that changes the deliveries: whether it was answered, and the world.
abbrev pub execute_on : (List Delivery → List Delivery) → Bool × World → Bool × World
execute_on f (true, w) = (true, record w { deliveries = f w.deliveries })
execute_on f (false, w) = (false, w)

unfoldable pub execute_update : (List Delivery → List Delivery) → World → Bool × World
unfolding ask
execute_update f w = execute_on f (ask w)

-- `secret ? … : undefined`: an empty secret signs nothing.
unfoldable pub non_empty_secret : Option ℕ → Option ℕ
non_empty_secret none = none
non_empty_secret (some secret) = if secret == 0 then none else some secret
