-- ===== src/Idempotency.antt =====
-- The idempotency keys of backend/src/middleware/idempotency.ts, with the Redis calls of
-- backend/src/services/cacheService.ts, for the requests that carry one key. Each request is a process
-- that advances by one round trip or one handler run at a time, in any order with the others; its
-- number stands for its lock token, of which `randomUUID` gives no two alike. Keys do not expire.
use dukapay.Base.{
  ℕ, ◌+◌, ◌-◌, Bool, true, false, ◌&&◌, Option, none, some, List, [], ◌∷◌, ltb, leb, ◌==◌,
  if◌then◌else◌,
}
pub mod Exclusion
pub mod Once
pub mod Replay
mod Tests

pub record CachedResponse : Type 0 where
  pub status : ℕ
  pub body : ℕ

-- `failureCount` and `lastFailureTime` of the circuit breaker.
pub record Breaker : Type 0 where
  pub failure_count : ℕ
  pub last_failure_time : ℕ

abbrev pub threshold : ℕ
threshold = 3

abbrev pub reset_timeout_ms : ℕ
reset_timeout_ms = 30_000

unfoldable pub is_open : ℕ → Breaker → Bool
is_open now b = leb threshold b.failure_count && ltb (now - b.last_failure_time) reset_timeout_ms

unfoldable pub record_success : Breaker → Breaker
record_success b = record b { failure_count = 0 }

unfoldable pub record_failure : ℕ → Breaker → Breaker
record_failure now b = record { failure_count = b.failure_count + 1; last_failure_time = now }

-- How a request is answered; `executed` is the response of its own handler.
pub data Reply : Type 0 where
  replayed : CachedResponse → Reply
  conflict unavailable executed : Reply

-- What a request does next: look up the response, reserve the lock, look again without the lock or
-- with it, release it and replay, run the handler, store its response, release the lock.
pub data Phase : Type 0 where
  arrived looking reserving occupied acquired running releasing : Phase
  returning storing : CachedResponse → Phase
  ended : Reply → Phase

-- A round trip is answered, fails without effect, or has its effect and the answer is lost.
pub data Trip : Type 0 where
  answered failed lost : Trip

-- `res.statusCode` and `responseBody` when the response is finished.
pub record Finish : Type 0 where
  pub status : ℕ
  pub body : Option ℕ

-- What the environment decides for one advance.
pub record Event : Type 0 where
  pub trip : Trip
  pub finish : Finish
  pub now : ℕ

-- The two keys, the breaker, the requests, and the cacheable responses that handlers have given.
pub record World : Type 0 where
  pub response : Option CachedResponse
  pub lock : Option ℕ
  pub breaker : Breaker
  pub phases : ℕ → Phase
  pub responses : List CachedResponse

abbrev pub set_phase : ℕ → Phase → (ℕ → Phase) → ℕ → Phase
set_phase i p phases j = if j == i then p else phases j

abbrev pub move : ℕ → Phase → World → World
move i p w = record w { phases = set_phase i p w.phases }

-- `cacheService.get` takes an error for a missing key.
abbrev pub get_response : Trip → Option CachedResponse → Option CachedResponse
get_response answered r = r
get_response _ r = none

-- SET key token NX
abbrev pub reserved : ℕ → Option ℕ → Option ℕ
reserved i none = some i
reserved i (some k) = some k

-- The compare-and-delete script.
abbrev pub delete_if_equal : ℕ → Option ℕ → Option ℕ
delete_if_equal i none = none
delete_if_equal i (some k) = if k == i then none else some k

abbrev pub delete_if_match : Trip → ℕ → Option ℕ → Option ℕ
delete_if_match failed i lock = lock
delete_if_match _ i lock = delete_if_equal i lock

-- 2xx to 4xx with a body.
abbrev pub cacheable : Finish → Option CachedResponse
cacheable f = with_body f.body
  where
    with_body : Option ℕ → Option CachedResponse
    with_body none = none
    with_body (some body) =
        if leb 200 f.status && ltb f.status 500
        then some (record { status = f.status; body = body })
        else none

abbrev pub check_breaker : Bool → ℕ → World → World
check_breaker true i w = move i (ended unavailable) w
check_breaker false i w = move i looking w

abbrev pub looked : Option CachedResponse → ℕ → World → World
looked none i w = move i reserving w
looked (some r) i w = move i (ended (replayed r)) w

abbrev pub reserve_answered : Option ℕ → ℕ → World → World
reserve_answered none i w = move i acquired (record w { lock = some i })
reserve_answered (some k) i w = move i occupied w

-- `reserve`, and the `catch` of the middleware where it throws.
abbrev pub reserve : Trip → ℕ → ℕ → World → World
reserve answered now i w = reserve_answered w.lock i w
reserve failed now i w =
    move i (ended unavailable) (record w { breaker = record_failure now w.breaker })
reserve lost now i w =
    move i (ended unavailable)
      (record w { lock = reserved i w.lock; breaker = record_failure now w.breaker })

abbrev pub reread_occupied : Option CachedResponse → ℕ → World → World
reread_occupied none i w = move i (ended conflict) w
reread_occupied (some r) i w = move i (ended (replayed r)) w

abbrev pub reread_acquired : Option CachedResponse → ℕ → World → World
reread_acquired none i w = move i running w
reread_acquired (some r) i w = move i (returning r) w

-- The `finish` event up to the first round trip.
abbrev pub finished : Option CachedResponse → ℕ → World → World
finished none i w = move i releasing w
finished (some r) i w = move i (storing r) (record w { responses = r ∷ w.responses })

-- `setRequired`; a reservation whose response could not be saved is kept.
abbrev pub store : Trip → CachedResponse → ℕ → ℕ → World → World
store answered r now i w =
    move i releasing (record w { response = some r; breaker = record_success w.breaker })
store failed r now i w =
    move i (ended executed) (record w { breaker = record_failure now w.breaker })
store lost r now i w =
    move i (ended executed) (record w { response = some r; breaker = record_failure now w.breaker })

abbrev pub release : Trip → Reply → ℕ → World → World
release t reply i w = move i (ended reply) (record w { lock = delete_if_match t i w.lock })

-- One advance of request `i`.
unfoldable pub advance : Phase → ℕ → Event → World → World
advance arrived i e w = check_breaker (is_open e.now w.breaker) i w
advance looking i e w =
    looked (get_response e.trip w.response) i (record w { breaker = record_success w.breaker })
advance reserving i e w = reserve e.trip e.now i w
advance occupied i e w = reread_occupied (get_response e.trip w.response) i w
advance acquired i e w = reread_acquired (get_response e.trip w.response) i w
advance (returning r) i e w = release e.trip (replayed r) i w
advance running i e w = finished (cacheable e.finish) i w
advance (storing r) i e w = store e.trip r e.now i w
advance releasing i e w = release e.trip executed i w
advance (ended reply) i e w = w

unfoldable pub step : ℕ → Event → World → World
step i e w = advance (w.phases i) i e w

-- A sequence of advances, each of some request.
unfoldable pub run : List (ℕ × Event) → World → World
run [] w = w
run ((i, e) ∷ es) w = run es (step i e w)

-- No request has arrived, and Redis holds neither key.
abbrev pub started : Breaker → World
started breaker = record {
  response = none;
  lock = none;
  breaker = breaker;
  phases = λ j. arrived;
  responses = [];
}
