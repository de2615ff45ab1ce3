-- ===== src/Idempotency/Tests.antt =====
-- Two requests with one key, of which the second comes when the first has been answered.
use dukapay.Base.{ℕ, ◌≡◌, ◌≤◌, refl, some, List, [], ◌∷◌, ◌++◌, length}
use dukapay.Idempotency.{
  CachedResponse, Breaker, replayed, ended, Trip, answered, failed, Event, step, advance, run,
  started, is_open, record_success,
}
use dukapay.Idempotency.Exclusion.{is_holding_unique}
use dukapay.Idempotency.Replay.{replayed-run}

abbrev event : Trip → Event
event t = record { trip = t; finish = record { status = 201; body = some 5 }; now = 1000 }

abbrev created : CachedResponse
created = record { status = 201; body = 5 }

abbrev healthy : Breaker
healthy = record { failure_count = 0; last_failure_time = 0 }

-- Arrival, lookup, reservation, second lookup: the handler of request 0 is running.
abbrev in_flight : List (ℕ × Event)
in_flight =
    (0, event answered) ∷ (0, event answered) ∷ (0, event answered) ∷ (0, event answered) ∷ []

abbrev completed : List (ℕ × Event)
completed = in_flight ++ (0, event answered) ∷ (0, event answered) ∷ (0, event answered) ∷ []

abbrev retried : List (ℕ × Event)
retried = completed ++ (1, event answered) ∷ (1, event answered) ∷ []

abbrev holder : ℕ
holder = 0

is_holding_unique_example : holder ≡ holder
unfolding run step advance is_open record_success
is_holding_unique_example = is_holding_unique in_flight healthy holder holder refl refl

replayed-run_example :
    (length (run retried (started healthy)).responses ≤ 1)
    × ((i : ℕ) (r : CachedResponse)
        → (run retried (started healthy)).phases i ≡ ended (replayed r)
        → (run retried (started healthy)).responses ≡ r ∷ [])
replayed-run_example = replayed-run retried healthy (
  λ h. refl,
  (
    λ h. refl,
    (λ h. refl, (λ h. refl, (λ h. refl, (λ h. refl, (λ h. refl, (λ h. refl, (λ h. refl, tt))))))),
  ),
)

retry_is_replayed : (run retried (started healthy)).phases 1 ≡ ended (replayed created)
unfolding run step advance is_open record_success
retry_is_replayed = refl

-- Both lookups of the retry fail and its reservation does not: the handler runs a second time.
abbrev unlucky : List (ℕ × Event)
unlucky =
    completed
    ++ (1, event answered)
      ∷ (1, event failed)
      ∷ (1, event answered)
      ∷ (1, event failed)
      ∷ (1, event answered)
      ∷ []

retry_runs_again : (run unlucky (started healthy)).responses ≡ created ∷ created ∷ []
unfolding run step advance is_open record_success
retry_runs_again = refl
