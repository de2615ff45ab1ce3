-- ===== src/Idempotency/Replay.antt =====
-- What idempotency keys guarantee over any run.
use dukapay.Base.{
  ℕ, ◌≡◌, ◌≤◌, refl, Bool, true, false, Option, none, some, List, [], ◌∷◌, inl, inr, arith, length,
}
use mathlib.Core.Path.{subst}
use dukapay.Idempotency.{
  CachedResponse, Breaker, replayed, conflict, unavailable, executed, record_success, Phase,
  arrived, looking, reserving, occupied, acquired, running, releasing, returning, storing, ended,
  Trip, answered, failed, lost, Event, World, get_response, cacheable, check_breaker, looked,
  reread_occupied, finished, store, advance, step, run, started, is_open,
}
use dukapay.Idempotency.Exclusion.{IsLocked, step-IsLocked}
use dukapay.Idempotency.Once.{
  IsPhaseSound, IsOnce, stay-IsOnce, release-IsOnce, reserve-IsOnce, acquired-IsOnce,
  finished-IsOnce, stored-IsOnce, stored_by,
}

advance-IsOnce :
    (p : Phase) (i : ℕ) (e : Event) (w : World)
    → w.phases i ≡ p
    → (p ≡ acquired → e.trip ≡ answered)
    → IsLocked w
    → IsOnce w
    → IsPhaseSound w.response w.responses p
    → IsOnce (advance p i e w)
unfolding advance
advance-IsOnce arrived i e w at reads locked once own = go (is_open e.now w.breaker)
  where
    go : (b : Bool) → IsOnce (check_breaker b i w)
    go true = stay-IsOnce w i (ended unavailable) once tt
    go false = stay-IsOnce w i looking once tt
advance-IsOnce looking i e w at reads locked once own = go (get_response e.trip w.response) refl
  where
    go :
        (o : Option CachedResponse)
        → get_response e.trip w.response ≡ o
        → IsOnce (looked o i (record w { breaker = record_success w.breaker }))
    go none f = stay-IsOnce w i reserving once tt
    go (some r) f =
        stay-IsOnce w i (ended (replayed r)) once (stored_by w e.trip (some r) r once f refl)
advance-IsOnce reserving i e w at reads locked once own = reserve-IsOnce e.trip e.now i w once
advance-IsOnce occupied i e w at reads locked once own = go (get_response e.trip w.response) refl
  where
    go :
        (o : Option CachedResponse)
        → get_response e.trip w.response ≡ o
        → IsOnce (reread_occupied o i w)
    go none f = stay-IsOnce w i (ended conflict) once tt
    go (some r) f =
        stay-IsOnce w i (ended (replayed r)) once (stored_by w e.trip (some r) r once f refl)
advance-IsOnce acquired i e w at reads locked once own =
    acquired-IsOnce e.trip i w once own (reads refl)
advance-IsOnce running i e w at reads locked once own = go (cacheable e.finish)
  where
    go : (o : Option CachedResponse) → IsOnce (finished o i w)
    go none = stay-IsOnce w i releasing once (inl own)
    go (some r) = finished-IsOnce r i w locked at once own
advance-IsOnce (storing r) i e w at reads locked once own = go e.trip
  where
    go : (t : Trip) → IsOnce (store t r e.now i w)
    go answered = stored-IsOnce r i releasing w once own (inr refl)
    go failed = stay-IsOnce w i (ended executed) once tt
    go lost = stored-IsOnce r i (ended executed) w once own tt
advance-IsOnce (returning r) i e w at reads locked once own =
    release-IsOnce e.trip (replayed r) i w once (own.0) (own.1)
advance-IsOnce releasing i e w at reads locked once own =
    release-IsOnce e.trip executed i w once own tt
advance-IsOnce (ended reply) i e w at reads locked once own = once

-- The read that follows a reservation is answered in every advance of the run.
abbrev pub IsReadable : List (ℕ × Event) → World → Type 0
IsReadable [] w = Unit
IsReadable ((i, e) ∷ es) w =
    (w.phases i ≡ acquired → e.trip ≡ answered) × IsReadable es (step i e w)

step-IsOnce :
    (i : ℕ) (e : Event) (w : World)
    → (w.phases i ≡ acquired → e.trip ≡ answered)
    → IsLocked w
    → IsOnce w
    → IsOnce (step i e w)
unfolding step
step-IsOnce i e w reads locked once =
    advance-IsOnce (w.phases i) i e w refl reads locked once (once.sound i)

run-IsOnce :
    (es : List (ℕ × Event)) (w : World)
    → IsReadable es w
    → IsLocked w
    → IsOnce w
    → IsOnce (run es w)
unfolding run
run-IsOnce [] w reads locked once = once
run-IsOnce ((i, e) ∷ es) w reads locked once =
    run-IsOnce es (step i e w) (reads.1) (step-IsLocked i e w locked)
      (step-IsOnce i e w (reads.0) locked once)

-- In any run of requests with one key in which every read that follows a reservation is answered, in any
-- order and with any other round trips failing or lost, the handlers give at most one cacheable response, and every request that
-- is answered by a replay is answered with that response.
pub replayed-run :
    (es : List (ℕ × Event)) (breaker : Breaker)
    → IsReadable es (started breaker)
    → (length (run es (started breaker)).responses ≤ 1)
      × ((i : ℕ) (r : CachedResponse)
          → (run es (started breaker)).phases i ≡ ended (replayed r)
          → (run es (started breaker)).responses ≡ r ∷ [])
replayed-run es breaker reads =
    let w = run es (started breaker) in
    let once : IsOnce w =
      run-IsOnce es (started breaker) reads (λ k h. absurd (ground arith)) at_start in
    (once.single, λ i r e. subst (IsPhaseSound w.response w.responses) e (once.sound i))
  where
    at_start : IsOnce (started breaker)
    at_start = record {
      single = omega arith;
      stored = λ r e. absurd (ground arith);
      settled = λ e. inl refl;
      sound = λ j. tt;
    }
