-- ===== src/Idempotency/Exclusion.antt =====
-- The lock of an idempotency key and the requests that hold it.
use dukapay.Base.{
  ℕ, ◌≡◌, refl, sym, ◌∙◌, Bool, true, false, Option, none, some, List, [], ◌∷◌, inl, inr, ◌==◌,
  ==_iff, Bool-cases, arith,
}
use dukapay.Idempotency.{
  CachedResponse, Breaker, Reply, record_success, Phase, arrived, looking, reserving, occupied,
  acquired, running, releasing, returning, storing, ended, Trip, answered, failed, lost, Event,
  World, set_phase, get_response, reserved, delete_if_equal, delete_if_match, cacheable,
  check_breaker, looked, reserve_answered, reserve, reread_occupied, reread_acquired, finished,
  store, release, advance, step, run, started, is_open,
}

-- The phases from a reservation that succeeded to the release.
abbrev pub is_holding : Phase → Bool
is_holding acquired = true
is_holding running = true
is_holding releasing = true
is_holding (returning r) = true
is_holding (storing r) = true
is_holding _ = false

-- A request in such a phase has its token in the lock.
abbrev pub IsLockedBy : Option ℕ → (ℕ → Phase) → Type 0
IsLockedBy lock phases = (j : ℕ) → is_holding (phases j) ≡ true → lock ≡ some j

abbrev pub IsLocked : World → Type 0
IsLocked w = IsLockedBy w.lock w.phases

set_phase-IsLockedBy :
    (lock : Option ℕ) (phases : ℕ → Phase) (i : ℕ) (p : Phase)
    → (is_holding p ≡ true → lock ≡ some i)
    → ((j : ℕ) → (j == i) ≡ false → is_holding (phases j) ≡ true → lock ≡ some j)
    → IsLockedBy lock (set_phase i p phases)
set_phase-IsLockedBy lock phases i p own others j = elim (Bool-cases (j == i)) [
  | inl e ↦ rw e (λ h. let same = (==_iff j i).0 e in ground (arith, own))
  | inr e ↦ rw e (others j e)
]

-- Where the lock stays and the request does not begin to hold it.
stay-IsLocked :
    (w : World) (i : ℕ) (p : Phase)
    → IsLocked w
    → (is_holding p ≡ true → is_holding (w.phases i) ≡ true)
    → IsLockedBy w.lock (set_phase i p w.phases)
stay-IsLocked w i p locked before =
    set_phase-IsLockedBy w.lock w.phases i p (λ h. locked i (before h)) (λ j n h. locked j h)

release-IsLocked :
    (t : Trip) (reply : Reply) (i : ℕ) (w : World) → IsLocked w → IsLocked (release t reply i w)
release-IsLocked t reply i w locked =
    set_phase-IsLockedBy (delete_if_match t i w.lock) w.phases i (ended reply)
      (λ h. absurd (ground arith)) (λ j n h. kept t j n w.lock (locked j h))
  where
    other : (j : ℕ) → (j == i) ≡ false → (l : Option ℕ) → l ≡ some j → delete_if_equal i l ≡ some j
    other j n none e = e
    other j n (some k) e = ground arith

    kept :
        (t : Trip) (j : ℕ)
        → (j == i) ≡ false
        → (l : Option ℕ) → l ≡ some j
        → delete_if_match t i l ≡ some j
    kept answered j n l e = other j n l e
    kept failed j n l e = e
    kept lost j n l e = other j n l e

reserve-IsLocked :
    (t : Trip) (now i : ℕ) (w : World)
    → IsLocked w
    → is_holding (w.phases i) ≡ false
    → IsLocked (reserve t now i w)
reserve-IsLocked answered now i w locked idle = go w.lock refl
  where
    go : (l : Option ℕ) → w.lock ≡ l → IsLocked (reserve_answered l i w)
    go none e =
        set_phase-IsLockedBy (some i) w.phases i acquired (λ h. refl)
          (λ j n h. let mine = locked j h in absurd (ground arith))
    go (some k) e = stay-IsLocked w i occupied locked (λ h. absurd (ground arith))
reserve-IsLocked failed now i w locked idle =
    stay-IsLocked w i _ locked (λ h. absurd (ground arith))
reserve-IsLocked lost now i w locked idle =
    set_phase-IsLockedBy (reserved i w.lock) w.phases i _ (λ h. absurd (ground arith))
      (λ j n h. kept j (w.lock) (locked j h))
  where
    kept : (j : ℕ) (l : Option ℕ) → l ≡ some j → reserved i l ≡ some j
    kept j none e = absurd (ground arith)
    kept j (some k) e = e

advance-IsLocked :
    (p : Phase) (i : ℕ) (e : Event) (w : World)
    → w.phases i ≡ p
    → IsLocked w
    → IsLocked (advance p i e w)
unfolding advance
advance-IsLocked arrived i e w at locked = go (is_open e.now w.breaker)
  where
    go : (b : Bool) → IsLocked (check_breaker b i w)
    go true = stay-IsLocked w i _ locked (λ h. absurd (ground arith))
    go false = stay-IsLocked w i _ locked (λ h. absurd (ground arith))
advance-IsLocked looking i e w at locked = go (get_response e.trip w.response)
  where
    go :
        (r : Option CachedResponse)
        → IsLocked (looked r i (record w { breaker = record_success w.breaker }))
    go none = stay-IsLocked w i _ locked (λ h. absurd (ground arith))
    go (some r) = stay-IsLocked w i _ locked (λ h. absurd (ground arith))
advance-IsLocked reserving i e w at locked = reserve-IsLocked e.trip e.now i w locked (rw at refl)
advance-IsLocked occupied i e w at locked = go (get_response e.trip w.response)
  where
    go : (r : Option CachedResponse) → IsLocked (reread_occupied r i w)
    go none = stay-IsLocked w i _ locked (λ h. absurd (ground arith))
    go (some r) = stay-IsLocked w i _ locked (λ h. absurd (ground arith))
advance-IsLocked acquired i e w at locked = go (get_response e.trip w.response)
  where
    go : (r : Option CachedResponse) → IsLocked (reread_acquired r i w)
    go none = stay-IsLocked w i _ locked (λ h. rw at refl)
    go (some r) = stay-IsLocked w i _ locked (λ h. rw at refl)
advance-IsLocked running i e w at locked = go (cacheable e.finish)
  where
    go : (r : Option CachedResponse) → IsLocked (finished r i w)
    go none = stay-IsLocked w i _ locked (λ h. rw at refl)
    go (some r) = stay-IsLocked w i _ locked (λ h. rw at refl)
advance-IsLocked (storing r) i e w at locked = go e.trip
  where
    go : (t : Trip) → IsLocked (store t r e.now i w)
    go answered = stay-IsLocked w i _ locked (λ h. rw at refl)
    go failed = stay-IsLocked w i _ locked (λ h. absurd (ground arith))
    go lost = stay-IsLocked w i _ locked (λ h. absurd (ground arith))
advance-IsLocked (returning r) i e w at locked = release-IsLocked e.trip _ i w locked
advance-IsLocked releasing i e w at locked = release-IsLocked e.trip _ i w locked
advance-IsLocked (ended reply) i e w at locked = locked

pub step-IsLocked : (i : ℕ) (e : Event) (w : World) → IsLocked w → IsLocked (step i e w)
unfolding step
step-IsLocked i e w locked = advance-IsLocked (w.phases i) i e w refl locked

run-IsLocked : (es : List (ℕ × Event)) (w : World) → IsLocked w → IsLocked (run es w)
unfolding run
run-IsLocked [] w locked = locked
run-IsLocked ((i, e) ∷ es) w locked = run-IsLocked es (step i e w) (step-IsLocked i e w locked)

-- Whatever requests with one key arrive, in whatever order their round trips and handlers advance and
-- whichever round trips fail, at no time do two of them hold the reservation; so two handlers never
-- run at the same time.
pub is_holding_unique :
    (es : List (ℕ × Event)) (breaker : Breaker) (i j : ℕ)
    → is_holding ((run es (started breaker)).phases i) ≡ true
    → is_holding ((run es (started breaker)).phases j) ≡ true
    → i ≡ j
is_holding_unique es breaker i j hi hj =
    let locked = run-IsLocked es (started breaker) (λ k h. absurd (ground arith)) in
    some_injective (sym (locked i hi) ∙ locked j hj)
  where
    some_injective : {a b : ℕ} → some a ≡ some b → a ≡ b
    some_injective e = ground arith
