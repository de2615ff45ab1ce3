-- ===== src/Idempotency/Once.antt =====
-- The invariant that ties the responses given for a key to the phases of its requests.
use dukapay.Base.{
  ℕ, ◌≡◌, ◌≤◌, refl, sym, ap, ◌∙◌, Bool, true, false, Option, none, some, List, [], ◌∷◌, ◌⊎◌, inl,
  inr, ◌==◌, Bool-cases, arith, length,
}
use dukapay.Idempotency.{
  CachedResponse, Reply, replayed, unavailable, Phase, occupied, acquired, running, releasing,
  returning, storing, ended, Trip, answered, failed, lost, World, set_phase, get_response, reserved,
  reserve_answered, reserve, reread_acquired, finished, release,
}
use dukapay.Idempotency.Exclusion.{is_holding, IsLocked}

abbrev pub is_stored : Option CachedResponse → Bool
is_stored none = false
is_stored (some r) = true

-- No handler has given a cacheable response, or it can be looked up.
abbrev pub IsSettled : Option CachedResponse → List CachedResponse → Type 0
IsSettled response responses = (responses ≡ []) ⊎ (is_stored response ≡ true)

-- What a phase of a request says of the responses given.
abbrev pub IsPhaseSound : Option CachedResponse → List CachedResponse → Phase → Type 0
IsPhaseSound response responses acquired = IsSettled response responses
IsPhaseSound response responses (returning r) = IsSettled response responses × (responses ≡ r ∷ [])
IsPhaseSound response responses running = responses ≡ []
IsPhaseSound response responses (storing r) = responses ≡ r ∷ []
IsPhaseSound response responses releasing = IsSettled response responses
IsPhaseSound response responses (ended (replayed r)) = responses ≡ r ∷ []
IsPhaseSound response responses _ = Unit

pub record IsOnceBy (lock : Option ℕ) (response : Option CachedResponse)
    (responses : List CachedResponse) (phases : ℕ → Phase) : Type 0 where
  pub single : length responses ≤ 1
  pub stored : (r : CachedResponse) → response ≡ some r → responses ≡ r ∷ []
  pub settled : lock ≡ none → IsSettled response responses
  pub sound : (j : ℕ) → IsPhaseSound response responses (phases j)

abbrev pub IsOnce : World → Type 0
IsOnce w = IsOnceBy w.lock w.response w.responses w.phases

module _ (response : Option CachedResponse) (responses : List CachedResponse) where
  set_phase-IsPhaseSound :
      (phases : ℕ → Phase) (i : ℕ) (p : Phase)
      → IsPhaseSound response responses p
      → ((j : ℕ) → (j == i) ≡ false → IsPhaseSound response responses (phases j))
      → (j : ℕ) → IsPhaseSound response responses (set_phase i p phases j)
  set_phase-IsPhaseSound phases i p own others j = elim (Bool-cases (j == i)) [
    | inl e ↦ rw e own
    | inr e ↦ rw e (others j e)
  ]

  -- Storing a response keeps what the other requests say.
  IsPhaseSound-store :
      (r : CachedResponse) (p : Phase)
      → IsPhaseSound response responses p
      → IsPhaseSound (some r) responses p
  IsPhaseSound-store r acquired h = inr refl
  IsPhaseSound-store r (returning k) h = (inr refl, h.1)
  IsPhaseSound-store r running h = h
  IsPhaseSound-store r (storing k) h = h
  IsPhaseSound-store r releasing h = inr refl
  IsPhaseSound-store r (ended (replayed k)) h = h
  IsPhaseSound-store r _ h = tt

  -- A first response keeps what a request says that does not hold the lock.
  IsPhaseSound-finish :
      (r : CachedResponse) (p : Phase)
      → responses ≡ []
      → is_holding p ≡ false
      → IsPhaseSound response responses p
      → IsPhaseSound response (r ∷ responses) p
  IsPhaseSound-finish r (ended (replayed k)) e idle h = absurd (ground arith)
  IsPhaseSound-finish r acquired e idle h = absurd (ground arith)
  IsPhaseSound-finish r (returning k) e idle h = absurd (ground arith)
  IsPhaseSound-finish r running e idle h = absurd (ground arith)
  IsPhaseSound-finish r (storing k) e idle h = absurd (ground arith)
  IsPhaseSound-finish r releasing e idle h = absurd (ground arith)
  IsPhaseSound-finish r _ e idle h = tt

-- The request goes to another phase and the keys stay.
pub stay-IsOnce :
    (w : World) (i : ℕ) (p : Phase)
    → IsOnce w
    → IsPhaseSound w.response w.responses p
    → IsOnceBy w.lock w.response w.responses (set_phase i p w.phases)
stay-IsOnce w i p once own = record {
  single = once.single;
  stored = once.stored;
  settled = once.settled;
  sound = set_phase-IsPhaseSound w.response w.responses w.phases i p own (λ j n. once.sound j);
}

pub release-IsOnce :
    (t : Trip) (reply : Reply) (i : ℕ) (w : World)
    → IsOnce w
    → IsSettled w.response w.responses
    → IsPhaseSound w.response w.responses (ended reply)
    → IsOnce (release t reply i w)
release-IsOnce t reply i w once settled own = record {
  single = once.single;
  stored = once.stored;
  settled = λ e. settled;
  sound =
      set_phase-IsPhaseSound w.response w.responses w.phases i (ended reply) own
        (λ j n. once.sound j);
}

pub reserve-IsOnce : (t : Trip) (now i : ℕ) (w : World) → IsOnce w → IsOnce (reserve t now i w)
reserve-IsOnce answered now i w once = go w.lock refl
  where
    go : (l : Option ℕ) → w.lock ≡ l → IsOnce (reserve_answered l i w)
    go none e = record {
      single = once.single;
      stored = once.stored;
      settled = λ h. absurd (ground arith);
      sound =
          set_phase-IsPhaseSound w.response w.responses w.phases i acquired (once.settled e)
            (λ j n. once.sound j);
    }
    go (some k) e = stay-IsOnce w i occupied once tt
reserve-IsOnce failed now i w once = stay-IsOnce w i (ended unavailable) once tt
reserve-IsOnce lost now i w once = record {
  single = once.single;
  stored = once.stored;
  settled = λ h. absurd (never w.lock h);
  sound =
      set_phase-IsPhaseSound w.response w.responses w.phases i (ended unavailable) tt
        (λ j n. once.sound j);
}
  where
    never : (l : Option ℕ) → reserved i l ≡ none → ⊥
    never none h = ground arith
    never (some k) h = ground arith

get_response_sound :
    (t : Trip) (o : Option CachedResponse) (r : CachedResponse)
    → get_response t o ≡ some r
    → o ≡ some r
get_response_sound answered o r e = e
get_response_sound failed o r e = absurd (ground arith)
get_response_sound lost o r e = absurd (ground arith)

-- What the lookup shows of the request that goes on with a stored response.
pub stored_by :
    (w : World) (t : Trip) (o : Option CachedResponse) (r : CachedResponse)
    → IsOnce w
    → get_response t w.response ≡ o
    → o ≡ some r
    → w.responses ≡ r ∷ []
stored_by w t o r once e f = once.stored r (get_response_sound t w.response r (e ∙ f))

pub acquired-IsOnce :
    (t : Trip) (i : ℕ) (w : World)
    → IsOnce w
    → IsSettled w.response w.responses
    → t ≡ answered
    → IsOnce (reread_acquired (get_response t w.response) i w)
acquired-IsOnce t i w once settled reads = go (get_response t w.response) refl
  where
    first : (o : Option CachedResponse) → o ≡ none → IsSettled o w.responses → w.responses ≡ []
    first none e (inl h) = h
    first none e (inr h) = absurd (ground arith)
    first (some r) e h = absurd (ground arith)

    go :
        (o : Option CachedResponse) → get_response t w.response ≡ o → IsOnce (reread_acquired o i w)
    go none e =
        stay-IsOnce w i running once
          (first w.response (sym (ap (λ u. get_response u w.response) reads) ∙ e) settled)
    go (some r) e =
        stay-IsOnce w i (returning r) once (settled, stored_by w t (some r) r once e refl)

pub finished-IsOnce :
    (r : CachedResponse) (i : ℕ) (w : World)
    → IsLocked w
    → w.phases i ≡ running
    → IsOnce w
    → w.responses ≡ []
    → IsOnce (finished (some r) i w)
finished-IsOnce r i w locked at once none_yet = record {
  single = rw none_yet (omega arith);
  stored = λ k e. absurd (ground (arith, once.stored k e));
  settled = λ e. let mine = locked i (rw at refl) in absurd (ground arith);
  sound =
      set_phase-IsPhaseSound w.response (r ∷ w.responses) w.phases i (storing r) (rw none_yet refl)
        (λ j n.
          IsPhaseSound-finish w.response w.responses r (w.phases j) none_yet (idle j n)
            (once.sound j));
}
  where
    idle : (j : ℕ) → (j == i) ≡ false → is_holding (w.phases j) ≡ false
    idle j n = elim (Bool-cases (is_holding (w.phases j))) [
      | inl h ↦ let mine = locked i (rw at refl) in let other = locked j h in absurd (ground arith)
      | inr h ↦ h
    ]

pub stored-IsOnce :
    (r : CachedResponse) (i : ℕ) (p : Phase) (w : World)
    → IsOnce w
    → w.responses ≡ r ∷ []
    → IsPhaseSound (some r) w.responses p
    → IsOnceBy w.lock (some r) w.responses (set_phase i p w.phases)
stored-IsOnce r i p w once given own = record {
  single = once.single;
  stored = λ k e. let same : r ≡ k = some_injective e in given ∙ ap (λ x. x ∷ []) same;
  settled = λ e. inr refl;
  sound =
      set_phase-IsPhaseSound (some r) w.responses w.phases i p own
        (λ j n. IsPhaseSound-store w.response w.responses r (w.phases j) (once.sound j));
}
  where
    some_injective : {a b : CachedResponse} → some a ≡ some b → a ≡ b
    some_injective e = cc
