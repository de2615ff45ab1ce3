-- ===== src/Indexer/Stored.antt =====
-- When an event has its place in `loan_events` of backend/src/services/eventIndexer.ts.
use dukapay.Base.{
  Bool-cases, ◌⊎◌, inl, inr, Option, none, some, any, ◌==◌, ℕ, ◌≡◌, refl, ap, true, List, [], ◌∷◌,
  ◌++◌, arith,
}
use dukapay.Indexer.{
  EventType, loan_repaid, loan_defaulted, collateral_liquidated, loan_approv, pool_paused,
  pool_unpaused, other_event, ContractEvent,
}
use dukapay.Indexer.Ingest.{is_same_loan, is_status_event, conflicts}

-- The two have one loan.
abbrev pub IsOfOneLoan : Option ℕ → Option ℕ → Type 0
IsOfOneLoan a b = (loan : ℕ) × ((a ≡ some loan) × (b ≡ some loan))

-- At most one event of the type may be stored for a loan.
abbrev pub IsOncePerLoan : EventType → Type 0
IsOncePerLoan t = (t ≡ EventType.loan_approved) ⊎ (t ≡ loan_defaulted)

-- A row holds the place of the event: it has its id, or it is of the same loan and type, and of the same
-- ledger or of a type that a loan has once.
abbrev pub StandsFor : ContractEvent → ContractEvent → Type 0
StandsFor e r =
    (r.event_id ≡ e.event_id)
    ⊎ (IsOfOneLoan r.loan_id e.loan_id
        × ((r.event_name ≡ e.event_name) × ((r.ledger ≡ e.ledger) ⊎ IsOncePerLoan e.event_type)))

abbrev pub IsStored : ContractEvent → List ContractEvent → Type 0
IsStored e [] = ⊥
IsStored e (r ∷ rows) = StandsFor e r ⊎ IsStored e rows

abbrev pub AllStored : List ContractEvent → List ContractEvent → Type 0
AllStored [] rows = Unit {0}
AllStored (e ∷ es) rows = IsStored e rows × AllStored es rows

-- What is stored stays stored.
abbrev pub Grows : List ContractEvent → List ContractEvent → Type 0
Grows rows rows' = (e : ContractEvent) → IsStored e rows → IsStored e rows'

is_same_loan-IsOfOneLoan : (a b : Option ℕ) → is_same_loan a b ≡ true → IsOfOneLoan a b
unfolding is_same_loan
is_same_loan-IsOfOneLoan none b h = absurd (ground arith)
is_same_loan-IsOfOneLoan (some a) none h = absurd (ground arith)
is_same_loan-IsOfOneLoan (some a) (some b) h = (a, (refl, ap some (ground arith)))

is_status_event-IsOncePerLoan : (t : EventType) → is_status_event t ≡ true → IsOncePerLoan t
is_status_event-IsOncePerLoan loan_repaid h = absurd (ground arith)
is_status_event-IsOncePerLoan EventType.loan_approved h = inl refl
is_status_event-IsOncePerLoan loan_defaulted h = inr refl
is_status_event-IsOncePerLoan collateral_liquidated h = absurd (ground arith)
is_status_event-IsOncePerLoan loan_approv h = absurd (ground arith)
is_status_event-IsOncePerLoan pool_paused h = absurd (ground arith)
is_status_event-IsOncePerLoan pool_unpaused h = absurd (ground arith)
is_status_event-IsOncePerLoan EventType.admin_config h = absurd (ground arith)
is_status_event-IsOncePerLoan other_event h = absurd (ground arith)

conflicts-StandsFor : (e r : ContractEvent) → conflicts e r ≡ true → StandsFor e r
unfolding conflicts
conflicts-StandsFor e r h = elim (Bool-cases (r.event_id == e.event_id)) [
  | inl same ↦ inl (ground arith)
  | inr other ↦
      let loan : is_same_loan r.loan_id e.loan_id ≡ true = ground arith in
      inr (
        is_same_loan-IsOfOneLoan r.loan_id e.loan_id loan,
        (
          (ground arith),
          elim (Bool-cases (r.ledger == e.ledger)) [
            | inl same ↦ inl (ground arith)
            | inr later ↦ inr (is_status_event-IsOncePerLoan e.event_type (ground arith))
          ],
        ),
      )
]

pub any-IsStored :
    (e : ContractEvent) (rows : List ContractEvent)
    → any (conflicts e) rows ≡ true
    → IsStored e rows
any-IsStored e [] h = absurd (ground arith)
any-IsStored e (r ∷ rows) h = elim (Bool-cases (conflicts e r)) [
  | inl c ↦ inl (conflicts-StandsFor e r c)
  | inr c ↦ inr (any-IsStored e rows (ground arith))
]

pub IsStored-added :
    (e : ContractEvent) (rows : List ContractEvent) (f : ContractEvent)
    → IsStored e rows
    → IsStored e (rows ++ f ∷ [])
IsStored-added e [] f h = absurd h
IsStored-added e (r ∷ rows) f (inl h) = inl h
IsStored-added e (r ∷ rows) f (inr h) = inr (IsStored-added e rows f h)

pub IsStored-last : (rows : List ContractEvent) (e : ContractEvent) → IsStored e (rows ++ e ∷ [])
IsStored-last [] e = inl (inl refl)
IsStored-last (r ∷ rows) e = inr (IsStored-last rows e)

pub AllStored-mono :
    (es rows rows' : List ContractEvent) → AllStored es rows → Grows rows rows' → AllStored es rows'
AllStored-mono [] rows rows' h g = tt
AllStored-mono (e ∷ es) rows rows' (h, hs) g = (g e h, AllStored-mono es rows rows' hs g)
