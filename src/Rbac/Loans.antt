-- ===== src/Rbac/Loans.antt =====
-- Who may reach a loan: backend/src/middleware/loanAccess.ts.
use dukapay.Base.{
  ◌≡◌, refl, Bool, true, false, ◌&&◌, ◌||◌, Option, none, some, List, [], ◌∷◌, inl, inr, Bool-cases,
  arith, if◌then◌else◌,
}
use dukapay.Base.Text.{Text, same_text, has_text}
use dukapay.Rbac.{UserRole, admin, agent, auditor, lender}
use dukapay.Rbac.Gates.{User, or_no_borrowers}

pub data LoanRefusal : Type 0 where
  unauthorized bad_request not_found forbidden query_failed : LoanRefusal

pub data LoanGate : Type 0 where
  granted : LoanGate
  denied : LoanRefusal → LoanGate

abbrev pub grant_if : Bool → LoanGate
grant_if true = granted
grant_if false = denied forbidden

-- SELECT address FROM … WHERE loan_id = $1 LIMIT 1, of rows with the loan and the address.
unfoldable pub first_address : Text → List (Text × Text) → Option Text
first_address id [] = none
first_address id ((loan, address) ∷ rows) =
    if same_text loan id then some address else first_address id rows

-- SELECT 1 FROM agent_assignments WHERE agent_public_key = $1 AND borrower_public_key = $2
unfoldable pub is_assigned : Text → Text → List (Text × Text) → Bool
is_assigned key borrower [] = false
is_assigned key borrower ((a, b) ∷ rows) =
    (same_text a key && same_text b borrower) || is_assigned key borrower rows

-- `filter(Boolean)`
unfoldable pub non_empty : List Text → List Text
non_empty [] = []
non_empty ([] ∷ ts) = non_empty ts
non_empty ((c ∷ cs) ∷ ts) = (c ∷ cs) ∷ non_empty ts

-- 'Admins, auditors and lenders are allowed to view loan details.'
abbrev pub sees_all_loans : UserRole → Bool
sees_all_loans admin = true
sees_all_loans auditor = true
sees_all_loans lender = true
sees_all_loans _ = false

abbrev pub by_table : Option (List (Text × Text)) → Text → Text → LoanGate
by_table none key address = denied query_failed
by_table (some rows) key address = grant_if (is_assigned key address rows)

abbrev pub by_claim : List Text → Option (List (Text × Text)) → Text → Text → LoanGate
by_claim [] rows key address = by_table rows key address
by_claim (t ∷ ts) rows key address = grant_if (has_text address (t ∷ ts))

abbrev pub for_agent : UserRole → List Text → Option (List (Text × Text)) → Text → Text → LoanGate
for_agent agent assigned rows key address = by_claim assigned rows key address
for_agent _ assigned rows key address = denied forbidden

abbrev pub for_address : Option (List (Text × Text)) → User → Option Text → LoanGate
for_address rows u none = denied not_found
for_address rows u (some address) =
    if same_text address u.public_key
    then granted
    else for_agent u.role (non_empty (or_no_borrowers u.assigned_borrowers)) rows u.public_key
        address

abbrev pub for_loan :
    Option (List (Text × Text)) → Option (List (Text × Text)) → User → Text → LoanGate
for_loan none rows u id = denied query_failed
for_loan (some events) rows u id = for_address rows u (first_address id events)

abbrev pub for_reader :
    Option (List (Text × Text)) → Option (List (Text × Text)) → User → Text → LoanGate
for_reader events rows u id = if sees_all_loans u.role then granted else for_loan events rows u id

abbrev pub with_loan : (Text → LoanGate) → Option Text → LoanGate
with_loan f none = denied bad_request
with_loan f (some []) = denied bad_request
with_loan f (some (c ∷ cs)) = f (c ∷ cs)

abbrev pub with_user_key : Text → LoanGate → LoanGate
with_user_key [] g = denied unauthorized
with_user_key (c ∷ cs) g = g

-- `events` and `rows` are the answers of the two queries, `none` where one fails.
unfoldable pub require_loan_borrower_access :
    Option (List (Text × Text)) → Option (List (Text × Text)) → Option User → Option Text → LoanGate
require_loan_borrower_access events rows none id = denied unauthorized
require_loan_borrower_access events rows (some u) id =
    with_user_key u.public_key (with_loan (for_reader events rows u) id)

abbrev pub is_owner : User → Option Text → LoanGate
is_owner u none = denied not_found
is_owner u (some address) = grant_if (same_text address u.public_key)

abbrev pub for_owner : Option (List (Text × Text)) → User → Text → LoanGate
for_owner none u id = denied query_failed
for_owner (some events) u id = is_owner u (first_address id events)

abbrev pub or_id : Option Text → Option Text → Option Text
or_id none id = id
or_id (some []) id = id
or_id (some (c ∷ cs)) id = some (c ∷ cs)

-- `req.params.loanId || req.params.id`
unfoldable pub require_loan_owner :
    Option (List (Text × Text)) → Option User → Option Text → Option Text → LoanGate
require_loan_owner events none loan_id id = denied unauthorized
require_loan_owner events (some u) loan_id id =
    with_user_key u.public_key (with_loan (for_owner events u) (or_id loan_id id))

grant_if_granted : (b : Bool) → grant_if b ≡ granted → b ≡ true
grant_if_granted true h = refl
grant_if_granted false h = absurd (ground arith)

-- The loan's row, if the query was answered, has the user's own key as its address.
abbrev pub IsOwned : Option (List (Text × Text)) → Text → Option Text → Type 0
IsOwned events key loan =
    (rows : List (Text × Text)) × ((id : Text) × ((address : Text) × (((events ≡ some rows)
            × (loan ≡ some id))
          × ((first_address id rows ≡ some address) × (same_text address key ≡ true)))))

-- `requireLoanOwner` lets a user pass only if its query was answered, and the first row of the
-- requested loan has the user's own key as its address.
pub require_loan_owner-IsOwned :
    (events : Option (List (Text × Text))) (u : User) (loan_id id : Option Text)
    → require_loan_owner events (some u) loan_id id ≡ granted
    → IsOwned events u.public_key (or_id loan_id id)
unfolding require_loan_owner
require_loan_owner-IsOwned events u loan_id id h = by_key u.public_key h
  where
    by_address :
        (rows : List (Text × Text)) (loan : Text) (o : Option Text)
        → first_address loan rows ≡ o
        → is_owner u o ≡ granted
        → IsOwned (some rows) u.public_key (some loan)
    by_address rows loan none e h = absurd (ground arith)
    by_address rows loan (some a) e h =
        (rows, (loan, (a, ((refl, refl), (e, grant_if_granted _ h)))))

    by_events :
        (o : Option (List (Text × Text))) (loan : Text)
        → for_owner o u loan ≡ granted
        → IsOwned o u.public_key (some loan)
    by_events none loan h = absurd (ground arith)
    by_events (some rows) loan h = by_address rows loan (first_address loan rows) refl h

    by_loan :
        (o : Option Text)
        → with_loan (for_owner events u) o ≡ granted
        → IsOwned events u.public_key o
    by_loan none h = absurd (ground arith)
    by_loan (some []) h = absurd (ground arith)
    by_loan (some (c ∷ cs)) h = by_events events (c ∷ cs) h

    by_key :
        (key : Text)
        → with_user_key key (with_loan (for_owner events u) (or_id loan_id id)) ≡ granted
        → IsOwned events u.public_key (or_id loan_id id)
    by_key [] h = absurd (ground arith)
    by_key (k ∷ ks) h = by_loan (or_id loan_id id) h

-- On one table of loans, a user that `requireLoanOwner` lets pass is let pass by
-- `requireLoanBorrowerAccess` too, whatever its role and whatever the assignments.
pub require_loan_borrower_access-require_loan_owner :
    (events rows : Option (List (Text × Text))) (u : User) (loan_id : Option Text)
    → require_loan_owner events (some u) loan_id none ≡ granted
    → require_loan_borrower_access events rows (some u) loan_id ≡ granted
unfolding require_loan_owner require_loan_borrower_access
require_loan_borrower_access-require_loan_owner events rows u loan_id h =
    by_key u.public_key loan_id h
  where
    by_address : (o : Option Text) → is_owner u o ≡ granted → for_address rows u o ≡ granted
    by_address none h = absurd (ground arith)
    by_address (some a) h = let same = grant_if_granted _ h in rw same refl

    by_events :
        (o : Option (List (Text × Text))) (loan : Text)
        → for_owner o u loan ≡ granted
        → for_loan o rows u loan ≡ granted
    by_events none loan h = absurd (ground arith)
    by_events (some es) loan h = by_address (first_address loan es) h

    by_role :
        (loan : Text) → for_owner events u loan ≡ granted → for_reader events rows u loan ≡ granted
    by_role loan h = elim (Bool-cases (sees_all_loans u.role)) [
      | inl e ↦ rw e refl
      | inr e ↦ rw e (by_events events loan h)
    ]

    by_key :
        (key : Text) (o : Option Text)
        → with_user_key key (with_loan (for_owner events u) (or_id o none)) ≡ granted
        → with_user_key key (with_loan (for_reader events rows u) o) ≡ granted
    by_key [] o h = absurd (ground arith)
    by_key (k ∷ ks) none h = absurd (ground arith)
    by_key (k ∷ ks) (some []) h = absurd (ground arith)
    by_key (k ∷ ks) (some (c ∷ cs)) h = by_role (c ∷ cs) h
