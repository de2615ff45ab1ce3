-- ===== src/AgentFloat/Signed.antt =====
-- The two signatures behind an executed transfer: an invariant of the tables.
use mathlib.Core.Path.{subst}
use dukapay.Base.{
  ℕ, ◌+◌, ◌≤◌, ◌≡◌, refl, sym, ap, ◌∙◌, inl, inr, Bool, true, false, ◌&&◌, ◌||◌, some, List, [],
  ◌∷◌, ◌++◌, arith, length, All, ◌==◌, ==_iff, if◌then◌else◌, Bool-cases,
}
use dukapay.AgentFloat.Store.{
  Status, completed, failed, Transfer, Approval, Db, find_transfer, approvals_of, has_approval,
  update_transfer,
}

-- The rows of a transfer's approvals, counted.
abbrev pub signatures : ℕ → List Approval → ℕ
signatures id as' = length (approvals_of id as')

abbrev pub is_executed : Status → Bool
is_executed completed = true
is_executed failed = true
is_executed _ = false

-- The count is covered by rows, and what has been executed has two.
pub record IsSigned (as' : List Approval) (t : Transfer) : Type 0 where
  pub threshold : t.required_approvals ≡ 2
  pub counted : t.approval_count ≤ signatures t.id as'
  pub executed : is_executed t.status ≡ true → 2 ≤ signatures t.id as'

-- No approver stands twice behind one transfer.
abbrev pub IsDistinct : List Approval → Type 0
IsDistinct [] = Unit
IsDistinct (a ∷ as') = (has_approval a.transfer_id a.approver as' ≡ false) × IsDistinct as'

pub record AllSigned (ts : List Transfer) (as' : List Approval) : Type 0 where
  pub signed : All (IsSigned as') ts
  pub distinct : IsDistinct as'

abbrev pub DbSigned : Db → Type 0
DbSigned db = AllSigned db.transfers db.approvals

pub signatures-append :
    (id : ℕ) (as' : List Approval) (a : Approval)
    → signatures id (as' ++ a ∷ []) ≡ signatures id as' + (if a.transfer_id == id then 1 else 0)
unfolding approvals_of
signatures-append id [] a = ground arith
signatures-append id (b ∷ as') a = ground (arith, signatures-append id as' a)

IsSigned-append :
    (as' : List Approval) (a : Approval) (t : Transfer)
    → IsSigned as' t
    → IsSigned (as' ++ a ∷ []) t
IsSigned-append as' a t s = record {
  threshold = s.threshold;
  counted = omega (arith, s.counted, more);
  executed = λ e. let h = s.executed e in omega (arith, more);
}
  where
    more : signatures t.id as' ≤ signatures t.id (as' ++ a ∷ [])
    more = omega (arith, signatures-append t.id as' a)

pub All-IsSigned-append :
    (as' : List Approval) (a : Approval) (ts : List Transfer)
    → All (IsSigned as') ts
    → All (IsSigned (as' ++ a ∷ [])) ts
All-IsSigned-append as' a [] h = tt
All-IsSigned-append as' a (t ∷ ts) (s, h) =
    (IsSigned-append as' a t s, All-IsSigned-append as' a ts h)

has_approval-append :
    (id approver : ℕ) (as' : List Approval) (a : Approval)
    → has_approval id approver (as' ++ a ∷ [])
      ≡ (has_approval id approver as' || (a.transfer_id == id && a.approver == approver))
unfolding has_approval
has_approval-append id approver [] a = ground arith
has_approval-append id approver (b ∷ as') a = ground (arith, has_approval-append id approver as' a)

pub IsDistinct-append :
    (as' : List Approval) (a : Approval)
    → has_approval a.transfer_id a.approver as' ≡ false
    → IsDistinct as'
    → IsDistinct (as' ++ a ∷ [])
unfolding has_approval
IsDistinct-append [] a new h = (refl, tt)
IsDistinct-append (b ∷ as') a new (h, hs) = (
  ground (arith, has_approval-append b.transfer_id b.approver as' a),
  IsDistinct-append as' a (ground arith) hs,
)

pub All-update {ℓ} :
    (P : Transfer → Type ℓ) (id : ℕ) (f : Transfer → Transfer) (ts : List Transfer)
    → ((t : Transfer) → t.id ≡ id → P t → P (f t))
    → All P ts
    → All P (update_transfer id f ts)
unfolding update_transfer
All-update P id f [] keep h = tt
All-update P id f (t ∷ ts) keep (p, h) = elim (Bool-cases (t.id == id)) [
  | inl same ↦ (
    subst (λ b. P (if b then f t else t)) (sym same) (keep t ((==_iff t.id id).0 same) p),
    All-update P id f ts keep h,
  )
  | inr other ↦ (subst (λ b. P (if b then f t else t)) (sym other) p, All-update P id f ts keep h)
]

pub All-append {ℓ} :
    (P : Transfer → Type ℓ) (ts : List Transfer) (t : Transfer)
    → All P ts
    → P t
    → All P (ts ++ t ∷ [])
All-append P [] t h p = (p, tt)
All-append P (u ∷ ts) t (q, h) p = (q, All-append P ts t h p)

-- A row that is found satisfies what all rows satisfy, and has the id that was asked for.
pub All-find_transfer {ℓ} :
    (P : Transfer → Type ℓ) (id : ℕ) (ts : List Transfer) (t : Transfer)
    → All P ts
    → find_transfer id ts ≡ some t
    → P t × (t.id ≡ id)
unfolding find_transfer
All-find_transfer P id [] t h e = cc
All-find_transfer P id (u ∷ ts) t (p, h) e = elim (Bool-cases (u.id == id)) [
  | inl same ↦
      let here : u ≡ t = ground arith in
      (subst P here p, ap (λ (x : Transfer). x.id) (sym here) ∙ (==_iff u.id id).0 same)
  | inr other ↦ All-find_transfer P id ts t h (ground arith)
]
