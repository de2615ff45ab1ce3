-- ===== src/AgentFloat/Opening.antt =====
-- `initiateTransfer` and the invariant of the two signatures: the two inserts are not one transaction.
use mathlib.Core.Path.{subst, subst₂}
use dukapay.Base.{
  ℕ, ◌≡◌, ◌≢◌, refl, sym, Bool, true, false, not, ◌&&◌, Option, none, some, List, [], ◌∷◌, ◌++◌,
  arith, All, if◌then◌else◌,
}
use dukapay.Base.Int.{ℤ}
use dukapay.AgentFloat.Store.{
  Transfer, Approval, Db, World, Error, db_error, query, throw_if, bad_request, find_transfer,
  has_approval,
}
use dukapay.AgentFloat.Initiate.{
  InitiateInput, new_transfer, get_pair_limits, total_since, check_limits, insert_transfer,
  insert_approval, is_some, store_transfer, initiate_transfer,
}
use dukapay.AgentFloat.Ends.{Ends, query_rule, bind_rule, catch_rule, throw_if_rule, then_rule}
use dukapay.AgentFloat.Signed.{
  is_executed, IsSigned, AllSigned, DbSigned, IsDistinct, signatures-append, All-IsSigned-append,
  IsDistinct-append, All-append,
}
use dukapay.AgentFloat.Preserve.{Kept, log_audit_rule}

-- Sound unless a query failed.
abbrev pub KeptUnlessFault : Error → Db → Type 0
KeptUnlessFault e db = e ≢ db_error → DbSigned db

query_read_rule :
    {A : Type 0} (f : Db → A) (w : World)
    → DbSigned w.db
    → Ends Kept KeptUnlessFault (query (λ db. some (f db, db)) w)
query_read_rule f w h =
    query_rule Kept KeptUnlessFault _ w (λ _. h)
      (λ a db e. subst₂ AllSigned (ground arith) (ground arith) h)

get_pair_limits_rule :
    (from_agent to_agent : ℕ) (w : World)
    → DbSigned w.db
    → Ends Kept KeptUnlessFault (get_pair_limits from_agent to_agent w)
unfolding get_pair_limits
get_pair_limits_rule from_agent to_agent w h = catch_rule Kept KeptUnlessFault _ _ w (
    query_rule Kept (λ _ db. DbSigned db) _ w h
      (λ a db e. subst₂ AllSigned (ground arith) (ground arith) h))

total_since_rule :
    (from_agent to_agent interval : ℕ) (w : World)
    → DbSigned w.db
    → Ends Kept KeptUnlessFault (total_since from_agent to_agent interval w)
unfolding total_since
total_since_rule from_agent to_agent interval w h = query_read_rule _ w h

last_test :
    (c : Bool) (w : World) → DbSigned w.db → Ends Kept KeptUnlessFault (throw_if c bad_request w)
unfolding throw_if
last_test true w h = λ _. h
last_test false w h = h

check_limits_rule :
    (from_agent to_agent : ℕ) (amount : ℤ) (w : World)
    → DbSigned w.db
    → Ends Kept KeptUnlessFault (check_limits from_agent to_agent amount w)
unfolding check_limits
check_limits_rule from_agent to_agent amount w h =
    bind_rule Kept KeptUnlessFault Kept _ _ w (get_pair_limits_rule from_agent to_agent w h)
      (λ limits v hv.
        bind_rule Kept KeptUnlessFault Kept _ _ v (total_since_rule from_agent to_agent _ v hv)
          (λ daily u hu.
            throw_if_rule Kept KeptUnlessFault _ _ _ u (λ _ _. hu)
              (λ _.
                bind_rule Kept KeptUnlessFault Kept _ _ u
                  (total_since_rule from_agent to_agent _ u hu)
                  (λ weekly u' hu'. last_test _ u' hu'))))

-- The tables between the two inserts: sound but for the last transfer, which no row signs yet.
record Opened (t : Transfer) (db : Db) : Type 0 where
  older : List Transfer
  split : db.transfers ≡ older ++ t ∷ []
  signed : All (IsSigned db.approvals) older
  distinct : IsDistinct db.approvals

insert_transfer_rule :
    (t : Transfer) (w : World)
    → DbSigned w.db
    → Ends (λ _ db. Opened t db) KeptUnlessFault (insert_transfer t w)
unfolding insert_transfer
insert_transfer_rule t w h =
    query_rule (λ _ db. Opened t db) KeptUnlessFault _ w (λ ne. absurd (ne refl))
      (λ t' db e.
        subst (Opened t) (stored t' db e) (record {
          older = w.db.transfers;
          split = refl;
          signed = h.signed;
          distinct = h.distinct;
        }))
  where
    stored :
        (t' : Transfer) (db : Db)
        → if◌then◌else◌ {A = Option (Transfer × Db)}
            (is_some (find_transfer t.id w.db.transfers))
            none
            (some (t, record (w.db) { transfers = w.db.transfers ++ t ∷ [] }))
          ≡ some (t', db)
        → record (w.db) { transfers = w.db.transfers ++ t ∷ [] } ≡ db
    stored t' db e = ground arith

insert_approval_rule :
    (t : Transfer) (a : Approval) (w : World)
    → t.required_approvals ≡ 2
    → t.approval_count ≡ 1
    → is_executed t.status ≡ false
    → a.transfer_id ≡ t.id
    → Opened t w.db
    → Ends Kept KeptUnlessFault (insert_approval a w)
unfolding insert_approval
insert_approval_rule t a w two one new same h =
    query_rule Kept KeptUnlessFault _ w (λ ne. absurd (ne refl))
      (λ a' db e.
        let (free, stored) = accepted a' db e in
        subst DbSigned stored (record {
          signed = subst (All (IsSigned (w.db.approvals ++ a ∷ []))) (sym h.split) (
              All-append (IsSigned (w.db.approvals ++ a ∷ [])) h.older t
                (All-IsSigned-append w.db.approvals a h.older h.signed)
                (record {
                  threshold = two;
                  counted = ground (arith, signatures-append t.id w.db.approvals a);
                  executed = λ e'. cc;
                }));
          distinct = IsDistinct-append w.db.approvals a free h.distinct;
        }))
  where
    accepted :
        (a' : Approval) (db : Db)
        → if◌then◌else◌ {A = Option (Approval × Db)}
            (is_some (find_transfer a.transfer_id w.db.transfers)
              && not (has_approval a.transfer_id a.approver w.db.approvals))
            (some (a, record (w.db) { approvals = w.db.approvals ++ a ∷ [] }))
            none
          ≡ some (a', db)
        → (has_approval a.transfer_id a.approver w.db.approvals ≡ false)
          × (record (w.db) { approvals = w.db.approvals ++ a ∷ [] } ≡ db)
    accepted a' db e = ground arith

store_transfer_rule :
    (id : ℕ) (input : InitiateInput) (w : World)
    → DbSigned w.db
    → Ends Kept KeptUnlessFault (store_transfer id input w)
unfolding store_transfer
store_transfer_rule id input w h =
    bind_rule Kept KeptUnlessFault (λ _ db. Opened (new_transfer id w.now input) db) _ _ w
      (insert_transfer_rule (new_transfer id w.now input) w h)
      (λ t v hv.
        bind_rule Kept KeptUnlessFault Kept _ _ v
          (insert_approval_rule (new_transfer id w.now input) _ v refl refl refl refl hv)
          (λ a u hu.
            then_rule Kept KeptUnlessFault Kept _ _ u
              (log_audit_rule AllSigned KeptUnlessFault _ u hu) (λ u' hu'. hu')))

pub initiate_transfer_rule :
    (id : ℕ) (input : InitiateInput) (w : World)
    → DbSigned w.db
    → Ends Kept KeptUnlessFault (initiate_transfer id input w)
unfolding initiate_transfer
initiate_transfer_rule id input w h =
    throw_if_rule Kept KeptUnlessFault _ _ _ w (λ _ _. h)
      (λ _.
        throw_if_rule Kept KeptUnlessFault _ _ _ w (λ _ _. h)
          (λ _.
            throw_if_rule Kept KeptUnlessFault _ _ _ w (λ _ _. h)
              (λ _.
                then_rule Kept KeptUnlessFault Kept _ _ w (check_limits_rule _ _ _ w h)
                  (λ v hv. store_transfer_rule id input v hv))))
