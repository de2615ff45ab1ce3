-- ===== src/AgentFloat/Listing.antt =====
-- `getTransferDetails` and `listTransfers` of agentFloatService.ts.
use dukapay.Base.{
  ℕ, Bool, true, false, ◌&&◌, ◌||◌, Option, none, some, List, [], ◌∷◌, leb, ◌==◌, if◌then◌else◌,
  length, min, max, take, drop,
}
use dukapay.Base.Int.{ℤ, pos, pos_part}
use dukapay.AgentFloat.Store.{
  Status, pending_approval, completed, rejected, cancelled, failed, Transfer, Approval, transfer,
  pair, AuditEntry, M, pure, query, ◌>>=◌, approvals_of,
}
use dukapay.AgentFloat.Approve.{load_transfer}

-- SELECT * FROM audit_logs WHERE target = $1
unfoldable pub audit_of : ℕ → List AuditEntry → List AuditEntry
audit_of id [] = []
audit_of id (e ∷ es) =
    let rest = audit_of id es in
    elim (e.target) [ transfer t ↦ if t == id then e ∷ rest else rest | pair a b ↦ rest ]

unfoldable pub get_transfer_details : ℕ → M (Transfer × List Approval × List AuditEntry)
get_transfer_details transfer_id = do
  t ← load_transfer transfer_id
  approvals ← query (λ db. some (approvals_of transfer_id db.approvals, db))
  audit_logs ← query (λ db. some (audit_of transfer_id db.audit_logs, db))
  pure (t, approvals, audit_logs)

pub record Filters : Type 0 where
  pub agent : Option ℕ
  pub status : Option Status
  pub limit : Option ℤ
  pub offset : Option ℤ

abbrev pub or_default : Option ℤ → ℤ → ℤ
or_default none d = d
or_default (some a) d = a

-- `Math.min(Math.max(filters.limit ?? 20, 1), 100)`.
unfoldable pub page_limit : Option ℤ → ℕ
page_limit limit = min (max (pos_part (or_default limit (pos 20))) 1) 100

-- `Math.max(filters.offset ?? 0, 0)`.
unfoldable pub page_offset : Option ℤ → ℕ
page_offset offset = max (pos_part (or_default offset (pos 0))) 0

abbrev pub same_status : Status → Status → Bool
same_status pending_approval pending_approval = true
same_status completed completed = true
same_status rejected rejected = true
same_status cancelled cancelled = true
same_status failed failed = true
same_status _ _ = false

-- `(from_agent = $1 OR to_agent = $1)`, where the filter is given and not empty.
unfoldable pub agent_matches : Option ℕ → Transfer → Bool
agent_matches none t = true
agent_matches (some agent) t = agent == 0 || (t.from_agent == agent || t.to_agent == agent)

unfoldable pub status_matches : Option Status → Transfer → Bool
status_matches none t = true
status_matches (some status) t = same_status t.status status

unfoldable pub select_where : Filters → List Transfer → List Transfer
select_where filters [] = []
select_where filters (t ∷ ts) =
    let rest = select_where filters ts in
    if agent_matches filters.agent t && status_matches filters.status t then t ∷ rest else rest

-- ORDER BY created_at DESC, as an insertion sort.
unfoldable pub insert_newest : Transfer → List Transfer → List Transfer
insert_newest t [] = t ∷ []
insert_newest t (u ∷ us) =
    if leb u.created_at t.created_at then t ∷ u ∷ us else u ∷ insert_newest t us

unfoldable pub newest_first : List Transfer → List Transfer
newest_first [] = []
newest_first (t ∷ ts) = insert_newest t (newest_first ts)

unfoldable pub list_transfers : Filters → M (List Transfer × ℕ)
list_transfers filters = do
  total ← query (λ db. some (length (select_where filters db.transfers), db))
  transfers ← query (λ db. some (
    take (page_limit filters.limit)
        (drop (page_offset filters.offset) (newest_first (select_where filters db.transfers))),
    db,
  ))
  pure (transfers, total)
