-- ===== src/AgentFloat/Refusals.antt =====
-- What `approveTransfer` refuses.
use dukapay.Base.{
  ℕ, ◌≡◌, refl, ◌⊎◌, inl, inr, Bool, true, false, not, ◌||◌, Option, none, some, arith, ◌==◌,
  Bool-cases,
}
use dukapay.Base.Int.{ℤ}
use dukapay.AgentFloat.Store.{
  Transfer, Db, World, Error, Result, err, ok, UserRole, is_admin, find_transfer, has_approval,
}
use dukapay.AgentFloat.Approve.{
  BuildResult, or_not_found, load_transfer, is_pending, approver_role, approve_transfer,
}
use dukapay.AgentFloat.Ends.{Ends, query_rule, bind_rule, throw_if_rule}

-- The sending agent, the receiving agent, or an administrator.
abbrev pub is_entitled : Transfer → ℕ → Option UserRole → Bool
is_entitled t approver user_role =
    (approver == t.from_agent) || ((approver == t.to_agent) || is_admin user_role)

-- Why an approval of transfer `id` is to be refused, if the transfer exists at all.
abbrev pub IsRefused : ℕ → ℕ → Option UserRole → Db → Type 0
IsRefused id approver user_role db =
    (t : Transfer)
    → find_transfer id db.transfers ≡ some t
    → (is_pending t.status ≡ false)
      ⊎ ((has_approval id approver db.approvals ≡ true)
          ⊎ (is_entitled t approver user_role ≡ false))

module _ (configured : Bool) (build_tx : ℕ → ℕ → ℤ → BuildResult) (id approver : ℕ)
    (user_role : Option UserRole) (w : World) where
  abbrev Never : {A : Type 0} → A → Db → Type 0
  Never _ _ = ⊥

  abbrev Same : Error → Db → Type 0
  Same _ db = db ≡ w.db

  abbrev Loaded : Transfer → Db → Type 0
  Loaded t db = (db ≡ w.db) × (find_transfer id w.db.transfers ≡ some t)

  load_rule : (v : World) → v.db ≡ w.db → Ends Loaded Same (load_transfer id v)
  unfolding load_transfer
  load_rule v e =
      bind_rule Loaded Same (λ o db. (db ≡ w.db) × (find_transfer id w.db.transfers ≡ o)) _ _ v
        (query_rule (λ o db. (db ≡ w.db) × (find_transfer id w.db.transfers ≡ o)) Same _ v e
          (λ o db e'. let same = e in ground arith))
        (λ o u hu. found o u hu.0 hu.1)
    where
      found :
          (o : Option Transfer) (u : World)
          → u.db ≡ w.db
          → find_transfer id w.db.transfers ≡ o
          → Ends Loaded Same (or_not_found o u)
      found none u h h' = h
      found (some t) u h h' = (h, h')

  role_rule :
      (t : Transfer) (v : World)
      → v.db ≡ w.db
      → Ends
          (λ _ db. (db ≡ w.db) × (is_entitled t approver user_role ≡ true))
          Same
          (approver_role t approver user_role v)
  unfolding approver_role
  role_rule t v h = elim (Bool-cases (approver == t.from_agent)) [
    | inl a ↦ rw a (h, refl)
    | inr a ↦ elim (Bool-cases (approver == t.to_agent)) [
      | inl b ↦ rw (a, b) (h, refl)
      | inr b ↦ elim (Bool-cases (is_admin user_role)) [
        | inl c ↦ rw (a, b, c) (h, refl)
        | inr c ↦ rw (a, b, c) h
      ]
    ]
  ]

  refused_rule :
      IsRefused id approver user_role w.db
      → Ends Never Same (approve_transfer configured build_tx id approver user_role w)
  unfolding approve_transfer
  refused_rule why = bind_rule Never Same Loaded _ _ w (load_rule w refl) (λ t v hv.
      throw_if_rule Never Same _ _ _ v (λ _. hv.0)
        (λ pending.
          bind_rule Never Same (λ _ db. (db ≡ w.db) × (is_entitled t approver user_role ≡ true)) _ _
            v (role_rule t v hv.0)
            (λ role u hu.
              bind_rule Never Same
                (λ b db. (db ≡ w.db) × (has_approval id approver w.db.approvals ≡ b)) _ _ u
                (query_rule (λ b db. (db ≡ w.db) × (has_approval id approver w.db.approvals ≡ b))
                  Same _ u hu.0 (λ b db e. let same = hu.0 in ground arith))
                (λ b u' hu'.
                  throw_if_rule Never Same _ _ _ u' (λ _. hu'.0)
                    (λ fresh.
                      contradiction t (hv.1) pending (hu.1) b (hu'.1) fresh (why t hv.1))))))
    where
      contradiction :
          (t : Transfer)
          → find_transfer id w.db.transfers ≡ some t
          → not (is_pending t.status) ≡ false
          → is_entitled t approver user_role ≡ true
          → (b : Bool) → has_approval id approver w.db.approvals ≡ b
          → b ≡ false
          → (is_pending t.status ≡ false)
            ⊎ ((has_approval id approver w.db.approvals ≡ true)
                ⊎ (is_entitled t approver user_role ≡ false))
          → {R : Type 0} → R
      contradiction t f p e b h fr (inl x) = absurd (ground arith)
      contradiction t f p e b h fr (inr (inl x)) = absurd (cc)
      contradiction t f p e b h fr (inr (inr x)) = absurd (cc)

  -- The request ended in an error and left the tables as they were.
  abbrev pub IsRejected : {A : Type 0} → Result A × World → Type 0
  IsRejected (ok a, v) = ⊥
  IsRejected (err e, v) = v.db ≡ w.db

  Ends-IsRejected : {A : Type 0} (r : Result A × World) → Ends Never Same r → IsRejected r
  Ends-IsRejected (ok a, v) h = h
  Ends-IsRejected (err e, v) h = h

  -- `approveTransfer` rejects, whatever the chain and the queries do, and leaves every table as it was,
  -- when the transfer does not exist, is not PENDING_APPROVAL, already has an approval by this
  -- approver, or the approver is neither one of its two agents nor an administrator.
  pub approve_transfer-refused :
      IsRefused id approver user_role w.db
      → IsRejected (approve_transfer configured build_tx id approver user_role w)
  approve_transfer-refused why = Ends-IsRejected _ (refused_rule why)
