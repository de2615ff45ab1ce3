-- ===== src/Rbac/Tenant.antt =====
-- Whom the tenant gates let reach a wallet.
use dukapay.Base.{
  ◌≡◌, refl, Bool, true, false, ◌&&◌, Option, none, some, List, [], ◌∷◌, ◌⊎◌, inl, inr, Bool-cases,
  arith, if◌then◌else◌,
}
use dukapay.Base.Text.{Text, same_text, has_text}
use dukapay.Rbac.{UserRole, auditor}
use dukapay.Rbac.Gates.{
  User, Request, passed, guard, with_key, authenticated, require_user, is_overseer, is_agent,
  or_no_borrowers, can_access, can_access_wallet, assigned_to, enriched, lacks_claim,
  enrich_assigned_borrowers, resolve_requested_wallet, require_target, grant, require_tenant_access,
  unless_auditor, require_write_tenant_access, ◌>>=◌,
}

abbrev pub rows_of : Option (List (Text × Text)) → List (Text × Text)
rows_of none = []
rows_of (some rows) = rows

-- An administrator or an auditor, the owner, or an agent to whom the token or the table assigns the
-- wallet.
abbrev pub IsEntitled : Option (List (Text × Text)) → User → Text → Type 0
IsEntitled rows u target =
    (is_overseer u.role ≡ true)
    ⊎ ((same_text u.public_key target ≡ true)
        ⊎ ((is_agent u.role ≡ true)
            × ((has_text target (or_no_borrowers u.assigned_borrowers) ≡ true)
                ⊎ (has_text target (assigned_to u.public_key (rows_of rows)) ≡ true))))

-- The request's user is entitled to the wallet that the request names.
abbrev pub IsAllowed : Option (List (Text × Text)) → Request → Type 0
IsAllowed rows req =
    (u : User) × ((target : Text) × ((req.user ≡ some u)
        × ((resolve_requested_wallet req ≡ some target) × IsEntitled rows u target)))

can_access-IsEntitled :
    (rows : Option (List (Text × Text))) (u : User) (target : Text)
    → can_access u target ≡ true
    → IsEntitled rows u target
can_access-IsEntitled rows u target h = elim (Bool-cases (is_overseer u.role)) [
  | inl a ↦ inl a
  | inr a ↦ elim (Bool-cases (same_text u.public_key target)) [
    | inl b ↦ inr (inl b)
    | inr b ↦ inr (inr (ground arith, inl (ground arith)))
  ]
]

enriched-IsEntitled :
    (rows : Option (List (Text × Text))) (u : User) (target : Text)
    → is_agent u.role ≡ true
    → can_access (enriched rows u) target ≡ true
    → IsEntitled rows u target
enriched-IsEntitled none u target a h = can_access-IsEntitled none u target h
enriched-IsEntitled (some rows) u target a h = elim (Bool-cases (is_overseer u.role)) [
  | inl b ↦ inl b
  | inr b ↦ elim (Bool-cases (same_text u.public_key target)) [
    | inl c ↦ inr (inl c)
    | inr c ↦ inr (inr (a, inr (ground arith)))
  ]
]

enrich-IsEntitled :
    (rows : Option (List (Text × Text))) (u : User) (target : Text)
    → can_access (enrich_assigned_borrowers rows u) target ≡ true
    → IsEntitled rows u target
unfolding enrich_assigned_borrowers
enrich-IsEntitled rows u target = go (is_agent u.role) (lacks_claim u.assigned_borrowers) refl
  where
    go :
        (a l : Bool)
        → is_agent u.role ≡ a
        → can_access (if a && l then enriched rows u else u) target ≡ true
        → IsEntitled rows u target
    go true true e h = enriched-IsEntitled rows u target e h
    go true false e h = can_access-IsEntitled rows u target h
    go false l e h = can_access-IsEntitled rows u target h

guard_passed : {A : Type 0} (b : Bool) (a a' : A) → guard b a ≡ passed a' → b ≡ true
guard_passed true a a' h = refl
guard_passed false a a' h = absurd (ground arith)

-- `requireTenantAccess` lets a request pass only if it is authenticated and names a wallet to which
-- its user is entitled: as administrator or auditor, as the owner, or as an agent or lender to
-- whom the token or the table `agent_assignments` assigns it.
pub require_tenant_access-IsAllowed :
    (rows : Option (List (Text × Text))) (req req' : Request)
    → require_tenant_access rows req ≡ passed req'
    → IsAllowed rows req
unfolding require_tenant_access require_user can_access_wallet
require_tenant_access-IsAllowed rows req req' h = by_user req.user refl h
  where
    by_target :
        (u : User)
        → req.user ≡ some u
        → (t : Option Text) → resolve_requested_wallet req ≡ t
        → (require_target t >>= λ target. grant target (enrich_assigned_borrowers rows u) req)
          ≡ passed req'
        → IsAllowed rows req
    by_target u e none f h = absurd (ground arith)
    by_target u e (some []) f h = absurd (ground arith)
    by_target u e (some (c ∷ cs)) f h =
        (u, (c ∷ cs, (e, (f, enrich-IsEntitled rows u (c ∷ cs) (guard_passed _ _ _ h)))))

    by_key :
        (u : User) (key : Text)
        → req.user ≡ some u
        → (with_key key u >>= λ u. require_target (resolve_requested_wallet req) >>= λ target.
            grant target (enrich_assigned_borrowers rows u) req)
          ≡ passed req'
        → IsAllowed rows req
    by_key u [] e h = absurd (ground arith)
    by_key u (k ∷ ks) e h = by_target u e (resolve_requested_wallet req) refl h

    by_user :
        (o : Option User)
        → req.user ≡ o
        → (authenticated o >>= λ u. require_target (resolve_requested_wallet req) >>= λ target.
            grant target (enrich_assigned_borrowers rows u) req)
          ≡ passed req'
        → IsAllowed rows req
    by_user none e h = absurd (ground arith)
    by_user (some u) e h = by_key u u.public_key e h

-- `requireWriteTenantAccess` lets a request pass only under the same conditions, and never from an
-- auditor.
pub require_write_tenant_access-IsAllowed :
    (rows : Option (List (Text × Text))) (req req' : Request)
    → require_write_tenant_access rows req ≡ passed req'
    → IsAllowed rows req × ((u : User) → req.user ≡ some u → (u.role ≡ auditor) → ⊥)
unfolding require_write_tenant_access require_user
require_write_tenant_access-IsAllowed rows req req' h = by_user req.user refl h
  where
    by_role :
        (u : User) (r : UserRole)
        → req.user ≡ some u
        → u.role ≡ r
        → unless_auditor r (require_tenant_access rows req) ≡ passed req'
        → IsAllowed rows req × ((v : User) → req.user ≡ some v → (v.role ≡ auditor) → ⊥)
    by_role u auditor e f h = absurd (ground arith)
    by_role u r e f h =
        (require_tenant_access-IsAllowed rows req req' h, λ v g a. absurd (ground arith))

    by_key :
        (u : User) (key : Text)
        → req.user ≡ some u
        → (with_key key u >>= λ u. unless_auditor u.role (require_tenant_access rows req))
          ≡ passed req'
        → IsAllowed rows req × ((v : User) → req.user ≡ some v → (v.role ≡ auditor) → ⊥)
    by_key u [] e h = absurd (ground arith)
    by_key u (k ∷ ks) e h = by_role u u.role e refl h

    by_user :
        (o : Option User)
        → req.user ≡ o
        → (authenticated o >>= λ u. unless_auditor u.role (require_tenant_access rows req))
          ≡ passed req'
        → IsAllowed rows req × ((v : User) → req.user ≡ some v → (v.role ≡ auditor) → ⊥)
    by_user none e h = absurd (ground arith)
    by_user (some u) e h = by_key u u.public_key e h
