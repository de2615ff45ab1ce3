-- ===== src/Indexer/Atomic.antt =====
-- `withTransaction` of backend/src/db/connection.ts, with any callback.
use mathlib.Core.Path.{subst, sym, ◌∙◌}
use dukapay.Base.{ℕ, zero, suc, ◌≡◌, refl, ◌⊎◌, inl, inr, List, [], ◌∷◌}
use dukapay.Indexer.{
  World, Db, M, Result, ok, err, Trip, fine, transient, fatal, lost_transient, lost_fatal,
  transient_error, fatal_error, out_of_pages, ◌>>◌, attempt, concluded, commit, with_transaction,
  retry_or,
}
use dukapay.Indexer.Rules.{OnOk, OnOk-query}

module _ {A : Type 0} (P : Db → Type 0) where
  -- A run that returns leaves `P`, and one that throws leaves `P` or the tables as they were.
  abbrev pub Atomic : Db → Result A × World → Type 0
  Atomic before (ok a, v) = P v.db
  Atomic before (err e, v) = (v.db ≡ before) ⊎ P v.db

  concluded-Atomic :
      (before : Db) (r : Result A × World)
      → OnOk (λ a v. P v.db) r
      → Atomic before (concluded before r)
  concluded-Atomic before (err e, w) h = inl refl
  concluded-Atomic before (ok a, w) h = go w.trips
    where
      go : (ts : List Trip) → Atomic before (commit before a ts w)
      go [] = h
      go (fine ∷ ts) = h
      go (transient ∷ ts) = inl refl
      go (fatal ∷ ts) = inl refl
      go (lost_transient ∷ ts) = inr h
      go (lost_fatal ∷ ts) = inr h

  Atomic-later :
      (before between : Db) (r : Result A × World)
      → (between ≡ before) ⊎ P between
      → Atomic between r
      → Atomic before r
  Atomic-later before between (ok a, v) first h = h
  Atomic-later before between (err e, v) (inl same) (inl kept) = inl (kept ∙ same)
  Atomic-later before between (err e, v) (inr p) (inl kept) = inr (subst P (sym kept) p)
  Atomic-later before between (err e, v) first (inr p) = inr p

  retry_or-Atomic :
      (again : M A) (before : Db) (r : Result A × World)
      → Atomic before r
      → ((v : World) → Atomic v.db (again v))
      → Atomic before (retry_or again r)
  retry_or-Atomic again before (ok a, v) h k = h
  retry_or-Atomic again before (err transient_error, v) h k =
      Atomic-later before v.db (again v) h (k v)
  retry_or-Atomic again before (err fatal_error, v) h k = h
  retry_or-Atomic again before (err out_of_pages, v) h k = h

  attempt-Atomic :
      (m : M A)
      → ((v : World) → OnOk (λ a u. P u.db) (m v))
      → (w : World) → Atomic w.db (attempt m w)
  unfolding attempt ◌>>◌
  attempt-Atomic m done w =
      concluded-Atomic w.db _
        (OnOk-query (λ db. (tt, db)) (λ _. m) (λ a u. P u.db) w (λ v same. done v))

  -- `withTransaction` is all or nothing, for any callback and whatever statements fail in its rounds: if
  -- the callback leaves a condition of the tables whenever it returns, then `withTransaction` leaves that
  -- condition when it returns, and when it throws it leaves the condition or the tables as they were,
  -- also where a COMMIT took effect and its answer was lost.
  pub with_transaction-Atomic :
      (retries : ℕ) (m : M A)
      → ((v : World) → OnOk (λ a u. P u.db) (m v))
      → (w : World) → Atomic w.db (with_transaction retries m w)
  unfolding with_transaction
  with_transaction-Atomic zero m done w = attempt-Atomic m done w
  with_transaction-Atomic (suc n) m done w =
      retry_or-Atomic (with_transaction n m) w.db (attempt m w) (attempt-Atomic m done w)
        (with_transaction-Atomic n m done)
