-- ===== src/Indexer/Keeps.antt =====
-- Rules for what a run of the indexer leaves in the tables, whether it returns or throws.
use mathlib.Core.Path.{subst}
use dukapay.Base.{ℕ, zero, suc, ◌≡◌, refl, sym, List, [], ◌∷◌}
use dukapay.Indexer.{
  World, Db, M, Result, ok, err, Trip, transient_error, fatal_error, out_of_pages, fine, transient,
  fatal, query, query_with, run_query, execute, with_transaction, bind_result, attempt, concluded,
  commit, lost_transient, lost_fatal, retry_or, ◌>>◌,
}

-- The tables have `P` at the end of a run, and the value of one that returns has `Q`.
abbrev pub Keeps : {A : Type 0} → (Db → Type 0) → (A → Type 0) → Result A × World → Type 0
Keeps P Q (ok a, w) = P w.db × Q a
Keeps P Q (err e, w) = P w.db

abbrev pub Any : {A : Type 0} → A → Type 0
Any a = Unit {0}

module _ (P : Db → Type 0) where
  pub Keeps-db : {A : Type 0} (Q : A → Type 0) (r : Result A × World) → Keeps P Q r → P r.1.db
  Keeps-db Q (ok a, w) h = h.0
  Keeps-db Q (err e, w) h = h

  pub Keeps-bind_result :
      {A B : Type 0} (Q : A → Type 0) (R : B → Type 0) (r : Result A × World) (f : A → M B)
      → Keeps P Q r
      → ((a : A) (w : World) → P w.db → Q a → Keeps P R (f a w))
      → Keeps P R (bind_result r f)
  Keeps-bind_result Q R (ok a, w) f (h, q) k = k a w h q
  Keeps-bind_result Q R (err e, w) f h k = h

  module _ {A B : Type 0} (f : Db → A × Db) (k : A → M B) (R : B → Type 0) where
    Keeps-run_query :
        (t : Trip) (w : World)
        → P w.db
        → P (f w.db).1
        → ((v : World) → v.db ≡ (f w.db).1 → Keeps P R (k (f w.db).0 v))
        → Keeps P R (bind_result (run_query t f w) k)
    Keeps-run_query fine w p q h = h _ refl
    Keeps-run_query transient w p q h = p
    Keeps-run_query fatal w p q h = p
    Keeps-run_query lost_transient w p q h = q
    Keeps-run_query lost_fatal w p q h = q

    Keeps-query_with :
        (ts : List Trip) (w : World)
        → P w.db
        → P (f w.db).1
        → ((v : World) → v.db ≡ (f w.db).1 → Keeps P R (k (f w.db).0 v))
        → Keeps P R (bind_result (query_with ts f w) k)
    Keeps-query_with [] w p q h = h _ refl
    Keeps-query_with (t ∷ ts) w p q h = Keeps-run_query t (record w { trips = ts }) p q h

    -- A query and what follows it.
    pub Keeps-query :
        (w : World)
        → P w.db
        → P (f w.db).1
        → ((v : World) → v.db ≡ (f w.db).1 → Keeps P R (k (f w.db).0 v))
        → Keeps P R (bind_result (query f w) k)
    unfolding query
    Keeps-query w p q h = Keeps-query_with w.trips w p q h

  module _ (f : Db → Db) where
    Keeps-run_execute :
        (t : Trip) (w : World)
        → P w.db
        → P (f w.db)
        → Keeps P Any (run_query t (λ db. (tt, f db)) w)
    Keeps-run_execute fine w p h = (h, tt)
    Keeps-run_execute transient w p h = p
    Keeps-run_execute fatal w p h = p
    Keeps-run_execute lost_transient w p h = h
    Keeps-run_execute lost_fatal w p h = h

    Keeps-execute_with :
        (ts : List Trip) (w : World)
        → P w.db
        → P (f w.db)
        → Keeps P Any (query_with ts (λ db. (tt, f db)) w)
    Keeps-execute_with [] w p h = (h, tt)
    Keeps-execute_with (t ∷ ts) w p h = Keeps-run_execute t (record w { trips = ts }) p h

    pub Keeps-execute : (w : World) → P w.db → P (f w.db) → Keeps P Any (execute f w)
    unfolding query
    Keeps-execute w p h = Keeps-execute_with w.trips w p h

  Keeps-concluded :
      {A : Type 0} (db : Db) (r : Result A × World)
      → P db
      → Keeps P Any r
      → Keeps P Any (concluded db r)
  Keeps-concluded db (err e, w) p h = p
  Keeps-concluded db (ok a, w) p (h, _) = go w.trips
    where
      go : (ts : List Trip) → Keeps P Any (commit db a ts w)
      go [] = (h, tt)
      go (fine ∷ ts) = (h, tt)
      go (transient ∷ ts) = p
      go (fatal ∷ ts) = p
      go (lost_transient ∷ ts) = h
      go (lost_fatal ∷ ts) = h

  Keeps-retry_or :
      {A : Type 0} (Q : A → Type 0) (again : M A) (r : Result A × World)
      → Keeps P Q r
      → ((w : World) → P w.db → Keeps P Q (again w))
      → Keeps P Q (retry_or again r)
  Keeps-retry_or Q again (ok a, w) h k = h
  Keeps-retry_or Q again (err transient_error, w) h k = k w h
  Keeps-retry_or Q again (err fatal_error, w) h k = h
  Keeps-retry_or Q again (err out_of_pages, w) h k = h

  Keeps-attempt :
      {A : Type 0} (m : M A) (w : World)
      → P w.db
      → ((v : World) → P v.db → Keeps P Any (m v))
      → Keeps P Any (attempt m w)
  unfolding attempt ◌>>◌
  Keeps-attempt m w p h =
      Keeps-concluded w.db _ p
        (Keeps-query (λ db. (tt, db)) (λ _. m) Any w p p (λ v same. h v (subst P (sym same) p)))

  -- A transaction keeps what its callback keeps.
  pub Keeps-with_transaction :
      {A : Type 0} (retries : ℕ) (m : M A) (w : World)
      → P w.db
      → ((v : World) → P v.db → Keeps P Any (m v))
      → Keeps P Any (with_transaction retries m w)
  unfolding with_transaction
  Keeps-with_transaction zero m w p h = Keeps-attempt m w p h
  Keeps-with_transaction (suc n) m w p h =
      Keeps-retry_or Any (with_transaction n m) (attempt m w) (Keeps-attempt m w p h)
        (λ v q. Keeps-with_transaction n m v q h)
