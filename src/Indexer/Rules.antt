-- ===== src/Indexer/Rules.antt =====
-- Rules for runs of the indexer that return.
use mathlib.Core.Path.{subst}
use dukapay.Base.{ℕ, zero, suc, ◌≡◌, refl, sym, List, [], ◌∷◌, arith}
use dukapay.Indexer.{
  World, Db, M, Result, ok, err, Trip, transient_error, fatal_error, out_of_pages, fine, transient,
  fatal, ◌>>◌, query, query_with, run_query, execute, attempt, concluded, commit, lost_transient,
  lost_fatal, with_transaction, retry_or, bind_result,
}

-- A condition on the value and the world of a run that returns.
abbrev pub OnOk : {A : Type 0} → (A → World → Type 0) → Result A × World → Type 0
OnOk P (ok a, w) = P a w
OnOk P (err e, w) = Unit {0}

pub OnOk-bind_result :
    {A B : Type 0} (P : A → World → Type 0) (Q : B → World → Type 0) (r : Result A × World)
    (f : A → M B)
    → OnOk P r
    → ((a : A) (w : World) → P a w → OnOk Q (f a w))
    → OnOk Q (bind_result r f)
OnOk-bind_result P Q (ok a, w) f h k = k a w h
OnOk-bind_result P Q (err e, w) f h k = tt

pub OnOk-trivial : {A : Type 0} (r : Result A × World) → OnOk (λ a w. Unit {0}) r
OnOk-trivial (ok a, w) = tt
OnOk-trivial (err e, w) = tt

pub ok_injective : {A : Type 0} (a b : A) → ok a ≡ ok b → a ≡ b
ok_injective a b e = cc

pub OnOk-elim :
    {A : Type 0} (P : A → World → Type 0) (r : Result A × World) (a : A)
    → r.0 ≡ ok a
    → OnOk P r
    → P a r.1
OnOk-elim P (ok b, w) a e h = subst (λ x. P x w) (ok_injective b a e) h
OnOk-elim P (err f, w) a e h = absurd (ground arith)

pub OnOk-weaken :
    {A : Type 0} (P Q : A → World → Type 0) (r : Result A × World)
    → ((a : A) (w : World) → P a w → Q a w)
    → OnOk P r
    → OnOk Q r
OnOk-weaken P Q (ok a, w) f h = f a w h
OnOk-weaken P Q (err e, w) f h = tt

module _ {A B : Type 0} (f : Db → A × Db) (k : A → M B) (Q : B → World → Type 0) where
  -- What follows a query has its condition when it has it in every world with the query's tables.
  OnOk-run_query :
      (t : Trip) (w : World)
      → ((v : World) → v.db ≡ (f w.db).1 → OnOk Q (k (f w.db).0 v))
      → OnOk Q (bind_result (run_query t f w) k)
  OnOk-run_query fine w h = h _ refl
  OnOk-run_query transient w h = tt
  OnOk-run_query fatal w h = tt
  OnOk-run_query lost_transient w h = tt
  OnOk-run_query lost_fatal w h = tt

  OnOk-query_with :
      (ts : List Trip) (w : World)
      → ((v : World) → v.db ≡ (f w.db).1 → OnOk Q (k (f w.db).0 v))
      → OnOk Q (bind_result (query_with ts f w) k)
  OnOk-query_with [] w h = h _ refl
  OnOk-query_with (t ∷ ts) w h = OnOk-run_query t (record w { trips = ts }) h

  pub OnOk-query :
      (w : World)
      → ((v : World) → v.db ≡ (f w.db).1 → OnOk Q (k (f w.db).0 v))
      → OnOk Q (bind_result (query f w) k)
  unfolding query
  OnOk-query w h = OnOk-query_with w.trips w h

module _ (f : Db → Db) where
  OnOk-run_execute :
      (t : Trip) (w : World) → OnOk (λ a v. v.db ≡ f w.db) (run_query t (λ db. (tt, f db)) w)
  OnOk-run_execute fine w = refl
  OnOk-run_execute transient w = tt
  OnOk-run_execute fatal w = tt
  OnOk-run_execute lost_transient w = tt
  OnOk-run_execute lost_fatal w = tt

  OnOk-execute_with :
      (ts : List Trip) (w : World)
      → OnOk (λ a v. v.db ≡ f w.db) (query_with ts (λ db. (tt, f db)) w)
  OnOk-execute_with [] w = refl
  OnOk-execute_with (t ∷ ts) w = OnOk-run_execute t (record w { trips = ts })

  pub OnOk-execute : (w : World) → OnOk (λ a v. v.db ≡ f w.db) (execute f w)
  unfolding query
  OnOk-execute w = OnOk-execute_with w.trips w

-- A condition on the tables that a statement brings about.
pub OnOk-execute_to :
    (P : Db → Type 0) (f : Db → Db) (w : World) → P (f w.db) → OnOk (λ a v. P v.db) (execute f w)
OnOk-execute_to P f w h =
    OnOk-weaken (λ a v. v.db ≡ f w.db) (λ a v. P v.db) (execute f w)
      (λ a v same. subst P (sym same) h) (OnOk-execute f w)

module _ {A : Type 0} where
  OnOk-concluded :
      (P : Db → Type 0) (db : Db) (r : Result A × World)
      → OnOk (λ a v. P v.db) r
      → OnOk (λ a v. P v.db) (concluded db r)
  OnOk-concluded P db (err e, w) h = tt
  OnOk-concluded P db (ok a, w) h = go w.trips
    where
      go : (ts : List Trip) → OnOk (λ a v. P v.db) (commit db a ts w)
      go [] = h
      go (fine ∷ ts) = h
      go (transient ∷ ts) = tt
      go (fatal ∷ ts) = tt
      go (lost_transient ∷ ts) = tt
      go (lost_fatal ∷ ts) = tt

  OnOk-retry_or :
      (P : A → World → Type 0) (again : M A) (r : Result A × World)
      → OnOk P r
      → ((w : World) → OnOk P (again w))
      → OnOk P (retry_or again r)
  OnOk-retry_or P again (ok a, w) h k = h
  OnOk-retry_or P again (err transient_error, w) h k = k w
  OnOk-retry_or P again (err fatal_error, w) h k = tt
  OnOk-retry_or P again (err out_of_pages, w) h k = tt

  -- A condition on the tables that the callback leaves when it returns.
  OnOk-attempt :
      (P : Db → Type 0) (m : M A)
      → ((w : World) → OnOk (λ a v. P v.db) (m w))
      → (w : World) → OnOk (λ a v. P v.db) (attempt m w)
  unfolding attempt ◌>>◌
  OnOk-attempt P m h w =
      OnOk-concluded P w.db _
        (OnOk-query (λ db. (tt, db)) (λ _. m) (λ a v. P v.db) w (λ v same. h v))

  pub OnOk-with_transaction :
      (P : Db → Type 0) (retries : ℕ) (m : M A)
      → ((w : World) → OnOk (λ a v. P v.db) (m w))
      → (w : World) → OnOk (λ a v. P v.db) (with_transaction retries m w)
  unfolding with_transaction
  OnOk-with_transaction P zero m h w = OnOk-attempt P m h w
  OnOk-with_transaction P (suc n) m h w =
      OnOk-retry_or _ (with_transaction n m) _ (OnOk-attempt P m h w)
        (OnOk-with_transaction P n m h)
