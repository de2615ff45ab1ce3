-- ===== src/AgentFloat/Ends.antt =====
-- How a method ends: rules for the bind, the query and the caught query.
use dukapay.Base.{◌≡◌, refl, Bool, true, false, Option, none, some, List, [], ◌∷◌}
use dukapay.AgentFloat.Store.{
  Db, World, Error, db_error, Result, ok, err, M, answer, query_with, query, caught, catch,
  bind_result, ◌>>=◌, ◌>>◌, throw_if,
}

-- The call returned a value and tables of which `Post` holds, or threw and `Exc` holds.
abbrev pub Ends :
    {A : Type 0} → (A → Db → Type 0) → (Error → Db → Type 0) → Result A × World → Type 0
Ends Post Exc (ok a, w) = Post a w.db
Ends Post Exc (err e, w) = Exc e w.db

module _ {A : Type 0} (Post : A → Db → Type 0) (Exc : Error → Db → Type 0) where
  -- A query fails and changes nothing, or does what the database answers.
  pub query_rule :
      (f : Db → Option (A × Db)) (w : World)
      → Exc db_error w.db
      → ((a : A) (db : Db) → f w.db ≡ some (a, db) → Post a db)
      → Ends Post Exc (query f w)
  unfolding query
  query_rule f w fail good = go (w.faults) refl
    where
      answers :
          (r : Option (A × Db)) (v : World) → v.db ≡ w.db → f w.db ≡ r → Ends Post Exc (answer r v)
      answers none v e er = rw e fail
      answers (some (a, db)) v e er = good a db er

      go : (fs : List Bool) → w.faults ≡ fs → Ends Post Exc (query_with fs f w)
      go [] e = answers (f w.db) w refl refl
      go (true ∷ fs) e = fail
      go (false ∷ fs) e = answers (f w.db) (record w { faults = fs }) refl refl

  pub bind_rule :
      {B : Type 0} (Mid : B → Db → Type 0) (m : M B) (f : B → M A) (w : World)
      → Ends Mid Exc (m w)
      → ((b : B) (v : World) → Mid b v.db → Ends Post Exc (f b v))
      → Ends Post Exc ((m >>= f) w)
  unfolding ◌>>=◌
  bind_rule {B} Mid m f w h k = go (m w) h
    where
      go : (r : Result B × World) → Ends Mid Exc r → Ends Post Exc (bind_result r f)
      go (ok b, v) h' = k b v h'
      go (err e, v) h' = h'

  -- A caught query always returns.
  pub catch_rule :
      (m : M A) (a : A) (w : World)
      → Ends Post (λ e db. Post a db) (m w)
      → Ends Post Exc (catch m a w)
  unfolding catch
  catch_rule m a w h = go (m w) h
    where
      go : (r : Result A × World) → Ends Post (λ e db. Post a db) r → Ends Post Exc (caught a r)
      go (ok b, v) h' = h'
      go (err e, v) h' = h'

  pub throw_if_rule :
      (c : Bool) (e : Error) (m : M A) (w : World)
      → (c ≡ true → Exc e w.db)
      → (c ≡ false → Ends Post Exc (m w))
      → Ends Post Exc ((throw_if c e >> m) w)
  unfolding throw_if ◌>>◌
  throw_if_rule true e m w bad good = bad refl
  throw_if_rule false e m w bad good = good refl

  pub then_rule :
      (Mid : Unit {0} → Db → Type 0) (m : M (Unit {0})) (k : M A) (w : World)
      → Ends Mid Exc (m w)
      → ((v : World) → Mid tt v.db → Ends Post Exc (k v))
      → Ends Post Exc ((m >> k) w)
  unfolding ◌>>◌
  then_rule Mid m k w h next = go (m w) h
    where
      go : (r : Result (Unit {0}) × World) → Ends Mid Exc r → Ends Post Exc (bind_result r (λ _. k))
      go (ok b, v) h' = next v h'
      go (err e, v) h' = h'
