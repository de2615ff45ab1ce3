-- ===== src/Indexer/Coverage.antt =====
-- `recordCheckpoint` of eventIndexer.ts skips no ledger silently.
use mathlib.Core.Path.{subst}
use dukapay.Base.{
  ℕ, ◌+◌, ◌-◌, max, ◌≡◌, ◌≤◌, ◌<◌, refl, sym, ap, Option, none, some, Bool-cases, inl, inr, ◌⊎◌,
  List, [], ◌∷◌, ◌++◌, ltb, leb, arith,
}
use dukapay.Indexer.{verified, suspect, Checkpoint, Db, World, execute, bind_result, ◌>>=◌, ◌>>◌}
use dukapay.Indexer.Keeps.{Keeps, Any, Keeps-db, Keeps-query, Keeps-execute}
use dukapay.Indexer.Checkpoints.{latest_range_end, insert_gap, add_checkpoint, record_checkpoint}

-- The ledger is in a range of the table, whether verified or suspect.
abbrev pub IsCovered : ℕ → List Checkpoint → Type 0
IsCovered ledger [] = ⊥
IsCovered ledger (c ∷ cs) =
    ((c.range_start ≤ ledger) × (ledger ≤ c.range_end)) ⊎ IsCovered ledger cs

-- A range of the table ends at the ledger or later.
abbrev pub IsReached : ℕ → List Checkpoint → Type 0
IsReached ledger [] = ⊥
IsReached ledger (c ∷ cs) = (ledger ≤ c.range_end) ⊎ IsReached ledger cs

-- Between `first` and the end of the last range, every ledger is covered.
abbrev pub Covers : ℕ → List Checkpoint → Type 0
Covers first cs = (ledger : ℕ) → first ≤ ledger → IsReached ledger cs → IsCovered ledger cs

IsReached-append :
    (ledger : ℕ) (cs : List Checkpoint) (c : Checkpoint)
    → IsReached ledger (cs ++ c ∷ [])
    → IsReached ledger cs ⊎ (ledger ≤ c.range_end)
IsReached-append ledger [] c (inl h) = inr h
IsReached-append ledger [] c (inr h) = absurd h
IsReached-append ledger (d ∷ ds) c (inl h) = inl (inl h)
IsReached-append ledger (d ∷ ds) c (inr h) = elim (IsReached-append ledger ds c h) [
  | inl k ↦ inl (inr k)
  | inr k ↦ inr k
]

IsReached-last :
    (ledger : ℕ) (cs : List Checkpoint) (c : Checkpoint)
    → ledger ≤ c.range_end
    → IsReached ledger (cs ++ c ∷ [])
IsReached-last ledger [] c h = inl h
IsReached-last ledger (d ∷ ds) c h = inr (IsReached-last ledger ds c h)

IsCovered-before :
    (ledger : ℕ) (cs : List Checkpoint) (c : Checkpoint)
    → IsCovered ledger cs
    → IsCovered ledger (cs ++ c ∷ [])
IsCovered-before ledger [] c h = absurd h
IsCovered-before ledger (d ∷ ds) c (inl h) = inl h
IsCovered-before ledger (d ∷ ds) c (inr h) = inr (IsCovered-before ledger ds c h)

IsCovered-last :
    (ledger : ℕ) (cs : List Checkpoint) (c : Checkpoint)
    → c.range_start ≤ ledger
    → ledger ≤ c.range_end
    → IsCovered ledger (cs ++ c ∷ [])
IsCovered-last ledger [] c lo hi = inl (lo, hi)
IsCovered-last ledger (d ∷ ds) c lo hi = inr (IsCovered-last ledger ds c lo hi)

-- A range that starts where the others have reached, at the latest.
Covers-append :
    (first : ℕ) (cs : List Checkpoint) (c : Checkpoint)
    → Covers first cs
    → ((ledger : ℕ) → first ≤ ledger → ledger < c.range_start → IsReached ledger cs)
    → Covers first (cs ++ c ∷ [])
Covers-append first cs c h near ledger lo reached = elim (IsReached-append ledger cs c reached) [
  | inl before ↦ IsCovered-before ledger cs c (h ledger lo before)
  | inr hi ↦ elim (Bool-cases (ltb ledger c.range_start)) [
    | inl low ↦ IsCovered-before ledger cs c (h ledger lo (near ledger lo (ground arith)))
    | inr high ↦ IsCovered-last ledger cs c (ground arith) hi
  ]
]

further_end :
    (cs : List Checkpoint) (rest : Option ℕ) (top e ledger : ℕ)
    → (elim rest [ none ↦ some top | some k ↦ some (max top k) ]) ≡ some e
    → ledger ≤ e
    → top < ledger
    → ((k : ℕ) → rest ≡ some k → ledger ≤ k → IsReached ledger cs)
    → IsReached ledger cs
further_end cs none top e ledger found h far next = absurd (ground arith)
further_end cs (some k) top e ledger found h far next = next k refl (ground arith)

latest_range_end-IsReached :
    (cs : List Checkpoint) (e ledger : ℕ)
    → latest_range_end cs ≡ some e
    → ledger ≤ e
    → IsReached ledger cs
unfolding latest_range_end
latest_range_end-IsReached [] e ledger found h = absurd (ground arith)
latest_range_end-IsReached (c ∷ cs) e ledger found h = elim (Bool-cases (leb ledger c.range_end)) [
  | inl near ↦ inl (ground arith)
  | inr far ↦ inr (
      further_end cs (latest_range_end cs) c.range_end e ledger found h (ground arith)
        (λ k found_k low. latest_range_end-IsReached cs k ledger found_k low))
]

module _ (first range_start range_end range_digest : ℕ) where
  abbrev CoveredDb : Db → Type 0
  CoveredDb db = Covers first db.checkpoints

  abbrev fresh : Checkpoint
  fresh = record {
    range_start = range_start;
    range_end = range_end;
    status = verified;
    range_digest = some range_digest;
  }

  -- The last statement, where the ranges reach to `range_start`.
  insert_range :
      (v : World)
      → Covers first v.db.checkpoints
      → ((ledger : ℕ) → first ≤ ledger → ledger < range_start → IsReached ledger v.db.checkpoints)
      → Keeps CoveredDb Any (execute (add_checkpoint fresh) v)
  insert_range v h near =
      Keeps-execute CoveredDb (add_checkpoint fresh) v h
        (Covers-append first v.db.checkpoints fresh h near)

  after_gap :
      (previous : Option ℕ) (v : World)
      → Covers first v.db.checkpoints
      → latest_range_end v.db.checkpoints ≡ previous
      → (previous ≡ none → range_start ≤ first)
      → Keeps CoveredDb Any
          (bind_result (insert_gap previous range_start v) (λ _. execute (add_checkpoint fresh)))
  after_gap none v h latest start =
      insert_range v h (λ ledger lo low. absurd (omega (arith, start refl)))
  after_gap (some p) v h latest start = elim (Bool-cases (ltb (p + 1) range_start)) [
    | inl far ↦
        let gap : Checkpoint = record {
          range_start = p + 1;
          range_end = range_start - 1;
          status = suspect;
          range_digest = none;
        } in
        let with_gap_range : Covers first (v.db.checkpoints ++ gap ∷ []) =
          Covers-append first v.db.checkpoints gap h (λ ledger lo low.
            latest_range_end-IsReached v.db.checkpoints p ledger latest (omega arith)) in
        rw far (
          Keeps-query CoveredDb (λ db. (tt, add_checkpoint gap db))
            (λ _. execute (add_checkpoint fresh)) Any v h with_gap_range
            (λ u same.
              let added : u.db.checkpoints ≡ v.db.checkpoints ++ gap ∷ [] =
                ap (λ db. db.checkpoints) same in
              insert_range u (subst (Covers first) (sym added) with_gap_range) (λ ledger lo low.
                subst (IsReached ledger) (sym added)
                  (IsReached-last ledger v.db.checkpoints gap (ground arith)))))
    | inr near ↦ rw near (
        insert_range v h (λ ledger lo low.
          latest_range_end-IsReached v.db.checkpoints p ledger latest (ground arith)))
  ]

  -- `recordCheckpoint` skips no ledger silently: when every ledger from `first` to the end of the last
  -- recorded range is in some range, verified or suspect, this still holds after a call for any range,
  -- also where one of its statements fails, if a range that is the first of all starts at `first` or
  -- before.
  pub record_checkpoint-Covers :
      (w : World)
      → Covers first w.db.checkpoints
      → (latest_range_end w.db.checkpoints ≡ none → range_start ≤ first)
      → Covers first (record_checkpoint range_start range_end range_digest w).1.db.checkpoints
  unfolding record_checkpoint ◌>>=◌ ◌>>◌
  record_checkpoint-Covers w h start =
      Keeps-db CoveredDb Any (record_checkpoint range_start range_end range_digest w) (
        Keeps-query CoveredDb (λ db. (latest_range_end db.checkpoints, db)) _ Any w h h
          (λ v same.
            let cps : v.db.checkpoints ≡ w.db.checkpoints = ap (λ db. db.checkpoints) same in
            after_gap (latest_range_end w.db.checkpoints) v (subst (Covers first) (sym cps) h)
              (ap latest_range_end cps) start))
