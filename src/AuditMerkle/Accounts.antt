-- ===== src/AuditMerkle/Accounts.antt =====
-- When an epoch that backend/src/services/auditMerkleService.ts anchors is accounted for: what its row
-- may say, and lemmas on its queries and polls.
use dukapay.Base.{
  ℕ, ◌≡◌, refl, sym, ◌∙◌, All-zip, ◌⊎◌, inl, inr, Bool, true, false, Option, none, some, List, [],
  ◌∷◌, ◌==◌, All, All-map, arith, Bool-cases,
}
use dukapay.AuditMerkle.Anchor.{
  AnchorStatus, pending, anchored, failed, Anchor, AnchorTx, TxStatus, success, failure, not_found,
  Chain, tx_of, update_epoch, answer_query, run_update, polled, poll_transaction,
}

abbrev pub Has : {A : Type 0} → A → List A → Type 0
Has a [] = ⊥
Has a (x ∷ xs) = (a ≡ x) ⊎ Has a xs

abbrev IsReported : ℕ → Option TxStatus → List ℕ → Type 0
IsReported h (some success) confirmed = Has h confirmed
IsReported h _ confirmed = Unit {0}

module _ {D : Type 0} where
  -- A transaction for the epoch's start, root and leaf count was sent, and reported as successful.
  abbrev pub IsAnchoredBy : List (AnchorTx D) → List ℕ → AnchorStatus → (ℕ → AnchorTx D) → Type 0
  IsAnchoredBy sent confirmed anchored tx = (h : ℕ) × (Has (tx h) sent × Has h confirmed)
  IsAnchoredBy sent confirmed _ tx = Unit {0}

  -- The stored hash is that of such a transaction.
  abbrev pub IsBacked : List (AnchorTx D) → Option ℕ → (ℕ → AnchorTx D) → Type 0
  IsBacked sent none tx = Unit {0}
  IsBacked sent (some h) tx = Has (tx h) sent

  abbrev pub IsAccounted : List (AnchorTx D) → List ℕ → Anchor D → Type 0
  IsAccounted sent confirmed e =
      IsAnchoredBy sent confirmed e.anchor_status (λ h. tx_of h e)
      × IsBacked sent e.stellar_tx_hash (λ h. tx_of h e)

  -- Only one epoch has the id of the row.
  abbrev pub IsSame : Anchor D → Anchor D → Type 0
  IsSame row e = e.id ≡ row.id → (h : ℕ) → tx_of h e ≡ tx_of h row

  -- The table is true, and so are the rows that a run has read.
  abbrev pub Holds : List (Anchor D) → Chain D → Type 0
  Holds rows w =
      All (IsAccounted w.sent w.confirmed) w.epochs
      × All
          (λ row.
            IsBacked w.sent row.stellar_tx_hash (λ h. tx_of h row) × All (IsSame row) w.epochs)
          rows

  IsAccounted-sent :
      (t : AnchorTx D) (sent : List (AnchorTx D)) (confirmed : List ℕ) (e : Anchor D)
      → IsAccounted sent confirmed e
      → IsAccounted (t ∷ sent) confirmed e
  IsAccounted-sent t sent confirmed e (a, b) = (more e.anchor_status a, backed e.stellar_tx_hash b)
    where
      more :
          (s : AnchorStatus)
          → IsAnchoredBy sent confirmed s (λ i. tx_of i e)
          → IsAnchoredBy (t ∷ sent) confirmed s (λ i. tx_of i e)
      more pending a = tt
      more anchored (h, (k, c)) = (h, (inr k, c))
      more failed a = tt

      backed :
          (o : Option ℕ) → IsBacked sent o (λ i. tx_of i e) → IsBacked (t ∷ sent) o (λ i. tx_of i e)
      backed none b = tt
      backed (some h) b = inr b

  IsAccounted-confirmed :
      (h : ℕ) (sent : List (AnchorTx D)) (confirmed : List ℕ) (e : Anchor D)
      → IsAccounted sent confirmed e
      → IsAccounted sent (h ∷ confirmed) e
  IsAccounted-confirmed h sent confirmed e (a, b) = (more e.anchor_status a, b)
    where
      more :
          (s : AnchorStatus)
          → IsAnchoredBy sent confirmed s (λ i. tx_of i e)
          → IsAnchoredBy sent (h ∷ confirmed) s (λ i. tx_of i e)
      more pending a = tt
      more anchored (k, (x, c)) = (k, (x, inr c))
      more failed a = tt

  IsBacked-sent :
      (t : AnchorTx D) (sent : List (AnchorTx D)) (o : Option ℕ) (tx : ℕ → AnchorTx D)
      → IsBacked sent o tx
      → IsBacked (t ∷ sent) o tx
  IsBacked-sent t sent none tx b = tt
  IsBacked-sent t sent (some h) tx b = inr b

  pub Holds-sent :
      (t : AnchorTx D) (rows : List (Anchor D)) (w : Chain D)
      → Holds rows w
      → Holds rows (record w { sent = t ∷ w.sent })
  Holds-sent t rows w (a, b) = (
    All-map _ _ w.epochs (IsAccounted-sent t w.sent w.confirmed) a,
    All-map _ _ rows
        (λ row (k, s). (IsBacked-sent t w.sent row.stellar_tx_hash (λ h. tx_of h row) k, s)) b,
  )

  module _ (row : Anchor D) (f : Anchor D → Anchor D)
      (kept : (e : Anchor D) → ((f e).id ≡ e.id) × ((h : ℕ) → tx_of h (f e) ≡ tx_of h e)) where
    All-update_epoch :
        (P : Anchor D → Type 0) (es : List (Anchor D))
        → ((e : Anchor D) → e.id ≡ row.id → P e → P (f e))
        → All P es
        → All P (update_epoch row.id f es)
    unfolding update_epoch
    All-update_epoch P [] h a = tt
    All-update_epoch P (e ∷ es) h (p, a) = elim (Bool-cases (e.id == row.id)) [
      | inl k ↦ rw k (h e (ground arith) p, All-update_epoch P es h a)
      | inr k ↦ rw k (p, All-update_epoch P es h a)
    ]

    pub Holds-run_update :
        (rows : List (Anchor D)) (w : Chain D)
        → Holds (row ∷ rows) w
        → ((e : Anchor D)
            → ((h : ℕ) → tx_of h e ≡ tx_of h row)
            → IsAccounted w.sent w.confirmed e
            → IsAccounted w.sent w.confirmed (f e))
        → Holds (row ∷ rows) (run_update (update_epoch row.id f) w).1
    unfolding run_update
    Holds-run_update rows w (a, ((k, s), b)) h = go w.failing
      where
        same_rows :
            (other : Anchor D)
            → All (IsSame other) w.epochs
            → All (IsSame other) (update_epoch row.id f w.epochs)
        same_rows other c =
            All-update_epoch (IsSame other) w.epochs
              (λ e _ q. λ i t. (kept e).1 t ∙ q (sym (kept e).0 ∙ i) t) c

        updated : All (IsAccounted w.sent w.confirmed) (update_epoch row.id f w.epochs)
        updated =
            All-map _ _ _ (λ e p. p.0)
              (All-update_epoch (λ e. IsAccounted w.sent w.confirmed e × IsSame row e) w.epochs
                (λ e i (p, q). (h e (q i) p, λ j t. (kept e).1 t ∙ q (sym (kept e).0 ∙ j) t))
                (All-zip _ _ w.epochs a s))

        written : Holds (row ∷ rows) (record w { epochs = update_epoch row.id f w.epochs })
        written = (
          updated,
          ((k, same_rows row s), All-map _ _ rows (λ other (x, c). (x, same_rows other c)) b),
        )

        go : (bs : List Bool) → Holds (row ∷ rows) (answer_query bs (update_epoch row.id f) w).1
        go [] = written
        go (true ∷ bs) = (a, ((k, s), b))
        go (false ∷ bs) = written

  pub sent-run_update :
      (f : List (Anchor D) → List (Anchor D)) (w : Chain D) → (run_update f w).1.sent ≡ w.sent
  unfolding run_update
  sent-run_update f w = go w.failing
    where
      go : (bs : List Bool) → (answer_query bs f w).1.sent ≡ w.sent
      go [] = refl
      go (true ∷ bs) = refl
      go (false ∷ bs) = refl

  -- What a poll leaves.
  abbrev pub IsPolled : List (Anchor D) → ℕ → Chain D → Option TxStatus × Chain D → Type 0
  IsPolled rows h w (s, v) = Holds rows v × ((v.sent ≡ w.sent) × IsReported h s v.confirmed)

  pub poll_transaction-IsPolled :
      (rows : List (Anchor D)) (h : ℕ) (w : Chain D)
      → Holds rows w
      → IsPolled rows h w (poll_transaction h w)
  unfolding poll_transaction
  poll_transaction-IsPolled rows h w (a, b) = go w.polls
    where
      go : (ps : List (Option TxStatus)) → IsPolled rows h w (polled h ps w)
      go [] = ((a, b), (refl, tt))
      go (some success ∷ ps) = (
        (All-map _ _ w.epochs (IsAccounted-confirmed h w.sent w.confirmed) a, b),
        (refl, inl refl),
      )
      go (some failure ∷ ps) = ((a, b), (refl, tt))
      go (some not_found ∷ ps) = ((a, b), (refl, tt))
      go (none ∷ ps) = ((a, b), (refl, tt))
