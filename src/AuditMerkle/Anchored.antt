-- ===== src/AuditMerkle/Anchored.antt =====
-- What stands behind an epoch that backend/src/services/auditMerkleService.ts marks as anchored.
use dukapay.Base.{
  ℕ, zero, suc, ◌≡◌, refl, All-zip, inl, inr, Bool, true, false, Option, none, some, List, [], ◌∷◌,
  take, ltb, All, All-map, Bool-cases, if◌then◌else◌,
}
use dukapay.AuditMerkle.Anchor.{
  anchored, failed, Anchor, TxStatus, success, failure, not_found, Submission, unsent, unanswered,
  answered, Chain, tx_of, update_epoch, answer_query, run_update, and_then, poll_transaction,
  submitted, submit, after_last_poll, after_submit, send_anchor, after_first_poll, anchor_known,
  anchor_epoch, or_mark_failed, anchor_epochs, is_anchored, unanchored, insert_anchor, sort_anchors,
  anchor_selected, anchor_all,
}
use dukapay.AuditMerkle.Accounts.{
  Has, IsBacked, IsAccounted, IsSame, Holds, Holds-sent, Holds-run_update, sent-run_update,
  IsPolled, poll_transaction-IsPolled,
}

module _ {D : Type 0} where
  module _ (row : Anchor D) (rows : List (Anchor D)) where
    abbrev HoldsAll : Chain D → Type 0
    HoldsAll w = Holds (row ∷ rows) w

    store_hash :
        (h : ℕ) (w : Chain D)
        → HoldsAll w
        → Has (tx_of h row) w.sent
        → HoldsAll
            (run_update (update_epoch row.id (λ a. record a { stellar_tx_hash = some h })) w).1
    store_hash h w g k =
        Holds-run_update row (λ a. record a { stellar_tx_hash = some h }) (λ e. (refl, λ t. refl))
          rows w g (λ e same (a, b). (a, rw (same h) k))

    after_last_poll-Holds :
        (h : ℕ) (w : Chain D) (r : Option TxStatus × Chain D)
        → Has (tx_of h row) w.sent
        → IsPolled (row ∷ rows) h w r
        → HoldsAll (after_last_poll row h r).1
    after_last_poll-Holds h w (some success, v) k (g, (same_sent, c)) =
        Holds-run_update row (λ a. record a { anchor_status = anchored; stellar_tx_hash = some h })
          (λ e. (refl, λ t. refl)) rows v g
          (λ e same _. ((h, (rw (same h) (rw same_sent k), c)), rw (same h) (rw same_sent k)))
    after_last_poll-Holds h w (some failure, v) k (g, _) = g
    after_last_poll-Holds h w (some not_found, v) k (g, _) = g
    after_last_poll-Holds h w (none, v) k (g, _) = g

    after_submit-Holds :
        (h : ℕ) (w : Chain D)
        → HoldsAll w
        → Has (tx_of h row) w.sent
        → HoldsAll (after_submit row (some h, w)).1
    after_submit-Holds h w g k =
        go (run_update (update_epoch row.id (λ a. record a { stellar_tx_hash = some h })) w)
          (store_hash h w g k) (sent-run_update _ w)
      where
        go :
            (r : Bool × Chain D)
            → HoldsAll r.1
            → r.1.sent ≡ w.sent
            → HoldsAll (and_then r (λ v. after_last_poll row h (poll_transaction h v))).1
        go (true, v) g e =
            after_last_poll-Holds h v (poll_transaction h v) (rw e k)
              (poll_transaction-IsPolled (row ∷ rows) h v g)
        go (false, v) g e = g

    send_anchor-Holds : (w : Chain D) → HoldsAll w → HoldsAll (send_anchor row w).1
    unfolding send_anchor submit
    send_anchor-Holds w g = go w.submissions
      where
        go : (ss : List Submission) → HoldsAll (after_submit row (submitted row ss w)).1
        go [] = g
        go (unsent ∷ ss) = g
        go (unanswered h ∷ ss) = Holds-sent (tx_of h row) (row ∷ rows) w g
        go (answered h ∷ ss) =
            after_submit-Holds h (record w { submissions = ss; sent = tx_of h row ∷ w.sent })
              (Holds-sent (tx_of h row) (row ∷ rows) w g) (inl refl)

    after_first_poll-Holds :
        (h : ℕ) (w : Chain D) (r : Option TxStatus × Chain D)
        → Has (tx_of h row) w.sent
        → IsPolled (row ∷ rows) h w r
        → HoldsAll (after_first_poll row r).1
    after_first_poll-Holds h w (some success, v) k (g, (same_sent, c)) =
        Holds-run_update row (λ a. record a { anchor_status = anchored }) (λ e. (refl, λ t. refl))
          rows v g (λ e same (_, b). ((h, (rw (same h) (rw same_sent k), c)), b))
    after_first_poll-Holds h w (some failure, v) k (g, _) =
        go (run_update (update_epoch row.id (λ a. record a { stellar_tx_hash = none })) v) (
          Holds-run_update row (λ a. record a { stellar_tx_hash = none }) (λ e. (refl, λ t. refl))
            rows v g (λ e same (a, b). (a, tt)))
      where
        go : (r : Bool × Chain D) → HoldsAll r.1 → HoldsAll (and_then r (send_anchor row)).1
        go (true, u) g = send_anchor-Holds u g
        go (false, u) g = g
    after_first_poll-Holds h w (some not_found, v) k (g, _) = g
    after_first_poll-Holds h w (none, v) k (g, _) = g

    anchor_epoch-Holds : (w : Chain D) → HoldsAll w → HoldsAll (anchor_epoch row w).1
    unfolding anchor_epoch
    anchor_epoch-Holds w g = go w.configured (known row.stellar_tx_hash (g.1.0.0))
      where
        go :
            (b : Bool)
            → HoldsAll (anchor_known row row.stellar_tx_hash w).1
            → HoldsAll (if b then anchor_known row row.stellar_tx_hash w else (false, w)).1
        go true h = h
        go false h = g

        known :
            (o : Option ℕ)
            → IsBacked w.sent o (λ h. tx_of h row)
            → HoldsAll (anchor_known row o w).1
        known none b = send_anchor-Holds w g
        known (some h) b =
            after_first_poll-Holds h w (poll_transaction h w) b
              (poll_transaction-IsPolled (row ∷ rows) h w g)

    or_mark_failed-Holds : (r : Bool × Chain D) → HoldsAll r.1 → HoldsAll (or_mark_failed row r).1
    or_mark_failed-Holds (true, w) g = g
    or_mark_failed-Holds (false, w) g =
        Holds-run_update row (λ a. record a { anchor_status = failed }) (λ e. (refl, λ t. refl))
          rows w g (λ e same (a, b). (tt, b))

  anchor_epochs-IsAccounted :
      (rows : List (Anchor D)) (w : Chain D)
      → Holds rows w
      → All
          (IsAccounted (anchor_epochs rows w).1.sent (anchor_epochs rows w).1.confirmed)
          (anchor_epochs rows w).1.epochs
  unfolding anchor_epochs
  anchor_epochs-IsAccounted [] w g = g.0
  anchor_epochs-IsAccounted (row ∷ rows) w g =
      go (or_mark_failed row (anchor_epoch row w))
        (or_mark_failed-Holds row rows (anchor_epoch row w) (anchor_epoch-Holds row rows w g))
        (λ v h. anchor_epochs-IsAccounted rows v h)
    where
      go :
          (r : Bool × Chain D)
          → Holds (row ∷ rows) r.1
          → ((v : Chain D)
              → Holds rows v
              → All
                  (IsAccounted (anchor_epochs rows v).1.sent (anchor_epochs rows v).1.confirmed)
                  (anchor_epochs rows v).1.epochs)
          → let u = (and_then r (anchor_epochs rows)).1 in
            All (IsAccounted u.sent u.confirmed) u.epochs
      go (true, v) h k = k v (h.0, h.1.1)
      go (false, v) h k = h.0

  All-unanchored : (P : Anchor D → Type 0) (es : List (Anchor D)) → All P es → All P (unanchored es)
  unfolding unanchored
  All-unanchored P [] a = tt
  All-unanchored P (e ∷ es) (p, a) = elim (Bool-cases (is_anchored e.anchor_status)) [
    | inl k ↦ rw k (All-unanchored P es a)
    | inr k ↦ rw k (p, All-unanchored P es a)
  ]

  All-insert_anchor :
      (P : Anchor D → Type 0) (e : Anchor D) (es : List (Anchor D))
      → P e
      → All P es
      → All P (insert_anchor e es)
  unfolding insert_anchor
  All-insert_anchor P e [] p a = (p, tt)
  All-insert_anchor P e (b ∷ bs) p (q, a) = elim (Bool-cases (ltb b.epoch_start e.epoch_start)) [
    | inl k ↦ rw k (q, All-insert_anchor P e bs p a)
    | inr k ↦ rw k (p, (q, a))
  ]

  All-sort_anchors :
      (P : Anchor D → Type 0) (es : List (Anchor D)) → All P es → All P (sort_anchors es)
  unfolding sort_anchors
  All-sort_anchors P [] a = tt
  All-sort_anchors P (e ∷ es) (p, a) =
      All-insert_anchor P e (sort_anchors es) p (All-sort_anchors P es a)

  All-take : (P : Anchor D → Type 0) (n : ℕ) (es : List (Anchor D)) → All P es → All P (take n es)
  All-take P zero es a = tt
  All-take P (suc n) [] a = tt
  All-take P (suc n) (e ∷ es) (p, a) = (p, All-take P n es a)

  -- The anchoring of `sealAndAnchor` marks an epoch as anchored only when a transaction that carries its
  -- start, its root and its number of leaves was sent and reported as successful, and stores only the
  -- hash of such a transaction, whatever becomes of the transactions and of the queries, if this was so
  -- before and no two epochs have one id.
  pub anchor_all-IsAccounted :
      (w : Chain D)
      → All (IsAccounted w.sent w.confirmed) w.epochs
      → All (λ row. All (IsSame row) w.epochs) w.epochs
      → All (IsAccounted (anchor_all w).1.sent (anchor_all w).1.confirmed) (anchor_all w).1.epochs
  unfolding anchor_all run_update
  anchor_all-IsAccounted w a same = go w.failing
    where
      picked :
          All
            (λ row.
              IsBacked w.sent row.stellar_tx_hash (λ h. tx_of h row) × All (IsSame row) w.epochs)
            (take 24 (sort_anchors (unanchored w.epochs)))
      picked = All-take _ 24 _ (
          All-sort_anchors _ _ (
            All-unanchored _ w.epochs (
              All-map _ _ w.epochs (λ e (t, s). (t.1, s))
                (All-zip (IsAccounted w.sent w.confirmed) (λ row. All (IsSame row) w.epochs)
                  w.epochs a same))))

      go :
          (bs : List Bool)
          → let u = (anchor_selected (answer_query bs (λ es. es) w)).1 in
            All (IsAccounted u.sent u.confirmed) u.epochs
      go [] = anchor_epochs-IsAccounted _ w (a, picked)
      go (true ∷ bs) = a
      go (false ∷ bs) = anchor_epochs-IsAccounted _ (record w { failing = bs }) (a, picked)
