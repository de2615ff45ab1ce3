-- ===== src/AuditMerkle/Anchor.antt =====
-- The anchoring of epochs on chain: `anchorEpoch` and the second half of `sealAndAnchor` of
-- backend/src/services/auditMerkleService.ts. The transactions and the RPC are the Stellar SDK's.
use dukapay.Base.{
  ◌/◌, ℕ, Bool, true, false, Option, none, some, List, [], ◌∷◌, take, ltb, ◌==◌, if◌then◌else◌,
}

pub data AnchorStatus : Type 0 where
  pending anchored failed : AnchorStatus

-- The columns of `audit_epochs` that anchoring uses; an empty hash is none.
pub record Anchor (D : Type 0) : Type 0 where
  pub id : ℕ
  pub epoch_start : ℕ
  pub root : D
  pub leaf_count : ℕ
  pub stellar_tx_hash : Option ℕ
  pub anchor_status : AnchorStatus

-- The call of the contract in a transaction, with the hash of the transaction.
pub record AnchorTx (D : Type 0) : Type 0 where
  pub hash : ℕ
  pub epoch_seconds : ℕ
  pub root : D
  pub leaf_count : ℕ

pub data TxStatus : Type 0 where
  success failure not_found : TxStatus

-- What becomes of a transaction: not sent, sent without an answer, or answered with its hash.
pub data Submission : Type 0 where
  unsent : Submission
  unanswered answered : ℕ → Submission

-- The table, which coming queries fail, the coming answers of the RPC (none for an error, and after the
-- last one errors), whether contract and key are set, the transactions sent, and the hashes that the RPC
-- reported as successful.
pub record Chain (D : Type 0) : Type 0 where
  pub epochs : List (Anchor D)
  pub failing : List Bool
  pub submissions : List Submission
  pub polls : List (Option TxStatus)
  pub configured : Bool
  pub sent : List (AnchorTx D)
  pub confirmed : List ℕ

abbrev pub is_anchored : AnchorStatus → Bool
is_anchored anchored = true
is_anchored _ = false

module _ {D : Type 0} where
  -- The epoch's start in seconds, its root and its number of leaves.
  abbrev pub tx_of : ℕ → Anchor D → AnchorTx D
  tx_of h e = record {
    hash = h;
    epoch_seconds = e.epoch_start / 1000;
    root = e.root;
    leaf_count = e.leaf_count;
  }

  -- `UPDATE audit_epochs … WHERE id = $n`.
  unfoldable pub update_epoch : ℕ → (Anchor D → Anchor D) → List (Anchor D) → List (Anchor D)
  update_epoch id f [] = []
  update_epoch id f (e ∷ es) = (if e.id == id then f e else e) ∷ update_epoch id f es

  abbrev pub answer_query :
      List Bool → (List (Anchor D) → List (Anchor D)) → Chain D → Bool × Chain D
  answer_query [] f w = (true, record w { epochs = f w.epochs })
  answer_query (true ∷ rest) f w = (false, record w { failing = rest })
  answer_query (false ∷ rest) f w = (true, record w { failing = rest; epochs = f w.epochs })

  -- One statement: whether it is answered.
  unfoldable pub run_update : (List (Anchor D) → List (Anchor D)) → Chain D → Bool × Chain D
  run_update f w = answer_query w.failing f w

  abbrev pub and_then : Bool × Chain D → (Chain D → Bool × Chain D) → Bool × Chain D
  and_then (true, w) k = k w
  and_then (false, w) k = (false, w)

  abbrev pub polled : ℕ → List (Option TxStatus) → Chain D → Option TxStatus × Chain D
  polled h [] w = (none, w)
  polled h (some success ∷ rest) w =
      (some success, record w { polls = rest; confirmed = h ∷ w.confirmed })
  polled h (s ∷ rest) w = (s, record w { polls = rest })

  -- `server.pollTransaction`.
  unfoldable pub poll_transaction : ℕ → Chain D → Option TxStatus × Chain D
  poll_transaction h w = polled h w.polls w

  abbrev pub submitted : Anchor D → List Submission → Chain D → Option ℕ × Chain D
  submitted e [] w = (none, w)
  submitted e (unsent ∷ rest) w = (none, record w { submissions = rest })
  submitted e (unanswered h ∷ rest) w =
      (none, record w { submissions = rest; sent = tx_of h e ∷ w.sent })
  submitted e (answered h ∷ rest) w =
      (some h, record w { submissions = rest; sent = tx_of h e ∷ w.sent })

  -- From `getAccount` to `sendTransaction`: the hash, none when something throws.
  unfoldable pub submit : Anchor D → Chain D → Option ℕ × Chain D
  submit e w = submitted e w.submissions w

  abbrev pub after_last_poll : Anchor D → ℕ → Option TxStatus × Chain D → Bool × Chain D
  after_last_poll e h (some success, w) =
      run_update
        (update_epoch e.id (λ a. record a { anchor_status = anchored; stellar_tx_hash = some h })) w
  after_last_poll e h (s, w) = (false, w)

  abbrev pub after_submit : Anchor D → Option ℕ × Chain D → Bool × Chain D
  after_submit e (none, w) = (false, w)
  after_submit e (some h, w) =
      and_then (run_update (update_epoch e.id (λ a. record a { stellar_tx_hash = some h })) w)
        (λ v. after_last_poll e h (poll_transaction h v))

  unfoldable pub send_anchor : Anchor D → Chain D → Bool × Chain D
  send_anchor e w = after_submit e (submit e w)

  -- What the status of the transaction of an earlier run decides.
  abbrev pub after_first_poll : Anchor D → Option TxStatus × Chain D → Bool × Chain D
  after_first_poll e (some success, w) =
      run_update (update_epoch e.id (λ a. record a { anchor_status = anchored })) w
  after_first_poll e (some failure, w) =
      and_then (run_update (update_epoch e.id (λ a. record a { stellar_tx_hash = none })) w)
        (send_anchor e)
  after_first_poll e (s, w) = (false, w)

  abbrev pub anchor_known : Anchor D → Option ℕ → Chain D → Bool × Chain D
  anchor_known e none w = send_anchor e w
  anchor_known e (some h) w = after_first_poll e (poll_transaction h w)

  -- `anchorEpoch`: whether it returned.
  unfoldable pub anchor_epoch : Anchor D → Chain D → Bool × Chain D
  anchor_epoch e w = if w.configured then anchor_known e e.stellar_tx_hash w else (false, w)

  -- The catch block of the loop, whose own query may throw.
  abbrev pub or_mark_failed : Anchor D → Bool × Chain D → Bool × Chain D
  or_mark_failed e (true, w) = (true, w)
  or_mark_failed e (false, w) =
      run_update (update_epoch e.id (λ a. record a { anchor_status = failed })) w

  -- The loop over the pending epochs.
  unfoldable pub anchor_epochs : List (Anchor D) → Chain D → Bool × Chain D
  anchor_epochs [] w = (true, w)
  anchor_epochs (e ∷ es) w = and_then (or_mark_failed e (anchor_epoch e w)) (anchor_epochs es)

  unfoldable pub unanchored : List (Anchor D) → List (Anchor D)
  unanchored [] = []
  unanchored (e ∷ es) =
      let rest = unanchored es in if is_anchored e.anchor_status then rest else e ∷ rest

  -- `ORDER BY epoch_start ASC`.
  unfoldable pub insert_anchor : Anchor D → List (Anchor D) → List (Anchor D)
  insert_anchor e [] = e ∷ []
  insert_anchor e (a ∷ as') =
      let rest = insert_anchor e as' in
      if ltb a.epoch_start e.epoch_start then a ∷ rest else e ∷ a ∷ as'

  unfoldable pub sort_anchors : List (Anchor D) → List (Anchor D)
  sort_anchors [] = []
  sort_anchors (e ∷ es) = insert_anchor e (sort_anchors es)

  abbrev pub anchor_selected : Bool × Chain D → Bool × Chain D
  anchor_selected (true, w) = anchor_epochs (take 24 (sort_anchors (unanchored w.epochs))) w
  anchor_selected (false, w) = (false, w)

  -- The second half of `sealAndAnchor`, where AUDIT_ANCHOR_ENABLED is "true".
  unfoldable pub anchor_all : Chain D → Bool × Chain D
  anchor_all w = anchor_selected (run_update (λ es. es) w)
