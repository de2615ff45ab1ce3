-- ===== src/AuditMerkle/Epochs.antt =====
-- The epochs of the audit trail: `createEpoch`, the sealing of `sealAndAnchor` and `getProof` of
-- backend/src/services/auditMerkleService.ts, over the tables `audit_logs`, `audit_epochs` and
-- `audit_merkle_leaves`. Times are milliseconds, and texts of the entries are numbers.
use dukapay.Base.{
  ℕ, ◌+◌, ◌*◌, ◌/◌, Bool, true, false, not, ◌&&◌, Option, none, some, List, [], ◌∷◌, ◌++◌, map,
  length, take, any, leb, ltb, ◌==◌, if◌then◌else◌,
}
use dukapay.AuditMerkle.{Sha256, MerkleStep, Result, ok, err, merkle_root, merkle_proof}

pub record AuditLog : Type 0 where
  pub id : ℕ
  pub actor : Option ℕ
  pub action : Option ℕ
  pub target : Option ℕ
  pub payload : Option ℕ
  pub ip_address : Option ℕ
  pub status : Option ℕ
  pub created_at : ℕ

pub record Leaf (D : Type 0) : Type 0 where
  pub epoch_id : ℕ
  pub log_id : ℕ
  pub leaf_index : ℕ
  pub leaf_hash : D

pub record Epoch (D : Type 0) : Type 0 where
  pub id : ℕ
  pub epoch_start : ℕ
  pub epoch_end : ℕ
  pub root : D
  pub leaf_count : ℕ

pub record AuditDb (D : Type 0) : Type 0 where
  pub logs : List AuditLog
  pub next_log : ℕ
  pub epochs : List (Epoch D)
  pub next_epoch : ℕ
  pub leaves : List (Leaf D)

-- What `getProof` returns of its rows.
pub record AuditProof (D : Type 0) : Type 0 where
  pub leaf_hash : D
  pub leaf_index : ℕ
  pub root : D
  pub proof : List (MerkleStep D)
  pub entry : AuditLog

abbrev pub hour : ℕ
hour = 3_600_000

-- `date_trunc('hour', …)` and `setUTCMinutes(0, 0, 0)`.
unfoldable pub trunc_hour : ℕ → ℕ
trunc_hour t = t / hour * hour

unfoldable pub in_epoch : ℕ → ℕ → List AuditLog → List AuditLog
in_epoch start end [] = []
in_epoch start end (l ∷ ls) =
    let rest = in_epoch start end ls in
    if leb start l.created_at && ltb l.created_at end then l ∷ rest else rest

-- `ORDER BY id ASC`.
unfoldable pub insert_log : AuditLog → List AuditLog → List AuditLog
insert_log l [] = l ∷ []
insert_log l (m ∷ ms) = let rest = insert_log l ms in if ltb m.id l.id then m ∷ rest else l ∷ m ∷ ms

unfoldable pub sort_logs : List AuditLog → List AuditLog
sort_logs [] = []
sort_logs (l ∷ ls) = insert_log l (sort_logs ls)

abbrev pub bind_option : {A B : Type 0} → Option A → (A → Option B) → Option B
bind_option none f = none
bind_option (some a) f = f a

unfoldable pub find_log : ℕ → List AuditLog → Option AuditLog
find_log id [] = none
find_log id (l ∷ ls) = if l.id == id then some l else find_log id ls

-- `SELECT DISTINCT … ORDER BY`: into ascending hours, each once.
unfoldable pub insert_hour : ℕ → List ℕ → List ℕ
insert_hour h [] = h ∷ []
insert_hour h (k ∷ ks) =
    let rest = insert_hour h ks in
    if h == k then k ∷ ks else if ltb k h then k ∷ rest else h ∷ k ∷ ks

-- What `getProof` does: return null, throw, or return a proof.
pub data Answer (D : Type 0) : Type 0 where
  no_proof thrown : Answer D
  proved : AuditProof D → Answer D

-- An entry is written, or a run seals; nothing else changes these tables.
pub data Change : Type 0 where
  writes : AuditLog → Change
  seals : ℕ → List Bool → Change

module _ {D : Type 0} where
  unfoldable pub has_leaf : ℕ → List (Leaf D) → Bool
  has_leaf log_id = any (λ l. l.log_id == log_id)

  unfoldable pub has_epoch : ℕ → List (Epoch D) → Bool
  has_epoch start = any (λ e. e.epoch_start == start)

  unfoldable pub leaves_of : ℕ → List (Leaf D) → List (Leaf D)
  leaves_of id [] = []
  leaves_of id (l ∷ ls) = let rest = leaves_of id ls in if l.epoch_id == id then l ∷ rest else rest

  -- `ORDER BY leaf_index ASC`.
  unfoldable pub insert_leaf : Leaf D → List (Leaf D) → List (Leaf D)
  insert_leaf l [] = l ∷ []
  insert_leaf l (m ∷ ms) =
      let rest = insert_leaf l ms in if ltb m.leaf_index l.leaf_index then m ∷ rest else l ∷ m ∷ ms

  unfoldable pub sort_leaves : List (Leaf D) → List (Leaf D)
  sort_leaves [] = []
  sort_leaves (l ∷ ls) = insert_leaf l (sort_leaves ls)

  unfoldable pub find_leaf : ℕ → List (Leaf D) → Option (Leaf D)
  find_leaf log_id [] = none
  find_leaf log_id (l ∷ ls) = if l.log_id == log_id then some l else find_leaf log_id ls

  unfoldable pub find_epoch : ℕ → List (Epoch D) → Option (Epoch D)
  find_epoch id [] = none
  find_epoch id (e ∷ es) = if e.id == id then some e else find_epoch id es

  -- The hours before `closed` that have an entry without a leaf.
  unfoldable pub unsealed_hours : ℕ → List (Leaf D) → List AuditLog → List ℕ
  unsealed_hours closed leaves [] = []
  unsealed_hours closed leaves (l ∷ ls) =
      let rest = unsealed_hours closed leaves ls in
      if ltb l.created_at closed && not (has_leaf l.id leaves)
      then insert_hour (trunc_hour l.created_at) rest
      else rest

  -- The INSERTs of the leaves, none when one of them violates the uniqueness of `log_id`.
  unfoldable pub insert_leaves :
      (AuditLog → D) → ℕ → ℕ → List AuditLog → List (Leaf D) → Option (List (Leaf D))
  insert_leaves hash epoch_id index [] leaves = some leaves
  insert_leaves hash epoch_id index (l ∷ ls) leaves =
      let leaf : Leaf D = record {
        epoch_id = epoch_id;
        log_id = l.id;
        leaf_index = index;
        leaf_hash = hash l;
      } in
      let rest = insert_leaves hash epoch_id (index + 1) ls (leaves ++ (leaf ∷ [])) in
      if has_leaf l.id leaves then none else rest

-- `stringify` is `JSON.stringify` on the object of `canonicalAuditEntry`, whose keys are those of a row.
module _ (sha : Sha256) (stringify : AuditLog → List ℕ) where
  open sha use {Digest, of_text}

  unfoldable pub hash_audit_entry : AuditLog → Digest
  hash_audit_entry row = of_text (stringify row)

  abbrev pub with_leaves : AuditDb Digest → Epoch Digest → List (Leaf Digest) → AuditDb Digest
  with_leaves db e leaves = record db {
    epochs = db.epochs ++ (e ∷ []);
    next_epoch = db.next_epoch + 1;
    leaves = leaves;
  }

  -- The INSERTs, for the root of the tree.
  abbrev pub insert_epoch :
      ℕ → ℕ → List AuditLog → AuditDb Digest → Result Digest → Option (AuditDb Digest)
  insert_epoch start end logs db (err e) = none
  insert_epoch start end logs db (ok root) =
      if has_epoch start db.epochs
      then some db
      else bind_option (insert_leaves hash_audit_entry db.next_epoch 0 logs db.leaves) (λ leaves.
        some (
          with_leaves db
            (record {
              id = db.next_epoch;
              epoch_start = start;
              epoch_end = end;
              root = root;
              leaf_count = length logs;
            })
            leaves))

  abbrev pub create_for : ℕ → ℕ → List AuditLog → AuditDb Digest → Option (AuditDb Digest)
  create_for start end [] db = some db
  create_for start end (l ∷ ls) db =
      insert_epoch start end (l ∷ ls) db (merkle_root sha (map hash_audit_entry (l ∷ ls)))

  -- `createEpoch`, none when it throws.
  unfoldable pub create_epoch : ℕ → ℕ → AuditDb Digest → Option (AuditDb Digest)
  create_epoch start end db = create_for start end (sort_logs (in_epoch start end db.logs)) db

  -- One transaction: it may fail, and what throws is rolled back. The call ends then.
  abbrev pub committed :
      (AuditDb Digest → AuditDb Digest) → AuditDb Digest → Option (AuditDb Digest) → AuditDb Digest
  committed go_on db none = db
  committed go_on db (some d) = go_on d

  unfoldable pub seal_hours : List ℕ → List Bool → AuditDb Digest → AuditDb Digest
  seal_hours [] failing db = db
  seal_hours (h ∷ hs) [] db = committed (seal_hours hs []) db (create_epoch h (h + hour) db)
  seal_hours (h ∷ hs) (true ∷ failing) db = db
  seal_hours (h ∷ hs) (false ∷ failing) db =
      committed (seal_hours hs failing) db (create_epoch h (h + hour) db)

  -- The sealing of `sealAndAnchor` at a time; the list says which transactions fail.
  unfoldable pub seal : ℕ → List Bool → AuditDb Digest → AuditDb Digest
  seal now failing db =
      seal_hours (take 24 (unsealed_hours (trunc_hour now) db.leaves db.logs)) failing db

  abbrev pub proof_of :
      Leaf Digest
      → Epoch Digest
      → AuditLog
      → Result (List (MerkleStep Digest))
      → Option (AuditProof Digest)
  proof_of l e log (err x) = none
  proof_of l e log (ok proof) = some (record {
    leaf_hash = l.leaf_hash;
    leaf_index = l.leaf_index;
    root = e.root;
    proof = proof;
    entry = log;
  })

  -- The second query and the proof.
  unfoldable pub prove :
      List (Leaf Digest) → Leaf Digest → Epoch Digest → AuditLog → Option (AuditProof Digest)
  prove leaves l e log =
      proof_of l e log (
        merkle_proof sha (map (λ m. m.leaf_hash) (sort_leaves (leaves_of e.id leaves)))
          l.leaf_index)

  abbrev pub answer_of : Option (AuditProof Digest) → Answer Digest
  answer_of none = thrown
  answer_of (some p) = proved p

  abbrev pub answer_log :
      AuditDb Digest → Leaf Digest → Epoch Digest → Option AuditLog → Answer Digest
  answer_log db l e none = no_proof
  answer_log db l e (some log) = answer_of (prove db.leaves l e log)

  abbrev pub answer_epoch : AuditDb Digest → Leaf Digest → Option (Epoch Digest) → Answer Digest
  answer_epoch db l none = no_proof
  answer_epoch db l (some e) = answer_log db l e (find_log l.log_id db.logs)

  abbrev pub answer_leaf : AuditDb Digest → Option (Leaf Digest) → Answer Digest
  answer_leaf db none = no_proof
  answer_leaf db (some l) = answer_epoch db l (find_epoch l.epoch_id db.epochs)

  -- `getProof`.
  unfoldable pub get_proof : ℕ → AuditDb Digest → Answer Digest
  get_proof log_id db = answer_leaf db (find_leaf log_id db.leaves)

  -- The id of an entry is the table's next.
  unfoldable pub change : Change → AuditDb Digest → AuditDb Digest
  change (writes log) db = record db {
    logs = db.logs ++ (record log { id = db.next_log } ∷ []);
    next_log = db.next_log + 1;
  }
  change (seals now failing) db = seal now failing db

  unfoldable pub change_all : List Change → AuditDb Digest → AuditDb Digest
  change_all [] db = db
  change_all (c ∷ cs) db = change_all cs (change c db)

  unfoldable pub no_rows : AuditDb Digest
  no_rows = record { logs = []; next_log = 1; epochs = []; next_epoch = 1; leaves = [] }
