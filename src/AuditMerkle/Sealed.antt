-- ===== src/AuditMerkle/Sealed.antt =====
-- The proofs that `getProof` of backend/src/services/auditMerkleService.ts gives for sealed entries.
use mathlib.Core.Path.{subst}
use dukapay.Base.{
  ℕ, ◌+◌, ◌<◌, ◌≡◌, ◌∙◌, Bool, true, false, Option, none, some, List, [], ◌∷◌, ◌++◌, map, get_elem?,
  All-map, arith, inl, inr, Bool-cases,
}
use dukapay.AuditMerkle.{Sha256, ok, merkle_root, verify_merkle_proof}
use dukapay.AuditMerkle.Complete.{verify-merkle_proof}
use dukapay.AuditMerkle.Epochs.{
  AuditLog, Leaf, Epoch, AuditDb, AuditProof, Answer, no_proof, proved, Change, writes, seals, hour,
  has_leaf, leaves_of, find_leaf, find_epoch, find_log, hash_audit_entry, committed, seal_hours,
  seal, prove, answer_of, answer_leaf, get_proof, change, change_all, no_rows,
}
use dukapay.AuditMerkle.Tables.{
  IsNumbered, find_log-append, find_log-new, find_log-id, find_leaf-has_leaf, find_leaf-none,
  find_leaf-All, find_epoch-All, find_leaf-leaves_of, get_elem?-IsNumbered, sort_leaves-IsNumbered,
}
use dukapay.AuditMerkle.Inserted.{
  OnSome, IsSealedEpoch, IsLeafOf, IsFiled, IsSoundLog, IsSoundEpoch, IsSound, create_epoch-IsSound,
  All-append,
}

module _ (sha : Sha256) (stringify : AuditLog → List ℕ) where
  open sha use {Digest}

  -- What a proof for an entry shows: the hash of the entry leads to the root.
  abbrev pub IsProofOf : ℕ → AuditProof Digest → Type 0
  IsProofOf log_id p =
      ((p.entry.id ≡ log_id) × (p.leaf_hash ≡ hash_audit_entry sha stringify p.entry))
      × (verify_merkle_proof sha p.leaf_hash p.proof p.root ≡ true)

  -- The answer for an entry, by whether it has a leaf.
  abbrev pub IsAnswer : ℕ → Bool → Answer Digest → Type 0
  IsAnswer log_id false no_proof = Unit {0}
  IsAnswer log_id true (proved p) = IsProofOf log_id p
  IsAnswer log_id _ _ = ⊥

  committed-IsSound :
      (go_on : AuditDb Digest → AuditDb Digest) (db : AuditDb Digest) (o : Option (AuditDb Digest))
      → IsSound sha stringify db
      → OnSome (IsSound sha stringify) o
      → ((d : AuditDb Digest) → IsSound sha stringify d → IsSound sha stringify (go_on d))
      → IsSound sha stringify (committed sha stringify go_on db o)
  committed-IsSound go_on db none s h k = s
  committed-IsSound go_on db (some d) s h k = k d h

  seal_hours-IsSound :
      (hs : List ℕ) (failing : List Bool) (db : AuditDb Digest)
      → IsSound sha stringify db
      → IsSound sha stringify (seal_hours sha stringify hs failing db)
  unfolding seal_hours
  seal_hours-IsSound [] failing db s = s
  seal_hours-IsSound (h ∷ hs) [] db s =
      committed-IsSound (seal_hours sha stringify hs []) db _ s
        (create_epoch-IsSound sha stringify h (h + hour) db s) (seal_hours-IsSound hs [])
  seal_hours-IsSound (h ∷ hs) (true ∷ failing) db s = s
  seal_hours-IsSound (h ∷ hs) (false ∷ failing) db s =
      committed-IsSound (seal_hours sha stringify hs failing) db _ s
        (create_epoch-IsSound sha stringify h (h + hour) db s) (seal_hours-IsSound hs failing)

  change-IsSound :
      (c : Change) (db : AuditDb Digest)
      → IsSound sha stringify db
      → IsSound sha stringify (change sha stringify c db)
  unfolding change seal
  change-IsSound (writes log) db (ls, (es, fs)) = (
    All-append _ db.logs _ (All-map _ _ db.logs kept ls)
        ((omega arith, find_log-new db.logs added (All-map _ _ db.logs (λ r h. h.0) ls)), tt),
    (es, All-map _ _ db.leaves filed fs),
  )
    where
      added : AuditLog
      added = record log { id = db.next_log }

      kept :
          (r : AuditLog)
          → IsSoundLog sha stringify db r
          → (r.id < db.next_log + 1) × (find_log r.id (db.logs ++ (added ∷ [])) ≡ some r)
      kept r (h, f) = (omega arith, find_log-append r.id db.logs added r f)

      filed :
          (l : Leaf Digest)
          → IsFiled sha stringify db l
          → ((e : Epoch Digest) × (find_epoch l.epoch_id db.epochs ≡ some e))
            × (IsLeafOf sha stringify (db.logs ++ (added ∷ [])) l × (l.epoch_id < db.next_epoch))
      filed l (e, ((r, (f, h)), b)) = (e, ((r, (find_log-append l.log_id db.logs added r f, h)), b))
  change-IsSound (seals now failing) db s = seal_hours-IsSound _ failing db s

  pub change_all-IsSound :
      (cs : List Change) (db : AuditDb Digest)
      → IsSound sha stringify db
      → IsSound sha stringify (change_all sha stringify cs db)
  unfolding change_all
  change_all-IsSound [] db s = s
  change_all-IsSound (c ∷ cs) db s = change_all-IsSound cs _ (change-IsSound c db s)

  -- The proof of a leaf that stands where its index says.
  prove-IsProofOf :
      (leaves : List (Leaf Digest)) (l : Leaf Digest) (e : Epoch Digest) (log : AuditLog)
      (log_id : ℕ)
      → IsSealedEpoch sha stringify leaves e
      → get_elem? (map (λ m. m.leaf_hash) (leaves_of e.id leaves)) l.leaf_index ≡ some l.leaf_hash
      → (log.id ≡ log_id) × (l.leaf_hash ≡ hash_audit_entry sha stringify log)
      → IsAnswer log_id true (answer_of sha stringify (prove sha stringify leaves l e log))
  unfolding prove
  prove-IsProofOf leaves l e log log_id (numbered, tree) at same =
      rw (sort_leaves-IsNumbered 0 (leaves_of e.id leaves) numbered) (
        let (proof, root, made, top, verified) =
          verify-merkle_proof sha (map (λ m. m.leaf_hash) (leaves_of e.id leaves)) l.leaf_index
            l.leaf_hash at in
        rw made (
          same,
          subst (λ r. verify_merkle_proof sha l.leaf_hash proof r ≡ true) (top_is root top)
              verified,
        ))
    where
      top_is :
          (root : Digest)
          → merkle_root sha (map (λ m. m.leaf_hash) (leaves_of e.id leaves)) ≡ ok root
          → root ≡ e.root
      top_is root top = cc

  get_proof-IsAnswer :
      (db : AuditDb Digest) (log_id : ℕ)
      → IsSound sha stringify db
      → IsAnswer log_id (has_leaf log_id db.leaves) (get_proof sha stringify log_id db)
  unfolding get_proof
  get_proof-IsAnswer db log_id (ls, (es, fs)) = elim (Bool-cases (has_leaf log_id db.leaves)) [
    | inl h ↦ rw h (leaf (find_leaf-has_leaf log_id db.leaves h))
    | inr h ↦ rw h (rw (find_leaf-none log_id db.leaves h) tt)
  ]
    where
      leaf :
          ((l : Leaf Digest) × ((find_leaf log_id db.leaves ≡ some l) × (l.log_id ≡ log_id)))
          → IsAnswer log_id true (answer_leaf sha stringify db (find_leaf log_id db.leaves))
      leaf (l, (found, same)) =
          let ((e, epoch), ((r, (log, hashed)), _)) =
            find_leaf-All (IsFiled sha stringify db) log_id db.leaves l found fs in
          let ((_, sealed), e_id) =
            find_epoch-All (IsSoundEpoch sha stringify db) l.epoch_id db.epochs e epoch es in
          let numbered = subst (λ id. IsNumbered 0 (leaves_of id db.leaves)) e_id sealed.0 in
          let (i, (index, at)) =
            find_leaf-leaves_of _ log_id db.leaves l found
              (get_elem?-IsNumbered 0 (leaves_of l.epoch_id db.leaves) numbered) in
          let here : l.leaf_index ≡ i = omega (arith, index) in
          rw found (
            rw epoch (
              rw log (
                prove-IsProofOf db.leaves l e r log_id sealed (rw e_id (rw here at))
                  (find_log-id l.log_id db.logs r log ∙ same, hashed))))

  -- Whatever entries are written and whenever the audit trail is sealed, also where transactions fail:
  -- `getProof` never throws; it returns null exactly for an entry without a leaf, and for any other one
  -- the entry with its hash and a proof that `verifyMerkleProof` accepts against the root of its epoch.
  pub get_proof-change_all :
      (cs : List Change) (log_id : ℕ)
      → let db = change_all sha stringify cs (no_rows sha stringify) in
        IsAnswer log_id (has_leaf log_id db.leaves) (get_proof sha stringify log_id db)
  unfolding no_rows
  get_proof-change_all cs log_id =
      get_proof-IsAnswer _ log_id (change_all-IsSound cs (no_rows sha stringify) (tt, (tt, tt)))
