-- ===== src/AuditMerkle/Inserted.antt =====
-- What `createEpoch` of backend/src/services/auditMerkleService.ts leaves in the tables.
use mathlib.Core.Path.{subst}
use dukapay.Base.{
  ℕ, ◌+◌, ◌<◌, ◌≡◌, refl, sym, ap, ◌∙◌, Bool, true, false, Option, none, some, List, [], ◌∷◌, ◌++◌,
  map, length, All, All-map, All-zip, arith, if◌then◌else◌,
}
use dukapay.AuditMerkle.{Sha256, Result, ok, err, merkle_root}
use dukapay.AuditMerkle.Epochs.{
  AuditLog, Leaf, Epoch, AuditDb, in_epoch, sort_logs, has_leaf, has_epoch, leaves_of, find_epoch,
  find_log, insert_leaves, hash_audit_entry, with_leaves, insert_epoch, create_for, create_epoch,
  bind_option,
}
use dukapay.AuditMerkle.Tables.{
  All-hour, IsNumbered, leaves_of-append, leaves_of_own, leaves_of-none, find_epoch-append,
  find_epoch-new,
}

-- A condition on the value that there may be.
abbrev pub OnSome {ℓ} : {A : Type ℓ} → (A → Type 0) → Option A → Type 0
OnSome P none = Unit {0}
OnSome P (some a) = P a

append-cons :
    {A : Type 0} (xs : List A) (x : A) (ys : List A) → (xs ++ (x ∷ [])) ++ ys ≡ xs ++ (x ∷ ys)
append-cons [] x ys = refl
append-cons (z ∷ xs) x ys = ap (λ l. z ∷ l) (append-cons xs x ys)

append-nil : {A : Type 0} (xs : List A) → xs ++ [] ≡ xs
append-nil [] = refl
append-nil (x ∷ xs) = ap (λ l. x ∷ l) (append-nil xs)

pub All-append :
    {A : Type 0} (P : A → Type 0) (xs ys : List A) → All P xs → All P ys → All P (xs ++ ys)
All-append P [] ys a b = b
All-append P (x ∷ xs) ys (p, a) b = (p, All-append P xs ys a b)

module _ (sha : Sha256) (stringify : AuditLog → List ℕ) where
  open sha use {Digest}

  abbrev hash : AuditLog → Digest
  hash = hash_audit_entry sha stringify

  -- The leaves of an epoch are numbered from 0, and their tree has its root.
  abbrev pub IsSealedEpoch : List (Leaf Digest) → Epoch Digest → Type 0
  IsSealedEpoch leaves e =
      IsNumbered 0 (leaves_of e.id leaves)
      × (merkle_root sha (map (λ l. l.leaf_hash) (leaves_of e.id leaves)) ≡ ok e.root)

  -- The leaf is that of an entry.
  abbrev pub IsLeafOf : List AuditLog → Leaf Digest → Type 0
  IsLeafOf logs l =
      (r : AuditLog) × ((find_log l.log_id logs ≡ some r)
        × (l.leaf_hash ≡ hash_audit_entry sha stringify r))

  abbrev pub IsFiled : AuditDb Digest → Leaf Digest → Type 0
  IsFiled db l =
      ((e : Epoch Digest) × (find_epoch l.epoch_id db.epochs ≡ some e))
      × (IsLeafOf db.logs l × (l.epoch_id < db.next_epoch))

  abbrev pub IsSoundLog : AuditDb Digest → AuditLog → Type 0
  IsSoundLog db r = (r.id < db.next_log) × (find_log r.id db.logs ≡ some r)

  abbrev pub IsSoundEpoch : AuditDb Digest → Epoch Digest → Type 0
  IsSoundEpoch db e = (e.id < db.next_epoch) × IsSealedEpoch db.leaves e

  abbrev pub IsSound : AuditDb Digest → Type 0
  IsSound db =
      All (IsSoundLog db) db.logs × (All (IsSoundEpoch db) db.epochs × All (IsFiled db) db.leaves)

  -- The new leaves of an epoch.
  abbrev AreNew : List AuditLog → ℕ → ℕ → List AuditLog → List (Leaf Digest) → Type 0
  AreNew all id n logs new =
      (IsNumbered n new × All (λ l. l.epoch_id ≡ id) new)
      × ((map (λ l. l.leaf_hash) new ≡ map hash logs) × All (IsLeafOf all) new)

  insert_leaves-AreNew :
      (all : List AuditLog) (id n : ℕ) (logs : List AuditLog) (leaves : List (Leaf Digest))
      → All (λ r. find_log r.id all ≡ some r) logs
      → OnSome
          (λ out. (new : List (Leaf Digest)) × ((out ≡ leaves ++ new) × AreNew all id n logs new))
          (insert_leaves hash id n logs leaves)
  unfolding insert_leaves
  insert_leaves-AreNew all id n [] leaves a =
      ([], (sym (append-nil leaves), ((tt, tt), (refl, tt))))
  insert_leaves-AreNew all id n (r ∷ logs) leaves (f, a) =
      go (has_leaf r.id leaves) (insert_leaves hash id (n + 1) logs (leaves ++ (leaf ∷ [])))
        (insert_leaves-AreNew all id (n + 1) logs (leaves ++ (leaf ∷ [])) a)
    where
      leaf : Leaf Digest
      leaf = record { epoch_id = id; log_id = r.id; leaf_index = n; leaf_hash = hash r }

      go :
          (b : Bool) (o : Option (List (Leaf Digest)))
          → OnSome
              (λ out.
                (new : List (Leaf Digest)) × ((out ≡ (leaves ++ (leaf ∷ [])) ++ new)
                  × AreNew all id (n + 1) logs new))
              o
          → OnSome
              (λ out.
                (new : List (Leaf Digest)) × ((out ≡ leaves ++ new)
                  × AreNew all id n (r ∷ logs) new))
              (if b then none else o)
      go true o h = tt
      go false none h = tt
      go false (some out) (new, (e, ((numbered, of_id), (hashes, filed)))) = (
        leaf ∷ new,
        (
          e ∙ append-cons leaves leaf new,
          (
            ((refl, numbered), (refl, of_id)),
            (ap (λ hs. hash r ∷ hs) hashes, ((r, (f, refl)), filed)),
          ),
        ),
      )

  -- The leaves of an epoch, when those of a new one are added.
  leaves_of-old :
      (id next : ℕ) (leaves new : List (Leaf Digest))
      → id < next
      → All (λ l. l.epoch_id ≡ next) new
      → leaves_of id (leaves ++ new) ≡ leaves_of id leaves
  leaves_of-old id next leaves new h a =
      leaves_of-append id leaves new
      ∙ (ap (λ ls. leaves_of id leaves ++ ls)
            (leaves_of-none id new (All-map _ _ new (λ l e k. omega arith) a))
          ∙ append-nil (leaves_of id leaves))

  leaves_of-new :
      (next : ℕ) (leaves new : List (Leaf Digest))
      → All (λ l. l.epoch_id < next) leaves
      → All (λ l. l.epoch_id ≡ next) new
      → leaves_of next (leaves ++ new) ≡ new
  leaves_of-new next leaves new h a =
      leaves_of-append next leaves new
      ∙ (ap (λ ls. ls ++ leaves_of next new)
            (leaves_of-none next leaves (All-map _ _ leaves (λ l e k. omega arith) h))
          ∙ leaves_of_own next new a)

  with_leaves-IsSound :
      (db : AuditDb Digest) (start end : ℕ) (root : Digest) (logs : List AuditLog)
      (new : List (Leaf Digest))
      → IsSound db
      → merkle_root sha (map hash logs) ≡ ok root
      → AreNew db.logs db.next_epoch 0 logs new
      → IsSound (
          with_leaves sha stringify db
            (record {
              id = db.next_epoch;
              epoch_start = start;
              epoch_end = end;
              root = root;
              leaf_count = length logs;
            })
            (db.leaves ++ new))
  with_leaves-IsSound db start end root logs new (ls, (es, fs)) tree
        ((numbered, of_id), (hashes, filed)) =
      (
        ls,
        (
          All-append _ db.epochs _ (All-map _ _ db.epochs old es)
              ((omega arith, (rw fresh numbered, rw fresh (rw hashes tree))), tt),
          All-append _ db.leaves new (All-map _ _ db.leaves kept fs)
              (All-map _ _ new added (All-zip _ _ new of_id filed)),
        ),
      )
    where
      fresh : leaves_of db.next_epoch (db.leaves ++ new) ≡ new
      fresh =
          leaves_of-new db.next_epoch db.leaves new (All-map _ _ db.leaves (λ l h. h.1.1) fs) of_id

      old :
          (e : Epoch Digest)
          → IsSoundEpoch db e
          → (e.id < db.next_epoch + 1) × IsSealedEpoch (db.leaves ++ new) e
      old e (h, sealed) =
          (omega arith, rw (leaves_of-old e.id db.next_epoch db.leaves new h of_id) sealed)

      made : Epoch Digest
      made = record {
        id = db.next_epoch;
        epoch_start = start;
        epoch_end = end;
        root = root;
        leaf_count = length logs;
      }

      kept :
          (l : Leaf Digest)
          → IsFiled db l
          → ((e : Epoch Digest) × (find_epoch l.epoch_id (db.epochs ++ (made ∷ [])) ≡ some e))
            × (IsLeafOf db.logs l × (l.epoch_id < db.next_epoch + 1))
      kept l ((e, f), (log, h)) =
          ((e, find_epoch-append l.epoch_id db.epochs made e f), (log, omega arith))

      added :
          (l : Leaf Digest)
          → (l.epoch_id ≡ db.next_epoch) × IsLeafOf db.logs l
          → ((e : Epoch Digest) × (find_epoch l.epoch_id (db.epochs ++ (made ∷ [])) ≡ some e))
            × (IsLeafOf db.logs l × (l.epoch_id < db.next_epoch + 1))
      added l (e, log) = (
        (made, rw e (find_epoch-new db.epochs made (All-map _ _ db.epochs (λ f h. h.0) es))),
        (log, omega arith),
      )

  insert_epoch-IsSound :
      (db : AuditDb Digest) (start end : ℕ) (logs : List AuditLog)
      → IsSound db
      → All (λ r. find_log r.id db.logs ≡ some r) logs
      → (r : Result Digest) → merkle_root sha (map hash logs) ≡ r
      → OnSome IsSound (insert_epoch sha stringify start end logs db r)
  insert_epoch-IsSound db start end logs sound a (err e) tree = tt
  insert_epoch-IsSound db start end logs sound a (ok root) tree =
      go (has_epoch start db.epochs) (insert_leaves hash db.next_epoch 0 logs db.leaves)
        (insert_leaves-AreNew db.logs db.next_epoch 0 logs db.leaves a)
    where
      sealed_with : List (Leaf Digest) → AuditDb Digest
      sealed_with leaves =
          with_leaves sha stringify db
            (record {
              id = db.next_epoch;
              epoch_start = start;
              epoch_end = end;
              root = root;
              leaf_count = length logs;
            })
            leaves

      go :
          (b : Bool) (o : Option (List (Leaf Digest)))
          → OnSome
              (λ out.
                (new : List (Leaf Digest)) × ((out ≡ db.leaves ++ new)
                  × AreNew db.logs db.next_epoch 0 logs new))
              o
          → OnSome IsSound
              (if b then some db else bind_option o (λ leaves. some (sealed_with leaves)))
      go true o h = sound
      go false none h = tt
      go false (some out) (new, (e, h)) =
          subst (λ leaves. IsSound (sealed_with leaves)) (sym e)
            (with_leaves-IsSound db start end root logs new sound tree h)

  -- `createEpoch` keeps the tables sound.
  pub create_epoch-IsSound :
      (start end : ℕ) (db : AuditDb Digest)
      → IsSound db
      → OnSome IsSound (create_epoch sha stringify start end db)
  unfolding create_epoch
  create_epoch-IsSound start end db sound = go (sort_logs (in_epoch start end db.logs)) (
      All-hour (λ r. find_log r.id db.logs ≡ some r) start end db.logs
        (All-map _ _ db.logs (λ r h. h.1) sound.0))
    where
      go :
          (logs : List AuditLog)
          → All (λ r. find_log r.id db.logs ≡ some r) logs
          → OnSome IsSound (create_for sha stringify start end logs db)
      go [] a = sound
      go (l ∷ ls) a = insert_epoch-IsSound db start end (l ∷ ls) sound a _ refl
