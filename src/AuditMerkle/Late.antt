-- ===== src/AuditMerkle/Late.antt =====
-- Entries that come late to the epochs of backend/src/services/auditMerkleService.ts.
use dukapay.Base.{
  ℕ, zero, suc, ◌+◌, ◌≤◌, ◌<◌, ◌≡◌, ◌≢◌, sym, Bool, true, false, not, ◌&&◌, Option, none, some,
  List, [], ◌∷◌, ◌++◌, ◌==◌, leb, ltb, length, take, All, All-map, arith, inl, inr, Bool-cases,
}
use dukapay.AuditMerkle.{Sha256, Result, ok, err}
use dukapay.AuditMerkle.Epochs.{
  AuditLog, Leaf, Epoch, AuditDb, hour, trunc_hour, in_epoch, sort_logs, has_leaf, has_epoch,
  insert_hour, unsealed_hours, insert_leaves, hash_audit_entry, with_leaves, insert_epoch,
  create_for, create_epoch, bind_option, committed, seal_hours, seal,
}
use dukapay.AuditMerkle.Tables.{All-sort_logs}
use dukapay.AuditMerkle.Inserted.{OnSome}

trunc_hour_of : (h t : ℕ) → trunc_hour h ≡ h → h ≤ t → t < h + hour → trunc_hour t ≡ h
unfolding trunc_hour
trunc_hour_of h t e l u = omega arith

trunc_hour_again : (t : ℕ) → trunc_hour (trunc_hour t) ≡ trunc_hour t
unfolding trunc_hour
trunc_hour_again t = omega arith

abbrev IsHour : ℕ → Type 0
IsHour h = trunc_hour h ≡ h

All-insert_hour : (h : ℕ) (hs : List ℕ) → IsHour h → All IsHour hs → All IsHour (insert_hour h hs)
unfolding insert_hour
All-insert_hour h [] p a = (p, tt)
All-insert_hour h (k ∷ ks) p (q, a) = elim (Bool-cases (h == k)) [
  | inl e ↦ rw e (q, a)
  | inr e ↦ rw e (elim (Bool-cases (ltb k h)) [
    | inl f ↦ rw f (q, All-insert_hour h ks p a)
    | inr f ↦ rw f (p, (q, a))
  ])
]

All-take_hours : (n : ℕ) (hs : List ℕ) → All IsHour hs → All IsHour (take n hs)
All-take_hours zero hs a = tt
All-take_hours (suc n) [] a = tt
All-take_hours (suc n) (h ∷ hs) (p, a) = (p, All-take_hours n hs a)

All-in_epoch_and :
    (P : AuditLog → Type 0) (start end : ℕ) (ls : List AuditLog)
    → All P ls
    → All (λ l. P l × ((start ≤ l.created_at) × (l.created_at < end))) (in_epoch start end ls)
unfolding in_epoch
All-in_epoch_and P start end [] a = tt
All-in_epoch_and P start end (l ∷ ls) (p, a) =
    elim (Bool-cases (leb start l.created_at && ltb l.created_at end)) [
      | inl e ↦ rw e ((p, (ground arith, ground arith)), All-in_epoch_and P start end ls a)
      | inr e ↦ rw e (All-in_epoch_and P start end ls a)
    ]

has_epoch-append :
    {D : Type 0} (start : ℕ) (es : List (Epoch D)) (e : Epoch D)
    → has_epoch start es ≡ true
    → has_epoch start (es ++ (e ∷ [])) ≡ true
unfolding has_epoch
has_epoch-append start [] e h = absurd (ground arith)
has_epoch-append start (f ∷ es) e h = ground (arith, has_epoch-append start es e)

module _ {D : Type 0} where
  All-unsealed_hours :
      (closed : ℕ) (leaves : List (Leaf D)) (ls : List AuditLog)
      → All IsHour (unsealed_hours closed leaves ls)
  unfolding unsealed_hours
  All-unsealed_hours closed leaves [] = tt
  All-unsealed_hours closed leaves (l ∷ ls) =
      elim (Bool-cases (ltb l.created_at closed && not (has_leaf l.id leaves))) [
        | inl e ↦ rw e (
            All-insert_hour (trunc_hour l.created_at) _ (trunc_hour_again l.created_at)
              (All-unsealed_hours closed leaves ls))
        | inr e ↦ rw e (All-unsealed_hours closed leaves ls)
      ]

  has_leaf-append :
      (id : ℕ) (ls : List (Leaf D)) (l : Leaf D)
      → has_leaf id ls ≡ false
      → l.log_id ≢ id
      → has_leaf id (ls ++ (l ∷ [])) ≡ false
  unfolding has_leaf
  has_leaf-append id [] l e n = ground arith
  has_leaf-append id (m ∷ ms) l e n = ground (arith, has_leaf-append id ms l)

  has_leaf-insert_leaves :
      (hash : AuditLog → D) (id epoch_id n : ℕ) (logs : List AuditLog) (leaves : List (Leaf D))
      → All (λ l. l.id ≢ id) logs
      → has_leaf id leaves ≡ false
      → OnSome (λ out. has_leaf id out ≡ false) (insert_leaves hash epoch_id n logs leaves)
  unfolding insert_leaves
  has_leaf-insert_leaves hash id epoch_id n [] leaves a e = e
  has_leaf-insert_leaves hash id epoch_id n (l ∷ ls) leaves (d, a) e =
      elim (Bool-cases (has_leaf l.id leaves)) [
        | inl h ↦ rw h tt
        | inr h ↦ rw h (
            has_leaf-insert_leaves hash id epoch_id (n + 1) ls _ a
              (has_leaf-append id leaves _ e d))
      ]

module _ (sha : Sha256) (stringify : AuditLog → List ℕ) (r : AuditLog) where
  open sha use {Digest}

  -- The hour of the entry has its epoch, and the entry no leaf; only one entry has its id.
  abbrev pub IsLate : AuditDb Digest → Type 0
  IsLate db =
      (has_epoch (trunc_hour r.created_at) db.epochs ≡ true)
      × ((has_leaf r.id db.leaves ≡ false)
          × All (λ m. m.id ≡ r.id → m.created_at ≡ r.created_at) db.logs)

  insert_epoch-IsLate :
      (h : ℕ) (logs : List AuditLog) (db : AuditDb Digest) (root : Result Digest)
      → IsLate db
      → (has_epoch h db.epochs ≡ false → All (λ l. l.id ≢ r.id) logs)
      → OnSome IsLate (insert_epoch sha stringify h (h + hour) logs db root)
  insert_epoch-IsLate h logs db (err e) late k = tt
  insert_epoch-IsLate h logs db (ok root) (has, (none_yet, only)) k =
      elim (Bool-cases (has_epoch h db.epochs)) [
        | inl e ↦ rw e (has, (none_yet, only))
        | inr e ↦ rw e (
            go (insert_leaves (hash_audit_entry sha stringify) db.next_epoch 0 logs db.leaves) (
              has_leaf-insert_leaves (hash_audit_entry sha stringify) r.id db.next_epoch 0 logs
                db.leaves (k e) none_yet))
      ]
    where
      made : Epoch Digest
      made = record {
        id = db.next_epoch;
        epoch_start = h;
        epoch_end = h + hour;
        root = root;
        leaf_count = length logs;
      }

      go :
          (o : Option (List (Leaf Digest)))
          → OnSome (λ out. has_leaf r.id out ≡ false) o
          → OnSome IsLate
              (bind_option o (λ leaves. some (with_leaves sha stringify db made leaves)))
      go none f = tt
      go (some out) f = (has_epoch-append (trunc_hour r.created_at) db.epochs made has, (f, only))

  create_epoch-IsLate :
      (h : ℕ) (db : AuditDb Digest)
      → IsHour h
      → IsLate db
      → OnSome IsLate (create_epoch sha stringify h (h + hour) db)
  unfolding create_epoch
  create_epoch-IsLate h db whole late = go (sort_logs (in_epoch h (h + hour) db.logs)) (λ e.
      All-sort_logs (λ l. l.id ≢ r.id) _
        (All-map _ _ (in_epoch h (h + hour) db.logs)
          (λ l (same, (low, high)) k.
            apart e
              (trunc_hour_of h r.created_at whole (rw (sym (same k)) low) (rw (sym (same k)) high)))
          (All-in_epoch_and _ h (h + hour) db.logs late.1.1)))
    where
      apart : has_epoch h db.epochs ≡ false → trunc_hour r.created_at ≡ h → ⊥
      apart e k = ground (arith, late.0, e, k)

      go :
          (logs : List AuditLog)
          → (has_epoch h db.epochs ≡ false → All (λ l. l.id ≢ r.id) logs)
          → OnSome IsLate (create_for sha stringify h (h + hour) logs db)
      go [] k = late
      go (l ∷ ls) k = insert_epoch-IsLate h (l ∷ ls) db _ late k

  committed-IsLate :
      (go_on : AuditDb Digest → AuditDb Digest) (db : AuditDb Digest) (o : Option (AuditDb Digest))
      → IsLate db
      → OnSome IsLate o
      → ((d : AuditDb Digest) → IsLate d → IsLate (go_on d))
      → IsLate (committed sha stringify go_on db o)
  committed-IsLate go_on db none l h k = l
  committed-IsLate go_on db (some d) l h k = k d h

  seal_hours-IsLate :
      (hs : List ℕ) (failing : List Bool) (db : AuditDb Digest)
      → All IsHour hs
      → IsLate db
      → IsLate (seal_hours sha stringify hs failing db)
  unfolding seal_hours
  seal_hours-IsLate [] failing db a l = l
  seal_hours-IsLate (h ∷ hs) [] db (w, a) l =
      committed-IsLate (seal_hours sha stringify hs []) db _ l (create_epoch-IsLate h db w l)
        (λ d k. seal_hours-IsLate hs [] d a k)
  seal_hours-IsLate (h ∷ hs) (true ∷ failing) db a l = l
  seal_hours-IsLate (h ∷ hs) (false ∷ failing) db (w, a) l =
      committed-IsLate (seal_hours sha stringify hs failing) db _ l (create_epoch-IsLate h db w l)
        (λ d k. seal_hours-IsLate hs failing d a k)

  -- Runs that seal, one after the other, at the given times.
  unfoldable pub seal_all : List (ℕ × List Bool) → AuditDb Digest → AuditDb Digest
  seal_all [] db = db
  seal_all ((now, failing) ∷ rest) db = seal_all rest (seal sha stringify now failing db)

  -- An entry without a leaf whose hour has its epoch already, as one that is committed after its hour
  -- was sealed, never gets a leaf, however often the audit trail is sealed, if no other entry has its id.
  pub has_leaf-seal_all :
      (runs : List (ℕ × List Bool)) (db : AuditDb Digest)
      → IsLate db
      → has_leaf r.id (seal_all runs db).leaves ≡ false
  unfolding seal_all seal
  has_leaf-seal_all [] db late = late.1.0
  has_leaf-seal_all ((now, failing) ∷ runs) db late = has_leaf-seal_all runs _ (
      seal_hours-IsLate _ failing db
        (All-take_hours 24 _ (All-unsealed_hours (trunc_hour now) db.leaves db.logs)) late)
