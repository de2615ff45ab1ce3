-- ===== src/AuditMerkle/Tables.antt =====
-- Facts on the tables of the audit epochs: backend/src/services/auditMerkleService.ts.
use mathlib.Core.Path.{subst}
use dukapay.Base.{
  ℕ, suc, ◌+◌, ◌<◌, ◌≡◌, ◌≢◌, refl, Bool, true, false, ◌&&◌, none, some, List, [], ◌∷◌, ◌++◌, map,
  ◌==◌, leb, ltb, get_elem?, All, arith, inl, inr, ◌⊎◌, All-map, Bool-cases, if◌then◌else◌,
}
use dukapay.AuditMerkle.Epochs.{
  AuditLog, Leaf, Epoch, in_epoch, insert_log, sort_logs, has_leaf, leaves_of, insert_leaf,
  sort_leaves, find_leaf, find_epoch, find_log,
}

module _ (P : AuditLog → Type 0) where
  All-in_epoch : (start end : ℕ) (ls : List AuditLog) → All P ls → All P (in_epoch start end ls)
  unfolding in_epoch
  All-in_epoch start end [] a = tt
  All-in_epoch start end (l ∷ ls) (p, a) =
      elim (Bool-cases (leb start l.created_at && ltb l.created_at end)) [
        | inl e ↦ rw e (p, All-in_epoch start end ls a)
        | inr e ↦ rw e (All-in_epoch start end ls a)
      ]

  All-insert_log : (l : AuditLog) (ls : List AuditLog) → P l → All P ls → All P (insert_log l ls)
  unfolding insert_log
  All-insert_log l [] p a = (p, tt)
  All-insert_log l (m ∷ ms) p (q, a) = elim (Bool-cases (ltb m.id l.id)) [
    | inl e ↦ rw e (q, All-insert_log l ms p a)
    | inr e ↦ rw e (p, (q, a))
  ]

  pub All-sort_logs : (ls : List AuditLog) → All P ls → All P (sort_logs ls)
  unfolding sort_logs
  All-sort_logs [] a = tt
  All-sort_logs (l ∷ ls) (p, a) = All-insert_log l (sort_logs ls) p (All-sort_logs ls a)

  -- The entries of an hour, as `createEpoch` reads them.
  pub All-hour :
      (start end : ℕ) (ls : List AuditLog) → All P ls → All P (sort_logs (in_epoch start end ls))
  All-hour start end ls a = All-sort_logs (in_epoch start end ls) (All-in_epoch start end ls a)

pub find_log-append :
    (id : ℕ) (ls : List AuditLog) (l r : AuditLog)
    → find_log id ls ≡ some r
    → find_log id (ls ++ (l ∷ [])) ≡ some r
unfolding find_log
find_log-append id [] l r e = cc
find_log-append id (m ∷ ms) l r e = elim (Bool-cases (m.id == id)) [
  | inl k ↦ ground (arith, k, e)
  | inr k ↦ ground (arith, k, e, find_log-append id ms l r)
]

pub find_log-new :
    (ls : List AuditLog) (l : AuditLog)
    → All (λ m. m.id < l.id) ls
    → find_log l.id (ls ++ (l ∷ [])) ≡ some l
unfolding find_log
find_log-new [] l a = ground arith
find_log-new (m ∷ ms) l (h, a) = ground (arith, find_log-new ms l a)

pub find_log-id : (id : ℕ) (ls : List AuditLog) (r : AuditLog) → find_log id ls ≡ some r → r.id ≡ id
unfolding find_log
find_log-id id [] r e = cc
find_log-id id (m ∷ ms) r e = ground (arith, find_log-id id ms r)

some_injective : {A : Type 0} (a b : A) → some a ≡ some b → a ≡ b
some_injective a b e = cc

module _ {D : Type 0} where
  -- The leaves are numbered on from `n`.
  abbrev pub IsNumbered : ℕ → List (Leaf D) → Type 0
  IsNumbered n [] = Unit {0}
  IsNumbered n (l ∷ ls) = (l.leaf_index ≡ n) × IsNumbered (n + 1) ls

  pub leaves_of-append :
      (id : ℕ) (ls ms : List (Leaf D))
      → leaves_of id (ls ++ ms) ≡ leaves_of id ls ++ leaves_of id ms
  unfolding leaves_of
  leaves_of-append id [] ms = refl
  leaves_of-append id (l ∷ ls) ms = elim (Bool-cases (l.epoch_id == id)) [
    | inl e ↦ rw e (rw (leaves_of-append id ls ms) refl)
    | inr e ↦ rw e (leaves_of-append id ls ms)
  ]

  pub leaves_of_own :
      (id : ℕ) (ls : List (Leaf D)) → All (λ l. l.epoch_id ≡ id) ls → leaves_of id ls ≡ ls
  unfolding leaves_of
  leaves_of_own id [] a = refl
  leaves_of_own id (l ∷ ls) (h, a) = ground (arith, leaves_of_own id ls a)

  pub leaves_of-none :
      (id : ℕ) (ls : List (Leaf D)) → All (λ l. l.epoch_id ≢ id) ls → leaves_of id ls ≡ []
  unfolding leaves_of
  leaves_of-none id [] a = refl
  leaves_of-none id (l ∷ ls) (h, a) = ground (arith, leaves_of-none id ls a)

  insert_leaf-first :
      (l : Leaf D) (n : ℕ) (ls : List (Leaf D))
      → l.leaf_index < n
      → IsNumbered n ls
      → insert_leaf l ls ≡ l ∷ ls
  unfolding insert_leaf
  insert_leaf-first l n [] h a = refl
  insert_leaf-first l n (m ∷ ms) h (e, a) = ground arith

  pub sort_leaves-IsNumbered : (n : ℕ) (ls : List (Leaf D)) → IsNumbered n ls → sort_leaves ls ≡ ls
  unfolding sort_leaves
  sort_leaves-IsNumbered n [] a = refl
  sort_leaves-IsNumbered n (l ∷ ls) (e, a) =
      rw (sort_leaves-IsNumbered (n + 1) ls a) (insert_leaf-first l (n + 1) ls (omega arith) a)

  pub find_leaf-has_leaf :
      (id : ℕ) (ls : List (Leaf D))
      → has_leaf id ls ≡ true
      → (l : Leaf D) × ((find_leaf id ls ≡ some l) × (l.log_id ≡ id))
  unfolding find_leaf has_leaf
  find_leaf-has_leaf id [] e = absurd (ground arith)
  find_leaf-has_leaf id (l ∷ ls) e = elim (Bool-cases (l.log_id == id)) [
    | inl k ↦ rw k (l, (refl, ground arith))
    | inr k ↦ rw k (find_leaf-has_leaf id ls (ground arith))
  ]

  pub find_leaf-none :
      (id : ℕ) (ls : List (Leaf D)) → has_leaf id ls ≡ false → find_leaf id ls ≡ none
  unfolding find_leaf has_leaf
  find_leaf-none id [] e = refl
  find_leaf-none id (l ∷ ls) e = ground (arith, find_leaf-none id ls)

  pub find_leaf-All :
      (P : Leaf D → Type 0) (id : ℕ) (ls : List (Leaf D)) (l : Leaf D)
      → find_leaf id ls ≡ some l
      → All P ls
      → P l
  unfolding find_leaf
  find_leaf-All P id [] l e a = cc
  find_leaf-All P id (m ∷ ms) l e (p, a) = go (m.log_id == id) e (λ k. find_leaf-All P id ms l k a)
    where
      go :
          (b : Bool)
          → (if b then some m else find_leaf id ms) ≡ some l
          → (find_leaf id ms ≡ some l → P l)
          → P l
      go true e rest = subst P (some_injective m l e) p
      go false e rest = rest e

  pub find_epoch-All :
      (P : Epoch D → Type 0) (id : ℕ) (es : List (Epoch D)) (e : Epoch D)
      → find_epoch id es ≡ some e
      → All P es
      → P e × (e.id ≡ id)
  unfolding find_epoch
  find_epoch-All P id [] e h a = cc
  find_epoch-All P id (f ∷ es) e h (p, a) =
      go (Bool-cases (f.id == id)) (λ k. find_epoch-All P id es e k a)
    where
      go :
          ((f.id == id) ≡ true) ⊎ ((f.id == id) ≡ false)
          → (find_epoch id es ≡ some e → P e × (e.id ≡ id))
          → P e × (e.id ≡ id)
      go (inl k) rest = let same : f ≡ e = ground arith in (subst P same p, ground arith)
      go (inr k) rest = rest (ground arith)

  pub find_epoch-append :
      (id : ℕ) (es : List (Epoch D)) (f e : Epoch D)
      → find_epoch id es ≡ some e
      → find_epoch id (es ++ (f ∷ [])) ≡ some e
  unfolding find_epoch
  find_epoch-append id [] f e h = cc
  find_epoch-append id (g ∷ es) f e h = ground (arith, find_epoch-append id es f e)

  pub find_epoch-new :
      (es : List (Epoch D)) (f : Epoch D)
      → All (λ e. e.id < f.id) es
      → find_epoch f.id (es ++ (f ∷ [])) ≡ some f
  unfolding find_epoch
  find_epoch-new [] f a = ground arith
  find_epoch-new (e ∷ es) f (h, a) = ground (arith, find_epoch-new es f a)

  -- Every leaf stands at its own index.
  pub get_elem?-IsNumbered :
      (n : ℕ) (ls : List (Leaf D))
      → IsNumbered n ls
      → All
          (λ l.
            (i : ℕ) × ((l.leaf_index ≡ n + i)
              × (get_elem? (map (λ m. m.leaf_hash) ls) i ≡ some l.leaf_hash)))
          ls
  get_elem?-IsNumbered n [] a = tt
  get_elem?-IsNumbered n (m ∷ ms) (h, a) = (
    (0, (omega arith, refl)),
    All-map _ _ ms (λ l (i, (e, k)). (suc i, (omega arith, k))) (get_elem?-IsNumbered (n + 1) ms a),
  )

  -- A leaf that is found is among those of its epoch.
  pub find_leaf-leaves_of :
      (P : Leaf D → Type 0) (id : ℕ) (ls : List (Leaf D)) (l : Leaf D)
      → find_leaf id ls ≡ some l
      → All P (leaves_of l.epoch_id ls)
      → P l
  unfolding find_leaf leaves_of
  find_leaf-leaves_of P id [] l e a = cc
  find_leaf-leaves_of P id (m ∷ ms) l e a =
      go (Bool-cases (m.log_id == id)) (Bool-cases (m.epoch_id == l.epoch_id)) a
        (λ k. find_leaf-leaves_of P id ms l k)
    where
      kept :
          (m.epoch_id == l.epoch_id) ≡ true
          → leaves_of l.epoch_id (m ∷ ms) ≡ m ∷ leaves_of l.epoch_id ms
      kept h = ground arith

      left_out :
          (m.epoch_id == l.epoch_id) ≡ false
          → leaves_of l.epoch_id (m ∷ ms) ≡ leaves_of l.epoch_id ms
      left_out h = ground arith

      go :
          ((m.log_id == id) ≡ true) ⊎ ((m.log_id == id) ≡ false)
          → ((m.epoch_id == l.epoch_id) ≡ true) ⊎ ((m.epoch_id == l.epoch_id) ≡ false)
          → All P (leaves_of l.epoch_id (m ∷ ms))
          → (find_leaf id ms ≡ some l → All P (leaves_of l.epoch_id ms) → P l)
          → P l
      go (inl k) (inl h) b rest =
          let same : m ≡ l = ground arith in subst P same (subst (All P) (kept h) b).0
      go (inl k) (inr h) b rest = let same : m ≡ l = ground arith in absurd (ground arith)
      go (inr k) (inl h) b rest = rest (ground arith) (subst (All P) (kept h) b).1
      go (inr k) (inr h) b rest = rest (ground arith) (subst (All P) (left_out h) b)
