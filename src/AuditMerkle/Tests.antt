-- ===== src/AuditMerkle/Tests.antt =====
-- The Merkle theorems at a concrete tree. The hash keeps the tree that it was given, so two trees
-- have one digest only if they are equal.
use dukapay.Base.{
  All, ℕ, zero, suc, none, some, ◌≡◌, ◌↔◌, ◌⊎◌, refl, Bool, true, false, ◌&&◌, List, [], ◌∷◌,
  length, arith, ◌==◌,
}
use dukapay.AuditMerkle.{
  Sha256, MerkleStep, left, right, ok, merkle_root, merkle_proof, verify_merkle_proof, root_from,
  next_level, proof_from, proof_step, sibling_index, verify_from, verify_step, combine,
}
use dukapay.AuditMerkle.Epochs.{
  AuditLog, AuditDb, Change, writes, seals, has_leaf, has_epoch, trunc_hour, get_proof, change_all,
  no_rows,
}
use dukapay.AuditMerkle.Anchor.{Anchor, Chain, failed, answered, success, anchor_all}
use dukapay.AuditMerkle.Accounts.{IsAccounted}
use dukapay.AuditMerkle.Anchored.{anchor_all-IsAccounted}
use dukapay.AuditMerkle.Sealed.{IsAnswer, get_proof-change_all}
use dukapay.AuditMerkle.Late.{seal_all, has_leaf-seal_all}
use dukapay.AuditMerkle.Complete.{verify-merkle_proof}
use dukapay.AuditMerkle.Binding.{Collision, verify_merkle_proof-binding, merkle_root-binding}

data Tree : Type 0 where
  leaf : ℕ → Tree
  node : Tree → Tree → Tree

tree_equal : Tree → Tree → Bool
tree_equal (leaf a) (leaf b) = a == b
tree_equal (node a b) (node c d) = tree_equal a c && tree_equal b d
tree_equal _ _ = false

tree_equal_sound : (a b : Tree) → tree_equal a b ≡ true → a ≡ b
unfolding tree_equal
tree_equal_sound (leaf a) (leaf b) h = ground arith
tree_equal_sound (node a b) (node c d) h =
    ground (arith, tree_equal_sound a c, tree_equal_sound b d)
tree_equal_sound (leaf a) (node c d) h = cc
tree_equal_sound (node a b) (leaf d) h = cc

tree_equal_refl : (a : Tree) → tree_equal a a ≡ true
unfolding tree_equal
tree_equal_refl (leaf a) = ground arith
tree_equal_refl (node a b) = ground (arith, tree_equal_refl a, tree_equal_refl b)

tree_equal_iff : (a b : Tree) → (tree_equal a b ≡ true) ↔ (a ≡ b)
tree_equal_iff a b = (tree_equal_sound a b, λ e. rw e (tree_equal_refl b))

abbrev trees : Sha256
trees = record {
  Digest = Tree;
  of_text = λ s. leaf (length s);
  of_pair = node;
  equal = tree_equal;
  equal_iff = tree_equal_iff;
}

abbrev three : List Tree
three = leaf 1 ∷ leaf 2 ∷ leaf 3 ∷ []

abbrev path : List (MerkleStep Tree)
path =
    record { position = right; hash = leaf 3 }
    ∷ record { position = left; hash = node (leaf 1) (leaf 2) }
    ∷ []

abbrev root : Tree
root = node (node (leaf 1) (leaf 2)) (node (leaf 3) (leaf 3))

three_runs : (merkle_root trees three ≡ ok root) × (merkle_proof trees three 2 ≡ ok path)
unfolding merkle_root root_from next_level merkle_proof proof_from proof_step sibling_index
three_runs = (refl, refl)

verify-merkle_proof_example :
    (proof : List (MerkleStep Tree)) × (r : Tree) × (merkle_proof trees three 2 ≡ ok proof)
    × (merkle_root trees three ≡ ok r)
    × (verify_merkle_proof trees (leaf 3) proof r ≡ true)
verify-merkle_proof_example = verify-merkle_proof trees three 2 (leaf 3) refl

path_verifies : verify_merkle_proof trees (leaf 3) path root ≡ true
unfolding verify_merkle_proof verify_from verify_step combine tree_equal
path_verifies = refl

verify_merkle_proof-binding_example : (leaf 3 ≡ leaf 3) ⊎ Collision trees
verify_merkle_proof-binding_example =
    verify_merkle_proof-binding trees path root (leaf 3) (leaf 3) path_verifies path_verifies

merkle_root-binding_example : (three ≡ three) ⊎ Collision trees
merkle_root-binding_example =
    merkle_root-binding trees three three root refl three_runs.0 three_runs.0

abbrev entry : ℕ → ℕ → AuditLog
entry id t = record {
  id = id;
  actor = some 4;
  action = some 5;
  target = none;
  payload = none;
  ip_address = none;
  status = none;
  created_at = t;
}

-- The text of an entry is as long as its id.
abbrev digits : ℕ → List ℕ
digits zero = []
digits (suc n) = n ∷ digits n

abbrev json : AuditLog → List ℕ
json log = digits log.id

abbrev written_day : List Change
written_day = writes (entry 0 100) ∷ writes (entry 0 200) ∷ seals 3600005 [] ∷ []

get_proof-change_all_example :
    IsAnswer trees json 2
      (has_leaf 2 (change_all trees json written_day (no_rows trees json)).leaves)
      (get_proof trees json 2 (change_all trees json written_day (no_rows trees json)))
get_proof-change_all_example = get_proof-change_all trees json written_day 2

-- The second entry came after the first hour was sealed.
abbrev late_db : AuditDb Tree
late_db = record {
  logs = entry 1 100 ∷ entry 2 200 ∷ [];
  next_log = 3;
  epochs =
      record { id = 1; epoch_start = 0; epoch_end = 3600000; root = leaf 1; leaf_count = 1 } ∷ [];
  next_epoch = 2;
  leaves = record { epoch_id = 1; log_id = 1; leaf_index = 0; leaf_hash = leaf 1 } ∷ [];
}

has_leaf-seal_all_example :
    has_leaf 2
      (seal_all trees json (entry 2 200) ((7200005, []) ∷ (10800005, []) ∷ []) late_db).leaves
    ≡ false
unfolding has_leaf has_epoch trunc_hour
has_leaf-seal_all_example =
    has_leaf-seal_all trees json (entry 2 200) ((7200005, []) ∷ (10800005, []) ∷ []) late_db
      (refl, (refl, ((λ e. absurd (one_is_two e)), ((λ e. refl), tt))))
  where
    one_is_two : ◌≡◌ {A = ℕ} 1 2 → ⊥
    one_is_two e = omega arith

abbrev unanchored_epoch : Anchor Tree
unanchored_epoch = record {
  id = 1;
  epoch_start = 0;
  root = leaf 1;
  leaf_count = 1;
  stellar_tx_hash = none;
  anchor_status = failed;
}

abbrev chain : Chain Tree
chain = record {
  epochs = unanchored_epoch ∷ [];
  failing = [];
  submissions = answered 77 ∷ [];
  polls = some success ∷ [];
  configured = true;
  sent = [];
  confirmed = [];
}

anchor_all-IsAccounted_example :
    All
      (IsAccounted (anchor_all chain).1.sent (anchor_all chain).1.confirmed)
      (anchor_all chain).1.epochs
anchor_all-IsAccounted_example =
    anchor_all-IsAccounted chain ((tt, tt), tt) (((λ e h. refl), tt), tt)
