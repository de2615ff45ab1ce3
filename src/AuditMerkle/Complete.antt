-- ===== src/AuditMerkle/Complete.antt =====
-- The proofs of `merkleProof` against the root of `merkleRoot`.
use dukapay.Base.{
  ℕ, zero, suc, ◌+◌, ◌*◌, ◌/◌, ◌%◌, ◌<◌, ◌≤◌, ◌≡◌, refl, ◌∙◌, lt→ltb, true, some, List, [], ◌∷◌,
  length, get_elem?, arith,
}
use dukapay.AuditMerkle.{
  Sha256, left, right, MerkleStep, ok, next_level, root_from, merkle_root, is_even, sibling_index,
  proof_step, proof_from, merkle_proof, verify_step, verify_from, verify_merkle_proof,
}

is_even_shift : (i : ℕ) → is_even (suc (suc i)) ≡ is_even i
unfolding is_even
is_even_shift i = let same : suc (suc i) % 2 ≡ i % 2 = omega arith in rw same

sibling_index_shift : (i : ℕ) → sibling_index (suc (suc i)) ≡ suc (suc (sibling_index i))
unfolding sibling_index
sibling_index_shift i = ground arith

module _ (sha : Sha256) where
  open sha use {Digest, of_text, of_pair, equal, equal_iff}

  pub length-next_level :
      (level : List Digest) → length (next_level sha level) * 2 ≤ length level + 1
  unfolding next_level
  length-next_level [] = omega arith
  length-next_level (x ∷ []) = omega arith
  length-next_level (x ∷ y ∷ level) = omega (arith, length-next_level level)

  proof_step_shift :
      (a b : Digest) (level : List Digest) (i : ℕ)
      → proof_step sha (a ∷ b ∷ level) (suc (suc i)) ≡ proof_step sha level i
  unfolding proof_step
  proof_step_shift a b level i = simp (sibling_index_shift, is_even_shift)

  -- The proof step at an index combines the entry there into the entry above it.
  proof_step_lem :
      (level : List Digest) (i : ℕ) (x : Digest)
      → get_elem? level i ≡ some x
      → (s : MerkleStep Digest) × (proof_step sha level i ≡ ok s)
        × (get_elem? (next_level sha level) (i / 2) ≡ some (verify_step sha x s))
  unfolding next_level proof_step verify_step is_even sibling_index
  proof_step_lem [] i x e = cc
  proof_step_lem (a ∷ []) zero x e = (record { position = right; hash = a }, refl, cc)
  proof_step_lem (a ∷ []) (suc i) x e = cc
  proof_step_lem (a ∷ b ∷ level) zero x e = (record { position = right; hash = b }, refl, cc)
  proof_step_lem (a ∷ b ∷ level) (suc zero) x e = (record { position = left; hash = a }, refl, cc)
  proof_step_lem (a ∷ b ∷ level) (suc (suc i)) x e =
      let (s, step, above) = proof_step_lem level i x e in
      let half : suc (suc i) / 2 ≡ suc (i / 2) = omega arith in
      (s, proof_step_shift a b level i ∙ step, rw half above)

  -- The proof and the root of a tree that has an entry at an index, and the root of the proof.
  climb :
      (fuel i : ℕ) (level : List Digest) (x : Digest)
      → get_elem? level i ≡ some x
      → length level ≤ suc fuel
      → (proof : List (MerkleStep Digest)) × (proof_from sha (suc fuel) i level ≡ ok proof)
        × (root_from sha fuel level ≡ ok (verify_from sha x proof))
  unfolding proof_from root_from verify_from
  climb fuel i [] x e h = cc
  climb fuel zero (a ∷ []) x e h = ([], refl, cc)
  climb fuel (suc i) (a ∷ []) x e h = cc
  climb zero i (a ∷ b ∷ level) x e h = absurd (omega arith)
  climb (suc fuel) i (a ∷ b ∷ level) x e h =
      let (s, step, above) = proof_step_lem (a ∷ b ∷ level) i x e in
      let (proof, rest, root) =
        climb fuel (i / 2) (next_level sha (a ∷ b ∷ level)) (verify_step sha x s) above
          (omega (arith, length-next_level (a ∷ b ∷ level))) in
      (s ∷ proof, rw step (rw rest refl), root)

  length-get_elem? :
      (level : List Digest) (i : ℕ) (x : Digest) → get_elem? level i ≡ some x → i < length level
  length-get_elem? [] i x e = cc
  length-get_elem? (a ∷ level) zero x e = omega arith
  length-get_elem? (a ∷ level) (suc i) x e = omega (arith, length-get_elem? level i x e)

  -- For every index that holds a leaf, both loops end, and the proof that `merkleProof` returns
  -- leads from the leaf to the root that `merkleRoot` returns, so that `verifyMerkleProof` accepts.
  pub verify-merkle_proof :
      (leaves : List Digest) (i : ℕ) (leaf : Digest)
      → get_elem? leaves i ≡ some leaf
      → (proof : List (MerkleStep Digest)) × (root : Digest) × (merkle_proof sha leaves i
          ≡ ok proof)
        × (merkle_root sha leaves ≡ ok root)
        × (verify_merkle_proof sha leaf proof root ≡ true)
  unfolding merkle_proof merkle_root verify_merkle_proof
  verify-merkle_proof [] i leaf e = cc
  verify-merkle_proof (a ∷ leaves) i leaf e =
      let (proof, found, root) = climb (length leaves) i (a ∷ leaves) leaf e (omega arith) in
      (
        proof,
        verify_from sha leaf proof,
        rw (lt→ltb i (suc (length leaves)) (length-get_elem? (a ∷ leaves) i leaf e)) found,
        root,
        (equal_iff _ _).1 refl,
      )
