-- ===== src/AuditMerkle.antt =====
-- Merkle trees over the audit log: backend/src/services/auditMerkleService.ts.
-- SHA-256 and hexadecimal decoding are Node's: a `Sha256` stands for them.
pub mod Complete
pub mod Binding
pub mod Epochs
pub mod Tables
pub mod Inserted
pub mod Sealed
pub mod Late
pub mod Anchor
pub mod Accounts
pub mod Anchored
mod Tests
use dukapay.Base.{
  ℕ, zero, suc, ◌+◌, ◌-◌, ◌/◌, ◌%◌, ◌≡◌, ◌↔◌, Bool, true, false, Option, none, some, List, [], ◌∷◌,
  length, get_elem?, ltb, ◌==◌, if◌then◌else◌,
}

pub record Sha256 : Type 1 where
  pub Digest : Type 0
  -- `sha256(value)` of a text.
  pub of_text : List ℕ → Digest
  -- `sha256(Buffer.concat([Buffer.from(left, 'hex'), Buffer.from(right, 'hex')]))`.
  pub of_pair : Digest → Digest → Digest
  -- `===` on digests.
  pub equal : Digest → Digest → Bool
  pub equal_iff : (a b : Digest) → (equal a b ≡ true) ↔ (a ≡ b)

pub data Position : Type 0 where
  left right : Position

pub record MerkleStep (D : Type 0) : Type 0 where
  pub position : Position
  pub hash : D

-- `invalid_index` is thrown; `undefined_hash` is a read outside an array, and `out_of_fuel` a loop
-- that has not ended.
pub data Failure : Type 0 where
  invalid_index undefined_hash out_of_fuel : Failure

pub data Result (A : Type 0) : Type 0 where
  ok : A → Result A
  err : Failure → Result A

infixl 5 ◌>>=◌
abbrev pub ◌>>=◌ : {A B : Type 0} → Result A → (A → Result B) → Result B
ok a >>= f = f a
err e >>= f = err e

abbrev pub or_undefined : {A : Type 0} → Option A → Result A
or_undefined none = err undefined_hash
or_undefined (some a) = ok a

-- `a ?? b`.
abbrev pub or_else : {A : Type 0} → Option A → Result A → Result A
or_else none r = r
or_else (some a) r = ok a

-- `index % 2 === 0`.
unfoldable pub is_even : ℕ → Bool
is_even index = index % 2 == 0

unfoldable pub sibling_index : ℕ → ℕ
unfolding is_even
sibling_index index = if is_even index then index + 1 else index - 1

module _ (sha : Sha256) where
  open sha use {Digest, of_text, of_pair, equal}

  -- The inner `for` loop of `merkleRoot` and `merkleProof`: `level[index + 1] ?? left`.
  unfoldable pub next_level : List Digest → List Digest
  next_level [] = []
  next_level (x ∷ []) = of_pair x x ∷ []
  next_level (x ∷ y ∷ level) = of_pair x y ∷ next_level level

  -- `while (level.length > 1)`, and `level[0]!` behind it.
  unfoldable pub root_from : ℕ → List Digest → Result Digest
  root_from fuel [] = err undefined_hash
  root_from fuel (x ∷ []) = ok x
  root_from zero (x ∷ y ∷ level) = err out_of_fuel
  root_from (suc fuel) (x ∷ y ∷ level) = root_from fuel (next_level (x ∷ y ∷ level))

  -- A level of `n` entries takes fewer than `n` rounds.
  unfoldable pub merkle_root : List Digest → Result Digest
  merkle_root [] = ok (of_text [])
  merkle_root (x ∷ leaves) = root_from (length leaves) (x ∷ leaves)

  -- The step pushed for `index`, with `level[siblingIndex] ?? level[index]!`.
  unfoldable pub proof_step : List Digest → ℕ → Result (MerkleStep Digest)
  proof_step level index =
      let position = if is_even index then right else left in
      let own = or_undefined (get_elem? level index) in
      or_else (get_elem? level (sibling_index index)) own >>= λ h.
      ok (record { position = position; hash = h })

  -- `while (level.length > 1)` of `merkleProof`.
  unfoldable pub proof_from : ℕ → ℕ → List Digest → Result (List (MerkleStep Digest))
  proof_from fuel index [] = ok []
  proof_from fuel index (x ∷ []) = ok []
  proof_from zero index (x ∷ y ∷ level) = err out_of_fuel
  proof_from (suc fuel) index (x ∷ y ∷ level) = proof_step (x ∷ y ∷ level) index >>= λ step.
      proof_from fuel (index / 2) (next_level (x ∷ y ∷ level)) >>= λ rest. ok (step ∷ rest)

  unfoldable pub merkle_proof : List Digest → ℕ → Result (List (MerkleStep Digest))
  merkle_proof leaves leaf_index =
      if ltb leaf_index (length leaves)
      then proof_from (length leaves) leaf_index leaves
      else err invalid_index

  -- One round of the loop of `verifyMerkleProof`.
  unfoldable pub combine : Position → Digest → Digest → Digest
  combine left hash current = of_pair hash current
  combine right hash current = of_pair current hash

  unfoldable pub verify_step : Digest → MerkleStep Digest → Digest
  unfolding combine
  verify_step current step = combine step.position step.hash current

  unfoldable pub verify_from : Digest → List (MerkleStep Digest) → Digest
  verify_from current [] = current
  verify_from current (step ∷ proof) = verify_from (verify_step current step) proof

  unfoldable pub verify_merkle_proof : Digest → List (MerkleStep Digest) → Digest → Bool
  verify_merkle_proof leaf_hash proof expected_root =
      equal (verify_from leaf_hash proof) expected_root
