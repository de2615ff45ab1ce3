-- ===== src/AuditMerkle/Binding.antt =====
-- What a root commits to. Nothing is assumed of the hash: each theorem gives what it claims or a collision,
-- two different pairs of digests with one hash. Digests are compared as texts, so that two ways to write
-- the same bytes in hexadecimal also are a collision.
use dukapay.Base.{
  ℕ, zero, suc, ◌*◌, ◌≤◌, ◌≡◌, refl, sym, ap, ◌∙◌, ◌⊎◌, inl, inr, true, false, List, [], ◌∷◌, ◌++◌,
  length, length-append, arith, ◌-◌, Bool-cases,
}
use dukapay.AuditMerkle.{
  Sha256, Position, left, right, combine, MerkleStep, ok, next_level, root_from, merkle_root,
  verify_step, verify_from, verify_merkle_proof,
}
use dukapay.AuditMerkle.Complete.{length-next_level}

module _ (sha : Sha256) where
  open sha use {Digest, of_pair, equal, equal_iff}

  pub record Collision : Type 0 where
    pub a : Digest
    pub b : Digest
    pub c : Digest
    pub d : Digest
    pub same : of_pair a b ≡ of_pair c d
    pub differ : ¬ ((a ≡ c) × (b ≡ d))

  of_pair-binding : (a b c d : Digest) → of_pair a b ≡ of_pair c d → ((a ≡ c) × (b ≡ d)) ⊎ Collision
  of_pair-binding a b c d e = elim (Bool-cases (equal a c)) [
    | inl ac ↦ elim (Bool-cases (equal b d)) [
      | inl bd ↦ inl ((equal_iff a c).0 ac, (equal_iff b d).0 bd)
      | inr bd ↦
          inr
            (record { a = a; b = b; c = c; d = d; same = e; differ = λ h. absurd_test b d bd h.1 })
    ]
    | inr ac ↦
        inr (record { a = a; b = b; c = c; d = d; same = e; differ = λ h. absurd_test a c ac h.0 })
  ]
    where
      absurd_test : (x y : Digest) → equal x y ≡ false → x ≡ y → ⊥
      absurd_test x y no_match e' = let yes_match = (equal_iff x y).1 e' in cc

  combine-binding :
      (p : Position) (h x y : Digest) → combine sha p h x ≡ combine sha p h y → (x ≡ y) ⊎ Collision
  unfolding combine
  combine-binding left h x y e = elim (of_pair-binding h x h y e) [
    | inl same ↦ inl same.1
    | inr found ↦ inr found
  ]
  combine-binding right h x y e = elim (of_pair-binding x h y h e) [
    | inl same ↦ inl same.0
    | inr found ↦ inr found
  ]

  verify_from-binding :
      (proof : List (MerkleStep Digest)) (x y : Digest)
      → verify_from sha x proof ≡ verify_from sha y proof
      → (x ≡ y) ⊎ Collision
  unfolding verify_from verify_step
  verify_from-binding [] x y e = inl e
  verify_from-binding (s ∷ proof) x y e =
      elim (verify_from-binding proof (verify_step sha x s) (verify_step sha y s) e) [
        | inl same ↦ combine-binding s.position s.hash x y same
        | inr found ↦ inr found
      ]

  -- Two leaf hashes that one and the same proof verifies against one root are equal, or two different
  -- pairs of digests have one hash.
  pub verify_merkle_proof-binding :
      (proof : List (MerkleStep Digest)) (root x y : Digest)
      → verify_merkle_proof sha x proof root ≡ true
      → verify_merkle_proof sha y proof root ≡ true
      → (x ≡ y) ⊎ Collision
  unfolding verify_merkle_proof
  verify_merkle_proof-binding proof root x y p q =
      verify_from-binding proof x y ((equal_iff _ _).0 p ∙ sym ((equal_iff _ _).0 q))

  next_level-binding :
      (xs ys : List Digest)
      → length xs ≡ length ys
      → next_level sha xs ≡ next_level sha ys
      → (xs ≡ ys) ⊎ Collision
  unfolding next_level
  next_level-binding [] [] n e = inl refl
  next_level-binding (x ∷ []) (y ∷ []) n e = elim (of_pair-binding x x y y (cc)) [
    | inl same ↦ inl (ap (λ z. z ∷ []) same.0)
    | inr found ↦ inr found
  ]
  next_level-binding (x ∷ x' ∷ xs) (y ∷ y' ∷ ys) n e = elim (of_pair-binding x x' y y' (cc)) [
    | inl same ↦ elim (next_level-binding xs ys (omega arith) (cc)) [
      | inl rest ↦ inl (cc)
      | inr found ↦ inr found
    ]
    | inr found ↦ inr found
  ]
  next_level-binding [] (y ∷ ys) n e = absurd (omega arith)
  next_level-binding (x ∷ xs) [] n e = absurd (omega arith)
  next_level-binding (x ∷ []) (y ∷ y' ∷ ys) n e = absurd (omega arith)
  next_level-binding (x ∷ x' ∷ xs) (y ∷ []) n e = absurd (omega arith)

  length-next_level_eq :
      (xs ys : List Digest)
      → length xs ≡ length ys
      → length (next_level sha xs) ≡ length (next_level sha ys)
  unfolding next_level
  length-next_level_eq [] [] n = refl
  length-next_level_eq (x ∷ []) (y ∷ []) n = refl
  length-next_level_eq (x ∷ x' ∷ xs) (y ∷ y' ∷ ys) n =
      ap suc (length-next_level_eq xs ys (omega arith))
  length-next_level_eq [] (y ∷ ys) n = absurd (omega arith)
  length-next_level_eq (x ∷ xs) [] n = absurd (omega arith)
  length-next_level_eq (x ∷ []) (y ∷ y' ∷ ys) n = absurd (omega arith)
  length-next_level_eq (x ∷ x' ∷ xs) (y ∷ []) n = absurd (omega arith)

  root_from-binding :
      (fuel : ℕ) (xs ys : List Digest) (r : Digest)
      → length xs ≡ length ys
      → root_from sha fuel xs ≡ ok r
      → root_from sha fuel ys ≡ ok r
      → (xs ≡ ys) ⊎ Collision
  unfolding root_from
  root_from-binding fuel [] ys r n p q = cc
  root_from-binding fuel (x ∷ xs) [] r n p q = cc
  root_from-binding fuel (x ∷ []) (y ∷ []) r n p q = inl (cc)
  root_from-binding fuel (x ∷ []) (y ∷ y' ∷ ys) r n p q = absurd (omega arith)
  root_from-binding fuel (x ∷ x' ∷ xs) (y ∷ []) r n p q = absurd (omega arith)
  root_from-binding zero (x ∷ x' ∷ xs) (y ∷ y' ∷ ys) r n p q = cc
  root_from-binding (suc fuel) (x ∷ x' ∷ xs) (y ∷ y' ∷ ys) r n p q =
      elim (root_from-binding fuel (next_level sha (x ∷ x' ∷ xs)) (next_level sha (y ∷ y' ∷ ys)) r
        (length-next_level_eq (x ∷ x' ∷ xs) (y ∷ y' ∷ ys) n) p q) [
          | inl same ↦ next_level-binding (x ∷ x' ∷ xs) (y ∷ y' ∷ ys) n same
          | inr found ↦ inr found
        ]

  -- Two epochs with as many leaves and the same root have the same leaves in the same order, or
  -- SHA-256 has a collision.
  pub merkle_root-binding :
      (xs ys : List Digest) (r : Digest)
      → length xs ≡ length ys
      → merkle_root sha xs ≡ ok r
      → merkle_root sha ys ≡ ok r
      → (xs ≡ ys) ⊎ Collision
  unfolding merkle_root
  merkle_root-binding [] [] r n p q = inl refl
  merkle_root-binding (x ∷ xs) (y ∷ ys) r n p q =
      let same : length ys ≡ length xs = omega arith in
      root_from-binding (length xs) (x ∷ xs) (y ∷ ys) r n p (rw same at q)
  merkle_root-binding [] (y ∷ ys) r n p q = absurd (omega arith)
  merkle_root-binding (x ∷ xs) [] r n p q = absurd (omega arith)

  root_from_total :
      (fuel : ℕ) (x : Digest) (xs : List Digest)
      → length xs ≤ fuel
      → (r : Digest) × (root_from sha fuel (x ∷ xs) ≡ ok r)
        × (root_from sha (suc fuel) (x ∷ xs) ≡ ok r)
  unfolding root_from next_level
  root_from_total fuel x [] h = (x, refl, refl)
  root_from_total zero x (y ∷ xs) h = absurd (omega arith)
  root_from_total (suc fuel) x (y ∷ xs) h =
      root_from_total fuel (of_pair x y) (next_level sha xs)
        (omega (arith, length-next_level sha xs))

  next_level_repeat :
      (n : ℕ) (xs : List Digest) (x : Digest)
      → length xs ≡ n * 2
      → next_level sha (xs ++ x ∷ x ∷ []) ≡ next_level sha (xs ++ x ∷ [])
  unfolding next_level
  next_level_repeat n [] x e = refl
  next_level_repeat n (a ∷ []) x e = absurd (omega arith)
  next_level_repeat n (a ∷ b ∷ xs) x e =
      ap (λ l. of_pair a b ∷ l) (next_level_repeat (n - 1) xs x (omega arith))

  -- The number of leaves is not in the root: where an odd number of leaves (three or more) ends in
  -- `x`, repeating `x` gives the same root.
  pub merkle_root_repeat :
      (n : ℕ) (a b x : Digest) (xs : List Digest)
      → length xs ≡ n * 2
      → merkle_root sha (a ∷ b ∷ xs ++ x ∷ x ∷ []) ≡ merkle_root sha (a ∷ b ∷ xs ++ x ∷ [])
  unfolding merkle_root root_from next_level
  merkle_root_repeat n a b x xs e =
      let longer : length (xs ++ x ∷ x ∷ []) ≡ suc (length (xs ++ x ∷ [])) =
        omega (arith, length-append {0} xs (x ∷ x ∷ []), length-append {0} xs (x ∷ [])) in
      let (r, short, long) =
        root_from_total (length (xs ++ x ∷ [])) (of_pair a b) (next_level sha (xs ++ x ∷ []))
          (omega (arith, length-next_level sha (xs ++ x ∷ []), length-append {0} xs (x ∷ []))) in
      ap (λ f. root_from sha f (of_pair a b ∷ next_level sha (xs ++ x ∷ x ∷ []))) longer
      ∙ ap (λ l. root_from sha (suc (length (xs ++ x ∷ []))) (of_pair a b ∷ l))
          (next_level_repeat n xs x e)
      ∙ long
      ∙ sym short
