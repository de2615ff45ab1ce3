-- ===== src/Base/Lists.antt =====
-- Lists measured and indexed by native numbers, under the library's names.
use Prim.Native.Nat.{ℕ, zero, suc, ◌+◌}
use mathlib.Core.Path.{◌≡◌, refl, ap}
use mathlib.Core.Bool.{Bool, true, false, ◌&&◌, ◌||◌}
use mathlib.Core.List.{List, [], ◌∷◌, ◌++◌, map}
use mathlib.Core.Option.{Option, none, some}
use native.Mathlib.Omega.{arith}

module _ {ℓ} {A : Type ℓ} where
  abbrev pub length : List A → ℕ
  length [] = 0
  length (x ∷ xs) = suc (length xs)

  abbrev pub get_elem? : List A → ℕ → Option A
  get_elem? [] i = none
  get_elem? (x ∷ xs) zero = some x
  get_elem? (x ∷ xs) (suc i) = get_elem? xs i

  -- A write out of bounds changes nothing.
  abbrev pub set : List A → ℕ → A → List A
  set [] i v = []
  set (x ∷ xs) zero v = v ∷ xs
  set (x ∷ xs) (suc i) v = x ∷ set xs i v

  abbrev pub replicate : ℕ → A → List A
  replicate zero a = []
  replicate (suc n) a = a ∷ replicate n a

  abbrev pub take : ℕ → List A → List A
  take zero xs = []
  take (suc n) [] = []
  take (suc n) (x ∷ xs) = x ∷ take n xs

  abbrev pub drop : ℕ → List A → List A
  drop zero xs = xs
  drop (suc n) [] = []
  drop (suc n) (x ∷ xs) = drop n xs

  abbrev pub any : (A → Bool) → List A → Bool
  any p [] = false
  any p (x ∷ xs) = p x || any p xs

  abbrev pub all : (A → Bool) → List A → Bool
  all p [] = true
  all p (x ∷ xs) = p x && all p xs

module _ {ℓ} {A : Type ℓ} where
  pub length-append : (xs ys : List A) → length (xs ++ ys) ≡ length xs + length ys
  length-append [] ys = omega arith
  length-append (x ∷ xs) ys = omega (arith, length-append xs ys)

  pub length-set : (xs : List A) (i : ℕ) (v : A) → length (set xs i v) ≡ length xs
  length-set [] i v = refl
  length-set (x ∷ xs) zero v = refl
  length-set (x ∷ xs) (suc i) v = ap suc (length-set xs i v)

  pub length-map {κ} : {B : Type κ} (xs : List A) (f : A → B) → length (map f xs) ≡ length xs
  length-map [] f = refl
  length-map (x ∷ xs) f = ap suc (length-map xs f)

-- A predicate on every member, by recursion: it computes to tuples.
module _ {ℓ κ} {A : Type ℓ} (P : A → Type κ) where
  abbrev pub All : List A → Type κ
  All [] = Unit
  All (x ∷ xs) = P x × All xs

module _ {ℓ κ} {A : Type ℓ} where
  pub All-map : (P Q : A → Type κ) (xs : List A) → ((x : A) → P x → Q x) → All P xs → All Q xs
  All-map P Q [] h a = tt
  All-map P Q (x ∷ xs) h (p, a) = (h x p, All-map P Q xs h a)

  pub All-zip : (P Q : A → Type κ) (xs : List A) → All P xs → All Q xs → All (λ x. P x × Q x) xs
  All-zip P Q [] a b = tt
  All-zip P Q (x ∷ xs) (p, a) (q, b) = ((p, q), All-zip P Q xs a b)
