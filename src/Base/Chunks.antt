-- ===== src/Base/Chunks.antt =====
-- A list taken off in pieces.
use Prim.Native.Nat.{ℕ, zero, suc, ◌+◌, ◌-◌, min}
use mathlib.Core.Path.{◌≡◌, refl, ap}
use mathlib.Core.List.{List, [], ◌∷◌, ◌++◌}
use native.Mathlib.Omega.{arith}
use online_auction_system.Base.Lists.{length, take, drop}

module _ {ℓ} {A : Type ℓ} where
  pub take-append-drop : (n : ℕ) (xs : List A) → take n xs ++ drop n xs ≡ xs
  take-append-drop zero xs = refl
  take-append-drop (suc n) [] = refl
  take-append-drop (suc n) (x ∷ xs) = ap (λ ys. x ∷ ys) (take-append-drop n xs)

  take_nil : (n : ℕ) → take {A = A} n [] ≡ []
  take_nil zero = refl
  take_nil (suc n) = refl

  drop_nil : (n : ℕ) → drop {A = A} n [] ≡ []
  drop_nil zero = refl
  drop_nil (suc n) = refl

  -- Two pieces that are read one after the other are one piece.
  pub take-append-take :
      (m n t : ℕ) (xs : List A) → m + n ≡ t → take m xs ++ take n (drop m xs) ≡ take t xs
  take-append-take zero n t xs e = let q : n ≡ t = omega arith in rw q refl
  take-append-take (suc m) n zero xs e = absurd (omega arith)
  take-append-take (suc m) n (suc t) [] e = rw (take_nil n) refl
  take-append-take (suc m) n (suc t) (x ∷ xs) e =
      ap (λ ys. x ∷ ys) (take-append-take m n t xs (omega arith))

  pub drop-drop : (m n t : ℕ) (xs : List A) → m + n ≡ t → drop n (drop m xs) ≡ drop t xs
  drop-drop zero n t xs e = let q : n ≡ t = omega arith in rw q refl
  drop-drop (suc m) n zero xs e = absurd (omega arith)
  drop-drop (suc m) n (suc t) [] e = rw (drop_nil n) refl
  drop-drop (suc m) n (suc t) (x ∷ xs) e = drop-drop m n t xs (omega arith)

  pub take-append_left : (xs ys : List A) → take (length xs) (xs ++ ys) ≡ xs
  take-append_left [] ys = refl
  take-append_left (x ∷ xs) ys = ap (λ zs. x ∷ zs) (take-append_left xs ys)

  pub drop-append_left : (xs ys : List A) → drop (length xs) (xs ++ ys) ≡ ys
  drop-append_left [] ys = refl
  drop-append_left (x ∷ xs) ys = drop-append_left xs ys

  -- To take `k` of the elements is to take as many as are there.
  pub take_capped : (k m : ℕ) (xs : List A) → m ≡ min k (length xs) → take k xs ≡ take m xs
  take_capped zero zero xs e = refl
  take_capped zero (suc m) xs e = absurd (omega arith)
  take_capped (suc k) m [] e = rw (take_nil m) refl
  take_capped (suc k) zero (x ∷ xs) e = absurd (omega arith)
  take_capped (suc k) (suc m) (x ∷ xs) e = ap (λ ys. x ∷ ys) (take_capped k m xs (omega arith))

  pub length-drop : (n : ℕ) (xs : List A) → length (drop n xs) ≡ length xs - n
  length-drop zero xs = omega arith
  length-drop (suc n) [] = omega arith
  length-drop (suc n) (x ∷ xs) = omega (arith, length-drop n xs)
