-- ===== src/Base/NoRepeat.antt =====
-- Lists without repetition, and what a loop that keeps the items seen so far learns of them.
use Prim.Native.Nat.{suc, ◌≤◌}
use mathlib.Core.Path.{◌≡◌, refl}
use mathlib.Core.Bool.{true, false}
use mathlib.Core.List.{List, [], ◌∷◌}
use native.Mathlib.Omega.{arith}
use zoraxy_cert_warden.Base.Equality.{Eq, contains, ◌==◌, if◌then◌else◌}
use zoraxy_cert_warden.Base.Lists.{length}

module _ {ℓ} {A : Type ℓ} ⦃e : Eq A⦄ where
  -- No item stands twice.
  abbrev pub Distinct : List A → Type 0
  Distinct [] = Unit
  Distinct (x ∷ xs) = (contains xs x ≡ false) × Distinct xs

  -- No item of the second list stands in the first.
  abbrev pub Fresh : List A → List A → Type 0
  Fresh seen [] = Unit
  Fresh seen (x ∷ xs) = (contains seen x ≡ false) × Fresh seen xs

  pub Fresh-nil : (xs : List A) → Fresh [] xs
  Fresh-nil [] = tt
  Fresh-nil (x ∷ xs) = (refl, Fresh-nil xs)

  Fresh-add :
      (seen : List A) (x : A) (xs : List A)
      → Fresh seen xs
      → contains xs x ≡ false
      → Fresh (x ∷ seen) xs
  Fresh-add seen x [] f n = tt
  Fresh-add seen x (y ∷ xs) f n = (ground arith, Fresh-add seen x xs f.1 (ground arith))

  Fresh-drop : (seen : List A) (x : A) (xs : List A) → Fresh (x ∷ seen) xs → Fresh seen xs
  Fresh-drop seen x [] f = tt
  Fresh-drop seen x (y ∷ xs) f = (ground arith, Fresh-drop seen x xs f.1)

  Fresh-absent : (seen : List A) (x : A) (xs : List A) → Fresh (x ∷ seen) xs → contains xs x ≡ false
  Fresh-absent seen x [] f = refl
  Fresh-absent seen x (y ∷ xs) f = ground (arith, Fresh-absent seen x xs f.1)

  -- The items are new to those seen, and differ from one another.
  abbrev pub NewTo : List A → List A → Type 0
  NewTo seen xs = Fresh seen xs × Distinct xs

  pub NewTo-cons :
      (seen : List A) (x : A) (xs : List A)
      → contains seen x ≡ false
      → NewTo (x ∷ seen) xs
      → NewTo seen (x ∷ xs)
  NewTo-cons seen x xs n (f, d) = ((n, Fresh-drop seen x xs f), (Fresh-absent seen x xs f, d))

  pub NewTo-uncons :
      (seen : List A) (x : A) (xs : List A)
      → NewTo seen (x ∷ xs)
      → (contains seen x ≡ false) × NewTo (x ∷ seen) xs
  NewTo-uncons seen x xs ((n, f), (a, d)) = (n, (Fresh-add seen x xs f a, d))

  -- The list without the first such item.
  abbrev without : A → List A → List A
  without x [] = []
  without x (y ∷ ys) = let rest = without x ys in if y == x then ys else y ∷ rest

  length-without :
      (x : A) (ys : List A) → contains ys x ≡ true → length ys ≡ suc (length (without x ys))
  length-without x [] c = cc
  length-without x (y ∷ ys) c = ground (arith, length-without x ys)

  contains-without :
      (x z : A) (ys : List A)
      → (z ≡ x → ⊥)
      → contains ys z ≡ true
      → contains (without x ys) z ≡ true
  contains-without x z [] d c = c
  contains-without x z (y ∷ ys) d c = ground (arith, contains-without x z ys d)

  -- A list without repetition is no longer than a list that has all its items.
  pub Distinct-length :
      (xs ys : List A)
      → Distinct xs
      → ((x : A) → contains xs x ≡ true → contains ys x ≡ true)
      → length xs ≤ length ys
  Distinct-length [] ys d sub = omega arith
  Distinct-length (x ∷ xs) ys d sub =
      let c = sub x (ground arith) in
      let l = length-without x ys c in
      let i =
        Distinct-length xs (without x ys) d.1
          (λ z m. contains-without x z ys (λ e. ground arith) (sub z (ground arith))) in
      omega (arith, l, i)
