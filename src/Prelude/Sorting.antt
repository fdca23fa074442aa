-- ===== src/Prelude/Sorting.antt =====
-- `Array.prototype.sort`: a stable sort by a comparison, here by insertion. `le a b` is
-- `compare(a, b) <= 0`.
use achichiz_back_end.Prelude.Tests.{if◌then◌else◌, Bool-cases}
use achichiz_back_end.Prelude.Lists.{All, All-implies, Distinct, length, sum_by}
use Prim.Native.Nat.{ℕ, suc, ◌+◌}
use mathlib.Core.Path.{◌≡◌, sym}
use mathlib.Core.Bool.{Bool, true, false}
use mathlib.Core.Logic.{◌≢◌, inl, inr}
use mathlib.Core.List.{List, [], ◌∷◌, Perm}
use mathlib.Core.List.Perm
use native.Mathlib.Omega.{arith}

module _ {ℓ} {A : Type ℓ} (le : A → A → Bool) where
  pub insert_sorted : A → List A → List A
  insert_sorted x [] = x ∷ []
  insert_sorted x (y ∷ ys) = if le x y then x ∷ y ∷ ys else y ∷ insert_sorted x ys

  unfoldable pub sort : List A → List A
  unfolding insert_sorted
  sort [] = []
  sort (x ∷ xs) = insert_sorted x (sort xs)

  abbrev pub IsSorted : List A → Type ℓ
  IsSorted [] = Unit
  IsSorted (x ∷ xs) = All (λ y. le x y ≡ true) xs × IsSorted xs

module _ {ℓ} {A : Type ℓ} (le : A → A → Bool) where
  insert_sorted-perm : (x : A) (ys : List A) → Perm (insert_sorted le x ys) (x ∷ ys)
  unfolding insert_sorted
  insert_sorted-perm x [] = Perm.refl (x ∷ [])
  insert_sorted-perm x (y ∷ ys) = elim (Bool-cases (le x y)) [
    | inl e ↦ rw e (Perm.refl _)
    | inr e ↦ rw e (Perm.trans (Perm.cons y (insert_sorted-perm x ys)) (Perm.swap x y ys))
  ]

  -- The result holds the same elements.
  pub sort-perm : (xs : List A) → Perm (sort le xs) xs
  unfolding sort
  sort-perm [] = Perm.refl []
  sort-perm (x ∷ xs) = Perm.trans (insert_sorted-perm x (sort le xs)) (Perm.cons x (sort-perm xs))

  insert_sorted-All {κ} :
      (P : A → Type κ) (x : A) (ys : List A) → P x → All P ys → All P (insert_sorted le x ys)
  unfolding insert_sorted
  insert_sorted-All P x [] p h = (p, tt)
  insert_sorted-All P x (y ∷ ys) p (q, h) = elim (Bool-cases (le x y)) [
    | inl e ↦ rw e (p, (q, h))
    | inr e ↦ rw e (q, insert_sorted-All P x ys p h)
  ]

  pub sort-All {κ} : (P : A → Type κ) (xs : List A) → All P xs → All P (sort le xs)
  unfolding sort
  sort-All P [] h = tt
  sort-All P (x ∷ xs) (p, h) = insert_sorted-All P x (sort le xs) p (sort-All P xs h)

  insert_sorted-sum :
      (f : A → ℕ) (x : A) (ys : List A) → sum_by f (insert_sorted le x ys) ≡ f x + sum_by f ys
  unfolding insert_sorted
  insert_sorted-sum f x [] = omega arith
  insert_sorted-sum f x (y ∷ ys) = ground (arith, insert_sorted-sum f x ys)

  pub sort-sum : (f : A → ℕ) (xs : List A) → sum_by f (sort le xs) ≡ sum_by f xs
  unfolding sort
  sort-sum f [] = omega arith
  sort-sum f (x ∷ xs) = omega (arith, insert_sorted-sum f x (sort le xs), sort-sum f xs)

  insert_sorted-length : (x : A) (ys : List A) → length (insert_sorted le x ys) ≡ suc (length ys)
  unfolding insert_sorted
  insert_sorted-length x [] = omega arith
  insert_sorted-length x (y ∷ ys) = ground (arith, insert_sorted-length x ys)

  pub sort-length : (xs : List A) → length (sort le xs) ≡ length xs
  unfolding sort
  sort-length [] = omega arith
  sort-length (x ∷ xs) = omega (arith, insert_sorted-length x (sort le xs), sort-length xs)

  insert_sorted-Distinct :
      (key : A → ℕ) (x : A) (ys : List A)
      → All (λ y. key x ≢ key y) ys
      → Distinct key ys
      → Distinct key (insert_sorted le x ys)
  unfolding insert_sorted
  insert_sorted-Distinct key x [] n d = (tt, tt)
  insert_sorted-Distinct key x (y ∷ ys) (n, ns) (d, ds) = elim (Bool-cases (le x y)) [
    | inl e ↦ rw e ((n, ns), (d, ds))
    | inr e ↦ rw e (
      insert_sorted-All (λ z. key y ≢ key z) x ys (λ p. n (sym p)) d,
      insert_sorted-Distinct key x ys ns ds,
    )
  ]

  pub sort-Distinct : (key : A → ℕ) (xs : List A) → Distinct key xs → Distinct key (sort le xs)
  unfolding sort
  sort-Distinct key [] d = tt
  sort-Distinct key (x ∷ xs) (n, d) =
      insert_sorted-Distinct key x (sort le xs) (sort-All (λ y. key x ≢ key y) xs n)
        (sort-Distinct key xs d)

  module _ (le_total : (x y : A) → le x y ≡ false → le y x ≡ true)
      (le_trans : (x y z : A) → le x y ≡ true → le y z ≡ true → le x z ≡ true) where
    insert_sorted-IsSorted :
        (x : A) (ys : List A) → IsSorted le ys → IsSorted le (insert_sorted le x ys)
    unfolding insert_sorted
    insert_sorted-IsSorted x [] s = (tt, tt)
    insert_sorted-IsSorted x (y ∷ ys) (h, s) = elim (Bool-cases (le x y)) [
      | inl e ↦ rw e ((e, All-implies _ _ ys (λ z q. le_trans x y z e q) h), (h, s))
      | inr e ↦ rw e (
        insert_sorted-All (λ z. le y z ≡ true) x ys (le_total x y e) h,
        insert_sorted-IsSorted x ys s,
      )
    ]

    -- Under a total and transitive comparison the result is in order.
    pub sort-IsSorted : (xs : List A) → IsSorted le (sort le xs)
    unfolding sort
    sort-IsSorted [] = tt
    sort-IsSorted (x ∷ xs) = insert_sorted-IsSorted x (sort le xs) (sort-IsSorted xs)
