-- ===== src/Storage/Sorting.antt =====
-- slices.Sort and slices.SortFunc of the standard library, as an insertion sort: what the callers
-- rely on is that the result is an ordered permutation of the input.
use mathlib.Core.List.{Perm}
use mathlib.Core.List.Perm
use go_again.Prelude.{
  List, [], ◌∷◌, Bool, true, ◌≡◌, refl, ◌⊎◌, inl, inr, All, any_of, ◌||◌, if◌then◌else◌, arith, map,
  ap, Bool-cases,
}

module _ {ℓ} {A : Type ℓ} (le : A → A → Bool) where
  insert_by : A → List A → List A
  insert_by x [] = x ∷ []
  insert_by x (y ∷ ys) = if le x y then x ∷ y ∷ ys else y ∷ insert_by x ys

  unfoldable pub sort_by : List A → List A
  unfolding insert_by
  sort_by [] = []
  sort_by (x ∷ xs) = insert_by x (sort_by xs)

  -- Every element is before all that follow it.
  abbrev pub IsSorted : List A → Type 0
  IsSorted [] = Unit
  IsSorted (x ∷ xs) = All (λ y. le x y ≡ true) xs × IsSorted xs

  insert_by-perm : (x : A) (ys : List A) → Perm (insert_by x ys) (x ∷ ys)
  unfolding insert_by
  insert_by-perm x [] = Perm.refl (x ∷ [])
  insert_by-perm x (y ∷ ys) = elim (Bool-cases (le x y)) [
    | inl before ↦ rw before (Perm.refl (x ∷ y ∷ ys))
    | inr after ↦ rw after (Perm.trans (Perm.cons y (insert_by-perm x ys)) (Perm.swap x y ys))
  ]

  pub sort_by-perm : (xs : List A) → Perm (sort_by xs) xs
  unfolding sort_by
  sort_by-perm [] = Perm.refl []
  sort_by-perm (x ∷ xs) = Perm.trans (insert_by-perm x (sort_by xs)) (Perm.cons x (sort_by-perm xs))

  All-imp :
      (x y : A) (ys : List A)
      → ((z : A) → le y z ≡ true → le x z ≡ true)
      → All (λ z. le y z ≡ true) ys
      → All (λ z. le x z ≡ true) ys
  All-imp x y [] f h = tt
  All-imp x y (z ∷ zs) f h = (f z h.0, All-imp x y zs f h.1)

  All-insert_by {κ} :
      (P : A → Type κ) (x : A) (ys : List A) → P x → All P ys → All P (insert_by x ys)
  unfolding insert_by
  All-insert_by P x [] px h = (px, tt)
  All-insert_by P x (y ∷ ys) px h = elim (Bool-cases (le x y)) [
    | inl before ↦ rw before (px, h)
    | inr after ↦ rw after (h.0, All-insert_by P x ys px h.1)
  ]

  module _ (total : (x y : A) → (le x y ≡ true) ⊎ (le y x ≡ true))
      (trans : (x y z : A) → le x y ≡ true → le y z ≡ true → le x z ≡ true) where
    insert_by-IsSorted : (x : A) (ys : List A) → IsSorted ys → IsSorted (insert_by x ys)
    unfolding insert_by
    insert_by-IsSorted x [] s = (tt, tt)
    insert_by-IsSorted x (y ∷ ys) s = elim (Bool-cases (le x y)) [
      | inl before ↦ rw before ((before, All-imp x y ys (λ z h. trans x y z before h) s.0), s)
      | inr after ↦
          let flipped : le y x ≡ true = ground (arith, total x y) in
          rw after
            (All-insert_by (λ z. le y z ≡ true) x ys flipped s.0, insert_by-IsSorted x ys s.1)
    ]

    pub sort_by-IsSorted : (xs : List A) → IsSorted (sort_by xs)
    unfolding sort_by
    sort_by-IsSorted [] = tt
    sort_by-IsSorted (x ∷ xs) = insert_by-IsSorted x (sort_by xs) (sort_by-IsSorted xs)

-- Sorting does not change whether some element passes a test.
module _ {ℓ} {A : Type ℓ} (le : A → A → Bool) (p : A → Bool) where
  any_of-insert_by : (x : A) (ys : List A) → any_of p (insert_by le x ys) ≡ p x || any_of p ys
  unfolding insert_by
  any_of-insert_by x [] = refl
  any_of-insert_by x (y ∷ ys) = ground (arith, any_of-insert_by x ys)

  pub any_of-sort_by : (xs : List A) → any_of p (sort_by le xs) ≡ any_of p xs
  unfolding sort_by
  any_of-sort_by [] = refl
  any_of-sort_by (x ∷ xs) = ground (arith, any_of-insert_by x (sort_by le xs), any_of-sort_by xs)

-- Sorting what is sorted, and sorting by a key.
module _ {ℓ} {A : Type ℓ} (le : A → A → Bool) where
  insert_by-front : (x : A) (ys : List A) → All (λ y. le x y ≡ true) ys → insert_by le x ys ≡ x ∷ ys
  unfolding insert_by
  insert_by-front x [] h = refl
  insert_by-front x (y ∷ ys) h = rw h.0 refl

  pub sort_by-sorted : (xs : List A) → IsSorted le xs → sort_by le xs ≡ xs
  unfolding sort_by
  sort_by-sorted [] h = refl
  sort_by-sorted (x ∷ xs) h = rw (sort_by-sorted xs h.1) (insert_by-front x xs h.0)

  module _ {κ} {B : Type κ} (f : A → B) (le' : B → B → Bool)
      (agree : (x y : A) → le' (f x) (f y) ≡ le x y) where
    insert_by-map :
        (x : A) (ys : List A) → insert_by le' (f x) (map f ys) ≡ map f (insert_by le x ys)
    unfolding insert_by
    insert_by-map x [] = refl
    insert_by-map x (y ∷ ys) = elim (Bool-cases (le x y)) [
      | inl before ↦ rw (agree x y, before) refl
      | inr after ↦ rw (agree x y, after) (ap (λ rest. f y ∷ rest) (insert_by-map x ys))
    ]

    pub sort_by-map : (xs : List A) → sort_by le' (map f xs) ≡ map f (sort_by le xs)
    unfolding sort_by
    sort_by-map [] = refl
    sort_by-map (x ∷ xs) = rw (sort_by-map xs) (insert_by-map x (sort_by le xs))
