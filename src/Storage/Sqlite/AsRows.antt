-- ===== src/Storage/Sqlite/AsRows.antt =====
-- Lists of rows: maps whose values are written as rows, and rows that are filtered and sorted.
use mathlib.Core.Option
use go_again.Prelude.{
  String, List, [], ◌∷◌, ◌++◌, map, Bool, true, false, ◌&&◌, none, some, if◌then◌else◌, filter_by,
  any_of, All, ◌||◌, ◌≡◌, refl, ap, arith, Bool-cases, Option-cases, inl, inr,
}
use go_again.Prelude.Text.{str_eq, eq_iff, eq_refl}
use go_again.Storage.Map.{Map, lookup, insert, delete, keys, Distinct, lookup-Absent}

module _ {V W : Type 0} (f : String → V → W) where
  -- The map with its values written as rows.
  abbrev pub as_rows : Map V → Map W
  as_rows m = map (λ p. (p.0, f p.0 p.1)) m

  pub lookup-as_rows :
      (id : String) (m : Map V) → lookup id (as_rows m) ≡ Option.map (f id) (lookup id m)
  unfolding lookup
  lookup-as_rows id [] = refl
  lookup-as_rows id ((j, v) ∷ m) = elim (Bool-cases (str_eq j id)) [
    | inl same ↦ rw (same, ap (λ k. f k v) ((eq_iff j id).0 same)) refl
    | inr other ↦ rw other (lookup-as_rows id m)
  ]

  pub insert-as_rows :
      (id : String) (v : V) (m : Map V) → insert id (f id v) (as_rows m) ≡ as_rows (insert id v m)
  unfolding insert
  insert-as_rows id v [] = refl
  insert-as_rows id v ((j, w) ∷ m) = elim (Bool-cases (str_eq j id)) [
    | inl same ↦ rw same refl
    | inr other ↦ rw other (ap (λ rest. (j, f j w) ∷ rest) (insert-as_rows id v m))
  ]

-- Insertion and deletion as the keys show them.
unfoldable pub insert_key : String → List String → List String
insert_key id [] = id ∷ []
insert_key id (j ∷ js) = let rest = insert_key id js in if str_eq j id then id ∷ js else j ∷ rest

unfoldable pub delete_key : String → List String → List String
delete_key id [] = []
delete_key id (j ∷ js) = let rest = delete_key id js in if str_eq j id then js else j ∷ rest

module _ {V : Type 0} where
  pub insert-same : (id : String) (v : V) (m : Map V) → lookup id m ≡ some v → insert id v m ≡ m
  unfolding insert lookup
  insert-same id v [] h = cc
  insert-same id v ((j, w) ∷ m) h = ground (arith, eq_iff j id, insert-same id v m)

  pub keys-insert :
      (id : String) (v : V) (m : Map V) → keys (insert id v m) ≡ insert_key id (keys m)
  unfolding insert insert_key
  keys-insert id v [] = refl
  keys-insert id v ((j, w) ∷ m) = ground (arith, keys-insert id v m)

  pub keys-delete : (id : String) (m : Map V) → keys (delete id m) ≡ delete_key id (keys m)
  unfolding delete delete_key
  keys-delete id [] = refl
  keys-delete id ((j, w) ∷ m) = ground (arith, keys-delete id m)

  pub has_key_none :
      (id : String) (m : Map V) → lookup id m ≡ none → any_of (λ k. str_eq k id) (keys m) ≡ false
  unfolding lookup
  has_key_none id [] h = refl
  has_key_none id ((j, w) ∷ m) h = ground (arith, has_key_none id m)

  pub has_key_some :
      (id : String) (v : V) (m : Map V)
      → lookup id m ≡ some v
      → any_of (λ k. str_eq k id) (keys m) ≡ true
  unfolding lookup
  has_key_some id v [] h = cc
  has_key_some id v ((j, w) ∷ m) h = ground (arith, has_key_some id v m)

  pub lookup_without_key :
      (id : String) (m : Map V) → any_of (λ k. str_eq k id) (keys m) ≡ false → lookup id m ≡ none
  lookup_without_key id m h = elim (Option-cases (lookup id m)) [
    | inl missing ↦ missing
    | inr (v, found) ↦ absurd (ground (arith, has_key_some id v m found))
  ]

  pub lookup_with_key :
      (id : String) (m : Map V)
      → any_of (λ k. str_eq k id) (keys m) ≡ true
      → (v : V) × (lookup id m ≡ some v)
  lookup_with_key id m h = elim (Option-cases (lookup id m)) [
    | inl missing ↦ absurd (ground (arith, has_key_none id m missing))
    | inr (v, found) ↦ (v, found)
  ]

  pub delete-missing : (id : String) (m : Map V) → lookup id m ≡ none → delete id m ≡ m
  unfolding lookup delete
  delete-missing id [] h = refl
  delete-missing id ((j, w) ∷ m) h = ground (arith, delete-missing id m)

  -- What is found under every key holds of every entry.
  pub All-entries :
      (P : String → V → Type 0) (m : Map V)
      → Distinct m
      → ((id : String) (v : V) → lookup id m ≡ some v → P id v)
      → All (λ p. P p.0 p.1) m
  unfolding lookup
  All-entries P [] d h = tt
  All-entries P ((j, w) ∷ m) d h = (
    h j w (ground (arith, eq_refl j)),
    All-entries P m d.1 (λ id v found. h id v (elim (Bool-cases (str_eq j id)) [
      | inl same ↦ absurd (ground (arith, lookup-Absent j m d.0, eq_iff j id))
      | inr other ↦ rw (other, lookup) found
    ])),
  )

module _ {A : Type 0} where
  pub filter_by-append :
      (p : A → Bool) (xs ys : List A) → filter_by p (xs ++ ys) ≡ filter_by p xs ++ filter_by p ys
  filter_by-append p [] ys = refl
  filter_by-append p (x ∷ xs) ys = ground (arith, filter_by-append p xs ys)

  pub filter_by-swap :
      (p q : A → Bool) (xs : List A) → filter_by p (filter_by q xs) ≡ filter_by q (filter_by p xs)
  filter_by-swap p q [] = refl
  filter_by-swap p q (x ∷ xs) = ground (arith, filter_by-swap p q xs)

  pub filter_by-all : (p : A → Bool) (xs : List A) → ((x : A) → p x ≡ true) → filter_by p xs ≡ xs
  filter_by-all p [] h = refl
  filter_by-all p (x ∷ xs) h = ground (arith, h x, filter_by-all p xs h)

  pub any_of-filter_by :
      (p q : A → Bool) (xs : List A) → any_of (λ x. p x && q x) xs ≡ any_of q (filter_by p xs)
  any_of-filter_by p q [] = refl
  any_of-filter_by p q (x ∷ xs) = ground (arith, any_of-filter_by p q xs)

  pub filter_by-agree :
      (p q : A → Bool) (xs : List A) → ((x : A) → p x ≡ q x) → filter_by p xs ≡ filter_by q xs
  filter_by-agree p q [] h = refl
  filter_by-agree p q (x ∷ xs) h = ground (arith, h x, filter_by-agree p q xs h)

  pub filter_by-map :
      {C : Type 0} (p : A → Bool) (f : C → A) (xs : List C)
      → filter_by p (map f xs) ≡ map f (filter_by (λ c. p (f c)) xs)
  filter_by-map p f [] = refl
  filter_by-map p f (x ∷ xs) = ground (arith, filter_by-map p f xs)

  pub any_of-map :
      {C : Type 0} (p : A → Bool) (f : C → A) (xs : List C)
      → any_of p (map f xs) ≡ any_of (λ c. p (f c)) xs
  any_of-map p f [] = refl
  any_of-map p f (x ∷ xs) = ap (λ rest. p (f x) || rest) (any_of-map p f xs)

pub map-append :
    {A C : Type 0} (f : A → C) (xs ys : List A) → map f (xs ++ ys) ≡ map f xs ++ map f ys
map-append f [] ys = refl
map-append f (x ∷ xs) ys = ap (λ rest. f x ∷ rest) (map-append f xs ys)
