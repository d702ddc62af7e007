-- ===== src/Storage/Map.antt =====
-- Go's `map[string]V`: at most one entry for a key. The order of the entries stands for the order
-- in which a range visits them, which Go leaves open.
use go_again.Prelude.{
  String, List, [], ◌∷◌, map, false, Option, none, some, ◌≡◌, refl, length, arith, if◌then◌else◌,
  ◌+◌,
}
use go_again.Prelude.Text.{str_eq, eq_iff}

abbrev pub Map {ℓ} : Type ℓ → Type ℓ
Map V = List (String × V)

module _ {ℓ} {V : Type ℓ} where
  -- m[k], with the boolean of the two-valued form
  unfoldable pub lookup : String → Map V → Option V
  lookup k [] = none
  lookup k ((j, v) ∷ m) = if str_eq j k then some v else lookup k m

  -- m[k] = v
  unfoldable pub insert : String → V → Map V → Map V
  insert key value [] = (key, value) ∷ []
  insert key value (entry ∷ rest) =
      if str_eq entry.0 key then (key, value) ∷ rest else entry ∷ insert key value rest

  -- delete(m, k)
  unfoldable pub delete : String → Map V → Map V
  delete k [] = []
  delete k ((j, w) ∷ m) = if str_eq j k then m else (j, w) ∷ delete k m

  abbrev pub keys : Map V → List String
  keys m = map (λ p. p.0) m

  pub lookup-insert :
      (key asked : String) (value : V) (m : Map V)
      → lookup asked (insert key value m)
        ≡ (if str_eq key asked then some value else lookup asked m)
  unfolding lookup insert
  lookup-insert key asked value [] = refl
  lookup-insert key asked value ((first, old) ∷ rest) = ground (
    arith,
    eq_iff key asked,
    eq_iff first key,
    eq_iff first asked,
    lookup-insert key asked value rest,
  )

  -- No key occurs twice.
  abbrev pub Absent : String → Map V → Type 0
  Absent k [] = Unit
  Absent k ((j, w) ∷ m) = (str_eq j k ≡ false) × Absent k m

  abbrev pub Distinct : Map V → Type 0
  Distinct [] = Unit
  Distinct ((j, w) ∷ m) = Absent j m × Distinct m

  pub lookup-Absent : (k : String) (m : Map V) → Absent k m → lookup k m ≡ none
  unfolding lookup
  lookup-Absent k [] a = refl
  lookup-Absent k ((j, w) ∷ m) a = ground (arith, lookup-Absent k m a.1)

  pub lookup-delete :
      (k j : String) (m : Map V)
      → Distinct m
      → lookup j (delete k m) ≡ (if str_eq k j then none else lookup j m)
  unfolding lookup delete
  lookup-delete k j [] d = ground arith
  lookup-delete k j ((i, w) ∷ m) d =
      ground
        (arith, eq_iff k j, eq_iff i k, eq_iff i j, lookup-delete k j m d.1, lookup-Absent i m d.0)

  Absent-delete : (k j : String) (m : Map V) → Absent j m → Absent j (delete k m)
  unfolding delete
  Absent-delete k j [] a = tt
  Absent-delete k j ((i, w) ∷ m) a = ground (arith, Absent-delete k j m a.1)

  pub delete-Distinct : (k : String) (m : Map V) → Distinct m → Distinct (delete k m)
  unfolding delete
  delete-Distinct k [] d = tt
  delete-Distinct k ((i, w) ∷ m) d =
      ground (arith, Absent-delete k i m d.0, delete-Distinct k m d.1)

  Absent-insert :
      (k j : String) (v : V) (m : Map V) → str_eq k j ≡ false → Absent j m → Absent j (insert k v m)
  unfolding insert
  Absent-insert k j v [] n a = (n, tt)
  Absent-insert k j v ((i, w) ∷ m) n a = ground (arith, Absent-insert k j v m n a.1)

  pub insert-Distinct : (k : String) (v : V) (m : Map V) → Distinct m → Distinct (insert k v m)
  unfolding insert
  insert-Distinct k v [] d = (tt, tt)
  insert-Distinct k v ((i, w) ∷ m) d =
      ground (arith, eq_iff i k, eq_iff k i, Absent-insert k i v m, insert-Distinct k v m d.1)

  pub length-delete :
      (k : String) (m : Map V) {v : V} → lookup k m ≡ some v → length m ≡ length (delete k m) + 1
  unfolding lookup delete
  length-delete k [] h = cc
  length-delete k ((i, w) ∷ m) {v} h = ground (arith, length-delete k m {v = v})

  pub length-insert :
      (k : String) (v : V) (m : Map V) → lookup k m ≡ none → length (insert k v m) ≡ length m + 1
  unfolding lookup insert
  length-insert k v [] h = refl
  length-insert k v ((i, w) ∷ m) h = ground (arith, length-insert k v m)
