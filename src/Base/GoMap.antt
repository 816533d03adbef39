-- ===== src/Base/GoMap.antt =====
-- A Go map with string keys. Its order of iteration is not specified by the language: code that
-- ranges over a map takes the order as a parameter.
use docker_network_dhcp.Base.{
  ◌≡◌, refl, Option, none, some, List, [], ◌∷◌, arith, GoString, ◌==◌, if◌then◌else◌,
}

abbrev pub GoMap {ℓ} : Type ℓ → Type ℓ
GoMap V = List (GoString × V)

module _ {ℓ} {V : Type ℓ} where
  -- `v, ok := m[k]`
  unfoldable pub lookup : GoString → GoMap V → Option V
  lookup k [] = none
  lookup k (entry ∷ rest) = if entry.0 == k then some entry.1 else lookup k rest

  -- `m[k] = v`
  unfoldable pub insert : GoString → V → GoMap V → GoMap V
  insert k v (entry ∷ rest) = if entry.0 == k then (k, v) ∷ rest else entry ∷ insert k v rest
  insert k v [] = (k, v) ∷ []

  -- `delete(m, k)`
  unfoldable pub delete : GoString → GoMap V → GoMap V
  delete k [] = []
  delete k (entry ∷ m) = let rest = delete k m in if entry.0 == k then rest else entry ∷ rest

  -- The values, in the order of the representation.
  unfoldable pub values : GoMap V → List V
  values [] = []
  values ((k, v) ∷ m) = v ∷ values m

  pub lookup-insert :
      (k j : GoString) (v : V) (m : GoMap V)
      → lookup j (insert k v m) ≡ (if k == j then some v else lookup j m)
  unfolding lookup insert
  lookup-insert k j v (entry ∷ rest) = ground (arith, lookup-insert k j v rest)
  lookup-insert k j v [] = refl

  pub lookup-insert_self : (k : GoString) (v : V) (m : GoMap V) → lookup k (insert k v m) ≡ some v
  lookup-insert_self k v m = ground (arith, lookup-insert k k v m)

  pub lookup-delete :
      (k j : GoString) (m : GoMap V) → lookup j (delete k m) ≡ (if k == j then none else lookup j m)
  unfolding lookup delete
  lookup-delete k j [] = ground arith
  lookup-delete k j (entry ∷ m) = ground (arith, lookup-delete k j m)

  pub lookup-delete_self : (k : GoString) (m : GoMap V) → lookup k (delete k m) ≡ none
  lookup-delete_self k m = ground (arith, lookup-delete k k m)

pub ruleset map_laws = (lookup-insert, lookup-delete)

-- Two maps that answer every lookup alike.
abbrev pub SameMap {ℓ} : {V : Type ℓ} → GoMap V → GoMap V → Type ℓ
SameMap m n = (k : GoString) → lookup k m ≡ lookup k n
