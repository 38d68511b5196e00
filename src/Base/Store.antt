-- ===== src/Base/Store.antt =====
-- A Go map with numeric keys, as an association list: lookup, assignment and delete.
use reolinkproxy.Base.Tests.{◌==◌, if◌then◌else◌}
use reolinkproxy.Base.Lists.{length}
use Prim.Native.Nat.{ℕ, ◌+◌, ◌≤◌}
use mathlib.Core.Path.{◌≡◌, refl}
use mathlib.Core.Option.{Option, none, some}
use mathlib.Core.List.{List, [], ◌∷◌}
use native.Mathlib.Omega.{arith}

abbrev pub Store : Type 0 → Type 0
Store V = List (ℕ × V)

module _ {V : Type 0} where
  unfoldable pub lookup : ℕ → Store V → Option V
  lookup k [] = none
  lookup k ((j, v) ∷ m) = if j == k then some v else lookup k m

  unfoldable pub insert : ℕ → V → Store V → Store V
  insert key value [] = (key, value) ∷ []
  insert key value ((other, old) ∷ rest) =
      if other == key then (key, value) ∷ rest else (other, old) ∷ insert key value rest

  unfoldable pub delete : ℕ → Store V → Store V
  delete k [] = []
  delete k ((j, w) ∷ m) = let rest = delete k m in if j == k then rest else (j, w) ∷ rest

  pub lookup-insert :
      (key asked : ℕ) (value : V) (m : Store V)
      → lookup asked (insert key value m) ≡ (if key == asked then some value else lookup asked m)
  unfolding lookup insert
  lookup-insert key asked value [] = refl
  lookup-insert key asked value ((other, old) ∷ rest) =
      ground (arith, lookup-insert key asked value rest)

  pub lookup-delete :
      (k j : ℕ) (m : Store V) → lookup j (delete k m) ≡ (if k == j then none else lookup j m)
  unfolding lookup delete
  lookup-delete k j [] = ground arith
  lookup-delete k j ((i, w) ∷ m) = ground (arith, lookup-delete k j m)

  pub length-delete_le : (k : ℕ) (m : Store V) → length (delete k m) ≤ length m
  unfolding delete
  length-delete_le k [] = omega arith
  length-delete_le k ((i, w) ∷ m) = ground (arith, length-delete_le k m)

  -- Deleting a key that is there makes the map smaller.
  pub length-delete_lt :
      (k : ℕ) (m : Store V) {v : V} → lookup k m ≡ some v → length (delete k m) + 1 ≤ length m
  unfolding delete lookup
  length-delete_lt k [] h = cc
  length-delete_lt k ((i, w) ∷ m) {v} h =
      ground (arith, length-delete_le k m, length-delete_lt k m {v = v})

  -- Assigning to a key that is not there makes the map one larger.
  pub length-insert_new :
      (k : ℕ) (v : V) (m : Store V) → lookup k m ≡ none → length (insert k v m) ≡ length m + 1
  unfolding insert lookup
  length-insert_new k v [] h = omega arith
  length-insert_new k v ((i, w) ∷ m) h = ground (arith, length-insert_new k v m)
