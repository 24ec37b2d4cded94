-- ===== src/Common/Dict.antt =====
-- Go's `map[string]V` as an association list: reading, assignment and `delete`.
use Prim.Native.String.{String}
use mathlib.Core.Path.{◌≡◌, refl, subst}
use mathlib.Core.Logic.{inl, inr}
use mathlib.Core.Option.{Option, none, some}
use mathlib.Core.List.{List, [], ◌∷◌}
use native.Mathlib.Omega.{arith}
use text.Mathlib.TextEquality.{eq_iff}
use buildozer.Common.Tests.{if◌then◌else◌, str_eq, is_some, Bool-cases}
use buildozer.Common.Lists.{length, All}
use Prim.Native.Nat.{suc}

abbrev pub Table {ℓ} : Type ℓ → Type ℓ
Table V = List (String × V)

module _ {ℓ} {V : Type ℓ} where
  -- `v, ok := m[key]`
  unfoldable pub lookup : String → Table V → Option V
  lookup key [] = none
  lookup key (entry ∷ rest) =
      let later = lookup key rest in if str_eq entry.0 key then some entry.1 else later

  -- `m[key] = v`: a key that is there keeps its place.
  unfoldable pub insert : String → V → Table V → Table V
  insert key v [] = (key, v) ∷ []
  insert key v (entry ∷ rest) =
      let later = insert key v rest in if str_eq entry.0 key then (key, v) ∷ rest else entry ∷ later

  -- `delete(m, key)`: every entry of the key goes.
  unfoldable pub delete : String → Table V → Table V
  delete key [] = []
  delete key (entry ∷ rest) =
      let later = delete key rest in if str_eq entry.0 key then later else entry ∷ later

  pub lookup-delete :
      (key other : String) (m : Table V)
      → lookup other (delete key m) ≡ (if str_eq key other then none else lookup other m)
  unfolding lookup delete
  lookup-delete key other [] = ground (arith, eq_iff key other)
  lookup-delete key other (entry ∷ rest) = ground (
    arith,
    lookup-delete key other rest,
    eq_iff entry.0 key,
    eq_iff entry.0 other,
    eq_iff key other,
  )

  pub lookup-insert :
      (key other : String) (v : V) (m : Table V)
      → lookup other (insert key v m) ≡ (if str_eq key other then some v else lookup other m)
  unfolding lookup insert
  lookup-insert key other v [] = refl
  lookup-insert key other v (entry ∷ rest) = ground (
    arith,
    lookup-insert key other v rest,
    eq_iff entry.0 key,
    eq_iff entry.0 other,
    eq_iff key other,
  )

  pub length-insert :
      (key : String) (v : V) (m : Table V)
      → length (insert key v m) ≡ (if is_some (lookup key m) then length m else suc (length m))
  unfolding lookup insert
  length-insert key v [] = refl
  length-insert key v (entry ∷ rest) = ground (arith, length-insert key v rest)

module _ {ℓ κ} {V : Type ℓ} (P : String × V → Type κ) where
  pub insert-All :
      (key : String) (v : V) (m : Table V) → All P m → P (key, v) → All P (insert key v m)
  unfolding insert
  insert-All key v [] h p = (p, _)
  insert-All key v (entry ∷ rest) h p = elim (Bool-cases (str_eq entry.0 key)) [
    | inl same ↦ rw same (p, h.1)
    | inr differs ↦ rw differs (h.0, insert-All key v rest h.1 p)
  ]

  pub delete-All : (key : String) (m : Table V) → All P m → All P (delete key m)
  unfolding delete
  delete-All key [] h = h
  delete-All key (entry ∷ rest) h = elim (Bool-cases (str_eq entry.0 key)) [
    | inl same ↦ rw same (delete-All key rest h.1)
    | inr differs ↦ rw differs (h.0, delete-All key rest h.1)
  ]

  pub lookup-All :
      (key : String) (m : Table V) (v : V) → All P m → lookup key m ≡ some v → P (key, v)
  unfolding lookup
  lookup-All key [] v h found = absurd (ground arith)
  lookup-All key ((k, w) ∷ rest) v h found = elim (Bool-cases (str_eq k key)) [
    | inl same ↦
        let there : (k, w) ≡ (key, v) = ground (arith, same, found, eq_iff k key) in
        subst P there h.0
    | inr differs ↦ lookup-All key rest v h.1 (ground (arith, found, differs))
  ]
