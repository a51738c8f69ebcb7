-- ===== src/Common/Assoc.antt =====
-- A Go map with string keys, as an association list.
use mathlib.Core.Path.{◌≡◌, refl, ap, ◌∙◌}
use mathlib.Core.Logic.{◌≢◌, ◌⊎◌, inl, inr}
use mathlib.Core.Option.{Option, none, some}
use mathlib.Core.List.{List, [], ◌∷◌}
use Prim.Native.String.{String}
use native.Mathlib.Omega.{arith}
use text.Mathlib.Text.{◌==◌ as str_eq}
use text.Mathlib.TextEquality.{eq_iff}
use x_cuter.Common.Tests.{if◌then◌else◌, Bool-cases}

pub String-cases : (s t : String) → (s ≡ t) ⊎ (s ≢ t)
String-cases s t = elim (Bool-cases (str_eq s t)) [
  | inl e ↦ inl (ground (arith, e, eq_iff s t))
  | inr e ↦ inr (ground (arith, e, eq_iff s t))
]

module _ {ℓ} {V : Type ℓ} where
  -- `m[key]`
  unfoldable pub lookup : String → List (String × V) → Option V
  lookup key ((at, value) ∷ others) = if str_eq at key then some value else lookup key others
  lookup key [] = none

  -- `delete(m, key)`
  unfoldable pub delete : String → List (String × V) → List (String × V)
  delete key ((at, value) ∷ others) =
      let later = delete key others in if str_eq at key then later else (at, value) ∷ later
  delete key [] = []

  -- `m[key] = value`
  unfoldable pub insert : String → V → List (String × V) → List (String × V)
  insert key value ((at, old) ∷ others) =
      let later = insert key value others in
      if str_eq at key then (at, value) ∷ others else (at, old) ∷ later
  insert key value [] = (key, value) ∷ []

  pub lookup-delete :
      (key wanted : String) (m : List (String × V))
      → lookup wanted (delete key m) ≡ (if str_eq key wanted then none else lookup wanted m)
  unfolding lookup delete
  lookup-delete key wanted ((at, value) ∷ others) =
      let earlier = lookup-delete key wanted others in
      ground (arith, eq_iff key wanted, eq_iff at wanted, eq_iff at key, earlier)
  lookup-delete key wanted [] = ground arith

  pub lookup-insert :
      (key wanted : String) (value : V) (m : List (String × V))
      → lookup wanted (insert key value m)
        ≡ (if str_eq key wanted then some value else lookup wanted m)
  unfolding lookup insert
  lookup-insert key wanted value ((at, old) ∷ others) =
      let earlier = lookup-insert key wanted value others in
      ground (arith, eq_iff at wanted, eq_iff key wanted, eq_iff at key, earlier)
  lookup-insert key wanted value [] = refl

  -- Every entry stands under the key that `f` gives of its value.
  abbrev pub Keyed : (V → String) → List (String × V) → Type ℓ
  Keyed f m = (k : String) (v : V) → lookup k m ≡ some v → f v ≡ k

  pub Keyed-nil : (f : V → String) → Keyed f []
  unfolding lookup
  Keyed-nil f k v h = cc

  pub Keyed-insert :
      (f : V → String) (v : V) (m : List (String × V)) → Keyed f m → Keyed f (insert (f v) v m)
  Keyed-insert f v m h k w e = ground (arith, eq_iff (f v) k, lookup-insert (f v) k v m, h k w)

  pub Keyed-delete :
      (f : V → String) (k : String) (m : List (String × V)) → Keyed f m → Keyed f (delete k m)
  Keyed-delete f j m h k w e = ground (arith, lookup-delete j k m, h k w)

  -- Behind the deletion of a key there is none of it, and all else as before.
  pub lookup-delete_self : (k : String) (m : List (String × V)) → lookup k (delete k m) ≡ none
  lookup-delete_self k m = ground (arith, lookup-delete k k m, eq_iff k k)

  pub lookup-delete_ne :
      (k j : String) (m : List (String × V)) → k ≢ j → lookup j (delete k m) ≡ lookup j m
  lookup-delete_ne k j m h = ground (arith, lookup-delete k j m, eq_iff k j)

  -- What stands in a map behind an assignment or a deletion.
  pub insert-cases :
      (key k : String) (value v : V) (m : List (String × V))
      → lookup k (insert key value m) ≡ some v
      → ((k ≡ key) × (v ≡ value)) ⊎ (lookup k m ≡ some v)
  insert-cases key k value v m h = elim (String-cases k key) [
    | inl t ↦ inl (t, ground (arith, h, t, lookup-insert key k value m, eq_iff key k))
    | inr t ↦ inr (ground (arith, h, t, lookup-insert key k value m, eq_iff key k))
  ]

  pub insert-none :
      (key k : String) (value : V) (m : List (String × V))
      → lookup k (insert key value m) ≡ none
      → lookup k m ≡ none
  insert-none key k value m h = ground (arith, h, lookup-insert key k value m)

  pub delete-some :
      (key k : String) (v : V) (m : List (String × V))
      → lookup k (delete key m) ≡ some v
      → lookup k m ≡ some v
  delete-some key k v m h = ground (arith, h, lookup-delete key k m)

  pub delete-none :
      (key k : String) (m : List (String × V))
      → lookup k (delete key m) ≡ none
      → (k ≡ key) ⊎ (lookup k m ≡ none)
  delete-none key k m h = elim (String-cases k key) [
    | inl t ↦ inl t
    | inr t ↦ inr (ground (arith, h, t, lookup-delete key k m, eq_iff key k))
  ]

  pub insert-kept :
      (key k : String) (value v : V) (m : List (String × V))
      → lookup key m ≡ none
      → lookup k m ≡ some v
      → lookup k (insert key value m) ≡ some v
  insert-kept key k value v m g h = elim (String-cases key k) [
    | inl t ↦ ground (arith, h, g, ap (λ x. lookup x m) t)
    | inr t ↦ ground (arith, h, t, lookup-insert key k value m, eq_iff key k)
  ]

  pub delete-kept :
      (key k : String) (v : V) (m : List (String × V))
      → key ≢ k
      → lookup k m ≡ some v
      → lookup k (delete key m) ≡ some v
  delete-kept key k v m t h = lookup-delete_ne key k m t ∙ h

  pub delete-other :
      (key k : String) (v : V) (m : List (String × V)) → lookup k (delete key m) ≡ some v → k ≢ key
  delete-other key k v m h t =
      ground (arith, h, ap (λ x. lookup x (delete key m)) t, lookup-delete_self key m)
