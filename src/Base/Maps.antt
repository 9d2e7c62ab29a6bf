-- ===== src/Base/Maps.antt =====
-- Go's maps with string keys as association lists. `range` visits the entries in the list's order,
-- which stands for the order that the runtime picks.
use Prim.Native.Nat.{suc, ◌≤◌, ◌<◌}
use Prim.Native.String.{String}
use mathlib.Core.Path.{◌≡◌, refl}
use mathlib.Core.Bool.{Bool, true, false}
use mathlib.Core.Option.{Option, none, some}
use mathlib.Core.List.{List, [], ◌∷◌}
use native.Mathlib.Omega.{arith}
use text.Mathlib.Text.{◌==◌ as str_eq}
use text.Mathlib.TextEquality.{eq_iff}
use text.Mathlib.TextPositions.{eq_refl}
use llms_proxy.Base.Tests.{if◌then◌else◌}
use llms_proxy.Base.Lists.{length}

abbrev pub Map {ℓ} : Type ℓ → Type ℓ
Map V = List (String × V)

module _ {ℓ} {V : Type ℓ} where
  unfoldable pub lookup : String → Map V → Option V
  lookup k [] = none
  lookup k ((j, v) ∷ m) = if str_eq j k then some v else lookup k m

  unfoldable pub insert : String → V → Map V → Map V
  insert k v [] = (k, v) ∷ []
  insert k v ((j, w) ∷ m) = if str_eq j k then (k, v) ∷ m else (j, w) ∷ insert k v m

  unfoldable pub delete : String → Map V → Map V
  delete k [] = []
  delete k ((j, v) ∷ m) = let rest = delete k m in if str_eq j k then rest else (j, v) ∷ rest

  -- `_, ok := m[k]`
  abbrev pub is_some : Option V → Bool
  is_some none = false
  is_some (some v) = true

  unfoldable pub has : String → Map V → Bool
  has k m = is_some (lookup k m)

  -- A read after a write gives the value written, if the two keys are the same.
  pub lookup-insert :
      (written read : String) (v : V) (m : Map V)
      → lookup read (insert written v m) ≡ (if str_eq written read then some v else lookup read m)
  unfolding insert lookup
  lookup-insert written read v [] = refl
  lookup-insert written read v ((first, w) ∷ rest) =
      let later = lookup-insert written read v rest in
      ground (later, eq_iff first written, eq_iff first read, eq_iff written read, arith)

  pub lookup-insert_self : (k : String) (v : V) (m : Map V) → lookup k (insert k v m) ≡ some v
  lookup-insert_self k v m = rw (lookup-insert k k v m, eq_refl k) refl

  pub lookup-insert_ne :
      (k j : String) (v : V) (m : Map V) → str_eq k j ≡ false → lookup j (insert k v m) ≡ lookup j m
  lookup-insert_ne k j v m ne = rw (lookup-insert k j v m, ne) refl

  pub lookup-delete :
      (k j : String) (m : Map V) → lookup j (delete k m) ≡ (if str_eq k j then none else lookup j m)
  unfolding lookup delete
  lookup-delete k j [] = ground arith
  lookup-delete k j ((i, w) ∷ m) =
      ground (arith, eq_iff k j, eq_iff i k, eq_iff i j, lookup-delete k j m)

  -- A write under a new key hides nothing.
  pub lookup-insert_new :
      (key k : String) (v : V) (m : Map V) {w : V}
      → has key m ≡ false
      → lookup k m ≡ some w
      → lookup k (insert key v m) ≡ some w
  unfolding has
  lookup-insert_new key k v m new h = rw lookup-insert (ground (arith, eq_iff key k, h, new))

  pub has-insert :
      (k j : String) (v : V) (m : Map V)
      → has j (insert k v m) ≡ (if str_eq k j then true else has j m)
  unfolding has
  has-insert k j v m = ground (arith, lookup-insert k j v m)

  pub has-delete :
      (k j : String) (m : Map V) → has j (delete k m) ≡ (if str_eq k j then false else has j m)
  unfolding has
  has-delete k j m = ground (arith, lookup-delete k j m)

  -- No key stands twice.
  abbrev pub Distinct : Map V → Type 0
  Distinct [] = Unit
  Distinct ((k, v) ∷ m) = (has k m ≡ false) × Distinct m

  pub insert-Distinct : (k : String) (v : V) (m : Map V) → Distinct m → Distinct (insert k v m)
  unfolding insert has lookup
  insert-Distinct k v [] d = (refl, tt)
  insert-Distinct k v ((j, w) ∷ m) d =
      ground (arith, eq_iff j k, eq_iff k j, has-insert k j v m, insert-Distinct k v m d.1)

  pub delete-Distinct : (k : String) (m : Map V) → Distinct m → Distinct (delete k m)
  unfolding delete
  delete-Distinct k [] d = tt
  delete-Distinct k ((j, w) ∷ m) d = ground (arith, has-delete k j m, delete-Distinct k m d.1)

  -- A write to a new key adds one entry, a write to an old one adds none.
  pub length-insert :
      (k : String) (v : V) (m : Map V)
      → length (insert k v m) ≡ (if has k m then length m else suc (length m))
  unfolding insert has lookup
  length-insert k v [] = refl
  length-insert k v ((j, w) ∷ m) = ground (arith, length-insert k v m)

  pub length-delete-le : (k : String) (m : Map V) → length (delete k m) ≤ length m
  unfolding delete
  length-delete-le k [] = omega arith
  length-delete-le k ((j, w) ∷ m) = ground (arith, length-delete-le k m)

  pub length-delete-lt : (k : String) (m : Map V) → has k m ≡ true → length (delete k m) < length m
  unfolding delete has lookup
  length-delete-lt k [] h = cc
  length-delete-lt k ((j, w) ∷ m) h = ground (arith, length-delete-le k m, length-delete-lt k m)

  pub has-cons_self : (k : String) (v : V) (m : Map V) → has k ((k, v) ∷ m) ≡ true
  unfolding has lookup
  has-cons_self k v m = rw (eq_refl k)

  pub has-cons : (k j : String) (v : V) (m : Map V) → has k m ≡ true → has k ((j, v) ∷ m) ≡ true
  unfolding has lookup
  has-cons k j v m h = ground arith

  -- A map without keys is empty.
  pub length-eq_zero : (m : Map V) → ((k : String) → has k m ≡ false) → length m ≡ 0
  length-eq_zero [] h = refl
  length-eq_zero ((k, v) ∷ m) h = absurd (differ (has-cons_self k v m) (h k))
    where
      differ : {b : Bool} → b ≡ true → b ≡ false → ⊥
      differ p q = cc

pub has-nil {ℓ} : (V : Type ℓ) (k : String) → has {V = V} k [] ≡ false
unfolding has lookup
has-nil V k = refl
