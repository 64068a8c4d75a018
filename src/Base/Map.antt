-- ===== src/Base/Map.antt =====
-- Go's maps, as association lists with one entry for each key.
use mathlib.Core.Path.{◌≡◌, refl}
use mathlib.Core.Bool.{Bool}
use mathlib.Core.List.{List, [], ◌∷◌}
use mathlib.Core.Option.{Option, none, some}
use native.Mathlib.Omega.{arith}
use sveltego.Base.Tests.{if◌then◌else◌}
use sveltego.Base.Strings.{Str, str_eq, str_eq_iff}

module _ {ℓ} {V : Type ℓ} where
  -- `m[k]` with its `ok` flag
  unfoldable pub lookup : Str → List (Str × V) → Option V
  lookup k [] = none
  lookup k ((j, v) ∷ m) = if str_eq j k then some v else lookup k m

  -- `m[k] = v`
  unfoldable pub insert : Str → V → List (Str × V) → List (Str × V)
  insert k v [] = (k, v) ∷ []
  insert k v ((j, w) ∷ m) = if str_eq j k then (k, v) ∷ m else (j, w) ∷ insert k v m

  -- `delete(m, k)`
  unfoldable pub delete : Str → List (Str × V) → List (Str × V)
  delete k [] = []
  delete k ((j, w) ∷ m) = if str_eq j k then delete k m else (j, w) ∷ delete k m

  -- `for k, v := range m { if p(v) { delete(m, k) } }`
  unfoldable pub delete_where : (V → Bool) → List (Str × V) → List (Str × V)
  delete_where p [] = []
  delete_where p ((j, w) ∷ m) = if p w then delete_where p m else (j, w) ∷ delete_where p m

  -- What the range loop leaves of one key: its entry, if that does not satisfy `p`.
  abbrev pub keep_unless : (V → Bool) → Option V → Option V
  keep_unless p none = none
  keep_unless p (some v) = if p v then none else some v

  abbrev pub IsFunctional : List (Str × V) → Type ℓ
  IsFunctional [] = Unit
  IsFunctional ((j, w) ∷ m) = (lookup j m ≡ none) × IsFunctional m

  pub lookup-insert :
      (k j : Str) (v : V) (m : List (Str × V))
      → lookup j (insert k v m) ≡ (if str_eq k j then some v else lookup j m)
  unfolding lookup insert
  lookup-insert k j v [] = refl
  lookup-insert k j v ((i, w) ∷ m) =
      ground (arith, str_eq_iff k j, str_eq_iff i k, str_eq_iff i j, lookup-insert k j v m)

  pub lookup-delete :
      (k j : Str) (m : List (Str × V))
      → lookup j (delete k m) ≡ (if str_eq k j then none else lookup j m)
  unfolding lookup delete
  lookup-delete k j [] = ground arith
  lookup-delete k j ((i, w) ∷ m) =
      ground (arith, str_eq_iff k j, str_eq_iff i k, str_eq_iff i j, lookup-delete k j m)

  pub lookup-delete_where :
      (p : V → Bool) (k : Str) (m : List (Str × V))
      → IsFunctional m
      → lookup k (delete_where p m) ≡ keep_unless p (lookup k m)
  unfolding lookup delete_where
  lookup-delete_where p k [] f = refl
  lookup-delete_where p k ((j, w) ∷ m) (fresh, f) =
      ground (arith, str_eq_iff j k, lookup-delete_where p k m f)

  pub insert-IsFunctional :
      (k : Str) (v : V) (m : List (Str × V)) → IsFunctional m → IsFunctional (insert k v m)
  unfolding insert lookup
  insert-IsFunctional k v [] f = (refl, tt)
  insert-IsFunctional k v ((j, w) ∷ m) (fresh, f) =
      ground
        (arith, str_eq_iff j k, str_eq_iff k j, lookup-insert k j v m, insert-IsFunctional k v m f)

  pub delete-IsFunctional :
      (k : Str) (m : List (Str × V)) → IsFunctional m → IsFunctional (delete k m)
  unfolding delete
  delete-IsFunctional k [] f = tt
  delete-IsFunctional k ((j, w) ∷ m) (fresh, f) =
      ground (arith, str_eq_iff k j, lookup-delete k j m, delete-IsFunctional k m f)

  pub delete_where-IsFunctional :
      (p : V → Bool) (m : List (Str × V)) → IsFunctional m → IsFunctional (delete_where p m)
  unfolding delete_where
  delete_where-IsFunctional p [] f = tt
  delete_where-IsFunctional p ((j, w) ∷ m) (fresh, f) =
      ground (arith, lookup-delete_where p j m f, delete_where-IsFunctional p m f)
