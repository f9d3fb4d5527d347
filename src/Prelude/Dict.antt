-- ===== src/Prelude/Dict.antt =====
-- Go maps with string keys, as association lists without duplicate keys.
use Prim.Native.String.{String}
use mathlib.Core.Path.{◌≡◌, refl}
use mathlib.Core.Option.{Option, none, some}
use mathlib.Core.List.{List, [], ◌∷◌}
use native.Mathlib.Omega.{arith}
use text.Mathlib.Text.{◌==◌ as str_eq}
use text.Mathlib.TextEquality.{eq_iff}
use maelstromhub.Prelude.Tests.{if◌then◌else◌}

abbrev pub Dict {ℓ} : Type ℓ → Type ℓ
Dict V = List (String × V)

module _ {ℓ} {V : Type ℓ} where
  -- the value of a key, if it has one
  unfoldable pub lookup : String → Dict V → Option V
  lookup key [] = none
  lookup key ((first, value) ∷ entries) =
      let later = lookup key entries in if str_eq first key then some value else later

  -- `m[key] = value`
  unfoldable pub insert : String → V → Dict V → Dict V
  insert key value [] = (key, value) ∷ []
  insert key value ((first, old) ∷ entries) =
      let later = insert key value entries in
      if str_eq first key then (key, value) ∷ entries else (first, old) ∷ later

  -- `delete(m, key)`
  unfoldable pub remove : String → Dict V → Dict V
  remove key [] = []
  remove key ((first, value) ∷ entries) =
      let later = remove key entries in if str_eq first key then later else (first, value) ∷ later

  -- `m[key]`, which is the zero value of the type where the key is missing
  unfoldable pub read : V → String → Dict V → V
  read nought key m = elim (lookup key m) [ none ↦ nought | some value ↦ value ]

  pub lookup-insert :
      (key other : String) (value : V) (m : Dict V)
      → lookup other (insert key value m)
        ≡ (if str_eq key other then some value else lookup other m)
  unfolding lookup insert
  lookup-insert key other value [] = refl
  lookup-insert key other value ((first, old) ∷ entries) =
      let later = lookup-insert key other value entries in
      ground (arith, later, eq_iff first key, eq_iff first other, eq_iff key other)

  pub lookup-remove :
      (key other : String) (m : Dict V)
      → lookup other (remove key m) ≡ (if str_eq key other then none else lookup other m)
  unfolding lookup remove
  lookup-remove key other [] = ground arith
  lookup-remove key other ((first, old) ∷ entries) =
      let later = lookup-remove key other entries in
      ground (arith, later, eq_iff first key, eq_iff first other, eq_iff key other)

  pub read-insert :
      (nought : V) (key other : String) (value : V) (m : Dict V)
      → read nought other (insert key value m)
        ≡ (if str_eq key other then value else read nought other m)
  unfolding read
  read-insert nought key other value m = ground (arith, lookup-insert key other value m)

module _ {ℓ} {V : Type ℓ} where
  -- No key comes twice, as in a Go map.
  abbrev pub IsMap : Dict V → Type ℓ
  IsMap [] = Unit
  IsMap ((key, value) ∷ entries) = (lookup key entries ≡ none) × IsMap entries

  pub insert-IsMap : (key : String) (value : V) (m : Dict V) → IsMap m → IsMap (insert key value m)
  unfolding insert lookup
  insert-IsMap key value [] h = (refl, tt)
  insert-IsMap key value ((first, old) ∷ entries) (fresh, h) =
      let later = insert-IsMap key value entries h in
      ground
        (arith, later, lookup-insert key first value entries, eq_iff first key, eq_iff key first)
