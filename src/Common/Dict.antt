-- ===== src/Common/Dict.antt =====
-- A `BTreeMap` from numbers: an association list in ascending order of keys.
use Prim.Native.Nat.{ℕ}
use mathlib.Core.Path.{◌≡◌, refl}
use mathlib.Core.Bool.{Bool, true, false}
use mathlib.Core.List.{List, [], ◌∷◌}
use mathlib.Core.Option.{Option, none, some}
use native.Mathlib.Omega.{arith}
use protanki_protocol_rs.Common.Tests.{ltb, ◌==◌, if◌then◌else◌}

abbrev pub Dict {ℓ} : Type ℓ → Type ℓ
Dict V = List (ℕ × V)

module _ {ℓ} {V : Type ℓ} where
  unfoldable pub lookup : ℕ → Dict V → Option V
  lookup key [] = none
  lookup key ((first, value) ∷ entries) = if first == key then some value else lookup key entries

  -- A new key goes before the first larger one, and an old key gets the new value.
  unfoldable pub insert : ℕ → V → Dict V → Dict V
  insert key value [] = (key, value) ∷ []
  insert key value ((first, old) ∷ entries) =
      if first == key
      then (key, value) ∷ entries
      else if ltb key first
      then (key, value) ∷ (first, old) ∷ entries
      else (first, old) ∷ insert key value entries

  unfoldable pub remove : ℕ → Dict V → Dict V
  remove key [] = []
  remove key ((first, value) ∷ entries) =
      if first == key then entries else (first, value) ∷ remove key entries

  unfoldable pub contains_key : ℕ → Dict V → Bool
  contains_key k [] = false
  contains_key k ((j, v) ∷ m) = if j == k then true else contains_key k m

  pub lookup-insert :
      (key asked : ℕ) (value : V) (entries : Dict V)
      → lookup asked (insert key value entries)
        ≡ (if key == asked then some value else lookup asked entries)
  unfolding lookup insert
  lookup-insert key asked value [] = refl
  lookup-insert key asked value ((first, old) ∷ entries) =
      ground (arith, lookup-insert key asked value entries)
