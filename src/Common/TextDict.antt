-- ===== src/Common/TextDict.antt =====
-- A `BTreeMap` from texts: an association list in the order of the keys' bytes.
use mathlib.Core.Path.{◌≡◌, refl, ap}
use mathlib.Core.Bool.{Bool, true, false}
use mathlib.Core.Logic.{inl, inr}
use mathlib.Core.List.{List, [], ◌∷◌}
use mathlib.Core.Option.{Option, none, some}
use protanki_protocol_rs.Common.Tests.{ltb, ◌==◌, if◌then◌else◌, Bool-cases}
use protanki_protocol_rs.Common.Lists.{All}
use protanki_protocol_rs.Common.Bytes.{Bytes, bytes_eq, bytes_eq→eq}

-- The order of texts by their bytes.
unfoldable pub bytes_lt : Bytes → Bytes → Bool
bytes_lt [] [] = false
bytes_lt [] (b ∷ bs) = true
bytes_lt (a ∷ others) [] = false
bytes_lt (a ∷ others) (b ∷ bs) =
    if ltb a b then true else if a == b then bytes_lt others bs else false

abbrev pub TextDict {ℓ} : Type ℓ → Type ℓ
TextDict V = List (Bytes × V)

module _ {ℓ} {V : Type ℓ} where
  unfoldable pub lookup : Bytes → TextDict V → Option V
  unfolding bytes_eq
  lookup key [] = none
  lookup key ((first, value) ∷ entries) =
      if bytes_eq first key then some value else lookup key entries

  unfoldable pub insert : Bytes → V → TextDict V → TextDict V
  unfolding bytes_eq bytes_lt
  insert key value [] = (key, value) ∷ []
  insert key value ((first, old) ∷ entries) =
      if bytes_eq first key
      then (key, value) ∷ entries
      else if bytes_lt key first
      then (key, value) ∷ (first, old) ∷ entries
      else (first, old) ∷ insert key value entries

  -- The first entry of the key: in a map there is no other.
  unfoldable pub remove : Bytes → TextDict V → TextDict V
  unfolding bytes_eq
  remove key [] = []
  remove key ((first, value) ∷ entries) =
      if bytes_eq first key then entries else (first, value) ∷ remove key entries

module _ {ℓ} {V : Type ℓ} where
  -- Another key's entry stays.
  pub lookup-insert_other :
      (key asked : Bytes) (value : V) (entries : TextDict V)
      → bytes_eq key asked ≡ false
      → lookup asked (insert key value entries) ≡ lookup asked entries
  unfolding lookup insert
  lookup-insert_other key asked value [] h = rw (h, lookup) refl
  lookup-insert_other key asked value ((first, old) ∷ entries) h =
      elim (Bool-cases (bytes_eq first key)) [
        | inl e ↦
            let g : bytes_eq first asked ≡ false = rw (bytes_eq→eq first key e) h in
            rw (e, h, g) refl
        | inr e ↦ elim (Bool-cases (bytes_lt key first)) [
          | inl l ↦ rw (e, l, h) refl
          | inr l ↦
              rw (e, l)
                (ap (λ (o : Option V). if bytes_eq first asked then some old else o)
                  (lookup-insert_other key asked value entries h))
        ]
      ]

  pub lookup-remove_other :
      (key asked : Bytes) (entries : TextDict V)
      → bytes_eq key asked ≡ false
      → lookup asked (remove key entries) ≡ lookup asked entries
  unfolding lookup remove
  lookup-remove_other key asked [] h = refl
  lookup-remove_other key asked ((first, old) ∷ entries) h =
      elim (Bool-cases (bytes_eq first key)) [
        | inl e ↦
            let g : bytes_eq first asked ≡ false = rw (bytes_eq→eq first key e) h in rw (e, g) refl
        | inr e ↦ rw e (
            ap (λ (o : Option V). if bytes_eq first asked then some old else o)
              (lookup-remove_other key asked entries h))
      ]

  pub insert-All :
      (P : Bytes × V → Type 0) (key : Bytes) (value : V) (entries : TextDict V)
      → All P entries
      → P (key, value)
      → All P (insert key value entries)
  unfolding insert
  insert-All P key value [] a h = (h, tt)
  insert-All P key value ((first, old) ∷ entries) a h = elim (Bool-cases (bytes_eq first key)) [
    | inl e ↦ rw e (h, a.1)
    | inr e ↦ elim (Bool-cases (bytes_lt key first)) [
      | inl l ↦ rw (e, l) (h, a)
      | inr l ↦ rw (e, l) (a.0, insert-All P key value entries a.1 h)
    ]
  ]

  pub remove-All :
      (P : Bytes × V → Type 0) (key : Bytes) (entries : TextDict V)
      → All P entries
      → All P (remove key entries)
  unfolding remove
  remove-All P key [] a = tt
  remove-All P key ((first, old) ∷ entries) a = elim (Bool-cases (bytes_eq first key)) [
    | inl e ↦ rw e a.1
    | inr e ↦ rw e (a.0, remove-All P key entries a.1)
  ]

  pub lookup-All :
      (P : Bytes × V → Type 0) (key : Bytes) (entries : TextDict V) (value : V)
      → All P entries
      → lookup key entries ≡ some value
      → P (key, value)
  unfolding lookup
  lookup-All P key [] value a e = cc
  lookup-All P key ((first, old) ∷ entries) value a e = elim (Bool-cases (bytes_eq first key)) [
    | inl k ↦ let v : old ≡ value = cc (rw k at e) in rw (← bytes_eq→eq first key k, ← v) a.0
    | inr k ↦ lookup-All P key entries value a.1 (rw k at e)
  ]
