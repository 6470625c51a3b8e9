-- ===== src/Dict.antt =====
-- A `HashMap` with `Uuid` keys (`std::collections::HashMap`), as the list of its entries in the
-- order of iteration. `insert` replaces the value of a key that is there.
use chatd.Base.{
  ℕ, ◌≡◌, refl, ◌≢◌, ◌⊎◌, Bool, true, false, Option, none, some, List, [], ◌∷◌, arith, ◌==◌,
  if◌then◌else◌, is_some, sym, ◌∙◌, inl, inr, ==_iff, Bool-cases,
}

abbrev pub Dict {ℓ} : Type ℓ → Type ℓ
Dict V = List (ℕ × V)

module _ {ℓ} {V : Type ℓ} where
  unfoldable pub lookup : ℕ → Dict V → Option V
  lookup k [] = none
  lookup k ((j, v) ∷ d) = if j == k then some v else lookup k d

  unfoldable pub contains : ℕ → Dict V → Bool
  contains k d = is_some (lookup k d)

  unfoldable pub insert : ℕ → V → Dict V → Dict V
  insert k v [] = (k, v) ∷ []
  insert k v ((j, w) ∷ d) = if j == k then (k, v) ∷ d else (j, w) ∷ insert k v d

  unfoldable pub erase : ℕ → Dict V → Dict V
  erase k [] = []
  erase k ((j, v) ∷ d) = if j == k then erase k d else (j, v) ∷ erase k d

  pub lookup-insert :
      (k j : ℕ) (v : V) (d : Dict V)
      → lookup j (insert k v d) ≡ (if k == j then some v else lookup j d)
  unfolding lookup insert
  lookup-insert k j v [] = refl
  lookup-insert k j v ((i, w) ∷ d) = ground (arith, lookup-insert k j v d)

  pub lookup-erase :
      (k j : ℕ) (d : Dict V) → lookup j (erase k d) ≡ (if k == j then none else lookup j d)
  unfolding lookup erase
  lookup-erase k j [] = ground arith
  lookup-erase k j ((i, w) ∷ d) = ground (arith, lookup-erase k j d)

  pub lookup-insert_self : (k : ℕ) (v : V) (d : Dict V) → lookup k (insert k v d) ≡ some v
  lookup-insert_self k v d = ground (arith, lookup-insert k k v d)

  pub lookup-insert_ne :
      (k j : ℕ) (v : V) (d : Dict V) → k ≢ j → lookup j (insert k v d) ≡ lookup j d
  lookup-insert_ne k j v d h = ground (arith, lookup-insert k j v d)

  pub lookup-erase_self : (k : ℕ) (d : Dict V) → lookup k (erase k d) ≡ none
  lookup-erase_self k d = ground (arith, lookup-erase k k d)

  pub lookup-erase_ne : (k j : ℕ) (d : Dict V) → k ≢ j → lookup j (erase k d) ≡ lookup j d
  lookup-erase_ne k j d h = ground (arith, lookup-erase k j d)

  -- Erasing a key that is not there changes nothing.
  pub erase_missing : (k : ℕ) (d : Dict V) → lookup k d ≡ none → erase k d ≡ d
  unfolding lookup erase
  erase_missing k [] h = refl
  erase_missing k ((i, w) ∷ d) h = ground (arith, erase_missing k d)

  -- What a hit after a write or a removal says of the map before.
  pub lookup-insert_inv :
      (k j : ℕ) (v x : V) (d : Dict V)
      → lookup j (insert k v d) ≡ some x
      → ((k ≡ j) × (v ≡ x)) ⊎ ((k ≢ j) × (lookup j d ≡ some x))
  lookup-insert_inv k j v x d h =
      let e : (if k == j then some v else lookup j d) ≡ some x = sym (lookup-insert k j v d) ∙ h in
      elim (Bool-cases (k == j)) [
        | inl same ↦ inl ((==_iff k j).0 same, cc (rw same at e))
        | inr other ↦ inr (ground arith, rw other at e)
      ]

  pub lookup-erase_inv :
      (k j : ℕ) (x : V) (d : Dict V)
      → lookup j (erase k d) ≡ some x
      → (k ≢ j) × (lookup j d ≡ some x)
  lookup-erase_inv k j x d h = ground (arith, lookup-erase k j d)

  pub contains-insert :
      (k j : ℕ) (v : V) (d : Dict V)
      → contains j (insert k v d) ≡ (if k == j then true else contains j d)
  unfolding contains
  contains-insert k j v d = ground (arith, lookup-insert k j v d)

  -- `f` on every value.
  unfoldable pub map_values : (V → V) → Dict V → Dict V
  map_values f [] = []
  map_values f ((j, v) ∷ d) = (j, f v) ∷ map_values f d

  pub lookup-map_values_inv :
      (f : V → V) (k : ℕ) (y : V) (d : Dict V)
      → lookup k (map_values f d) ≡ some y
      → (x : V) × (lookup k d ≡ some x) × (f x ≡ y)
  unfolding lookup map_values
  lookup-map_values_inv f k y [] h = cc
  lookup-map_values_inv f k y ((j, v) ∷ d) h = elim (Bool-cases (j == k)) [
    | inl same ↦ rw same (v, refl, cc (rw same at h))
    | inr other ↦ rw other (lookup-map_values_inv f k y d (rw other at h))
  ]

  pub lookup-map_values_keep :
      (f : V → V) (k : ℕ) (x : V) (d : Dict V)
      → lookup k d ≡ some x
      → lookup k (map_values f d) ≡ some (f x)
  unfolding lookup map_values
  lookup-map_values_keep f k x [] h = cc
  lookup-map_values_keep f k x ((j, v) ∷ d) h = elim (Bool-cases (j == k)) [
    | inl same ↦ rw same (cc (rw same at h))
    | inr other ↦ rw other (lookup-map_values_keep f k x d (rw other at h))
  ]

  -- A write to a key that is removed right after is lost.
  pub erase-insert : (k : ℕ) (v : V) (d : Dict V) → erase k (insert k v d) ≡ erase k d
  unfolding insert erase
  erase-insert k v [] = ground arith
  erase-insert k v ((j, w) ∷ d) = ground (arith, erase-insert k v d)

  pub contains-erase :
      (k j : ℕ) (d : Dict V) → contains j (erase k d) ≡ (if k == j then false else contains j d)
  unfolding contains
  contains-erase k j d = ground (arith, lookup-erase k j d)
