-- ===== src/Dict.antt =====
-- std::map with std::string keys, as an association list. The program reads such a map by key only,
-- so the order of the keys is not kept.
use simurga.Base.{◌≡◌, refl, Option, none, some, List, [], ◌∷◌, arith, if◌then◌else◌, Bytes}
use simurga.Text.{equal, equal_iff, equal_refl}

module _ {ℓ} where
  abbrev pub Dict : Type ℓ → Type ℓ
  Dict V = List (Bytes × V)

module _ {ℓ} {V : Type ℓ} where
  -- m.find(k)
  unfoldable pub lookup : Bytes → Dict V → Option V
  lookup k [] = none
  lookup k ((j, v) ∷ m) = if equal j k then some v else lookup k m

  -- m[key] = v
  unfoldable pub insert : Bytes → V → Dict V → Dict V
  insert key v [] = (key, v) ∷ []
  insert key v (entry ∷ rest) =
      if equal entry.0 key then (key, v) ∷ rest else entry ∷ insert key v rest

  pub lookup-insert :
      (key other : Bytes) (v : V) (m : Dict V)
      → lookup other (insert key v m) ≡ (if equal key other then some v else lookup other m)
  unfolding lookup insert
  lookup-insert key other v [] = refl
  lookup-insert key other v ((name, w) ∷ rest) = ground (
    lookup-insert key other v rest,
    equal_iff key other,
    equal_iff name key,
    equal_iff name other,
    arith,
  )

  pub lookup-insert_self : (k : Bytes) (v : V) (m : Dict V) → lookup k (insert k v m) ≡ some v
  lookup-insert_self k v m = simp (lookup-insert, equal_refl)
