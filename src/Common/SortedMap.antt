-- ===== src/Common/SortedMap.antt =====
-- `std::map<uint64_t, V>`: its entries in the order of their keys.
pub mod Laws
use dex_knight.Prelude.{
  ℕ, zero, List, [], ◌∷◌, Option, none, some, length, ltb, ◌==◌, if◌then◌else◌,
}

module _ {ℓ} where
  abbrev pub SortedMap : Type ℓ → Type ℓ
  SortedMap V = List (ℕ × V)

module _ {ℓ} {V : Type ℓ} where
  unfoldable pub insert_or_assign : ℕ → V → SortedMap V → SortedMap V
  insert_or_assign k v [] = (k, v) ∷ []
  insert_or_assign k v ((j, w) ∷ m) =
      if ltb k j
      then (k, v) ∷ (j, w) ∷ m
      else if k == j
      then (k, v) ∷ m
      else (j, w) ∷ insert_or_assign k v m

  -- The value at a key.
  unfoldable pub find : ℕ → SortedMap V → Option V
  find k [] = none
  find k ((j, w) ∷ m) = if k == j then some w else find k m
