-- ===== src/Common/SortedMap/Laws.antt =====
-- The order of the entries, and what a lookup finds.
use dex_knight.Prelude.{ℕ, ◌≤◌, ◌<◌, ◌≡◌, refl, [], ◌∷◌, none, some, arith, ◌==◌, if◌then◌else◌}
use dex_knight.Common.SortedMap.{SortedMap, insert_or_assign, find}

module _ {ℓ} {V : Type ℓ} where
  -- The keys rise along the list, from above `lo`.
  abbrev pub Above : ℕ → SortedMap V → Type 0
  Above lo [] = Unit
  Above lo ((k, v) ∷ m) = (lo < k) × Above k m

  abbrev pub IsSorted : SortedMap V → Type 0
  IsSorted [] = Unit
  IsSorted ((k, v) ∷ m) = Above k m

  insert_or_assign-Above :
      (lo k : ℕ) (v : V) (m : SortedMap V) → lo < k → Above lo m → Above lo (insert_or_assign k v m)
  unfolding insert_or_assign
  insert_or_assign-Above lo k v [] h a = (h, tt)
  insert_or_assign-Above lo k v ((j, w) ∷ m) h a = ground (arith, insert_or_assign-Above j k v m)

  pub insert_or_assign-IsSorted :
      (k : ℕ) (v : V) (m : SortedMap V) → IsSorted m → IsSorted (insert_or_assign k v m)
  unfolding insert_or_assign
  insert_or_assign-IsSorted k v [] a = tt
  insert_or_assign-IsSorted k v ((j, w) ∷ m) a = ground (arith, insert_or_assign-Above j k v m)

  pub find-Above : (lo k : ℕ) (m : SortedMap V) → k ≤ lo → Above lo m → find k m ≡ none
  unfolding find
  find-Above lo k [] h a = refl
  find-Above lo k ((j, w) ∷ m) h a = ground (arith, find-Above j k m)

  pub Above-IsSorted : (lo : ℕ) (m : SortedMap V) → Above lo m → IsSorted m
  Above-IsSorted lo [] a = tt
  Above-IsSorted lo ((k, v) ∷ m) a = a.1

  -- An insertion changes the value at its key, and at no other one.
  pub find-insert_or_assign :
      (j k : ℕ) (v : V) (m : SortedMap V)
      → find j (insert_or_assign k v m) ≡ (if j == k then some v else find j m)
  unfolding find insert_or_assign
  find-insert_or_assign j k v [] = refl
  find-insert_or_assign j k v ((i, w) ∷ m) = ground (arith, find-insert_or_assign j k v m)

  pub find-le : (lo k : ℕ) (m : SortedMap V) (v : V) → Above lo m → find k m ≡ some v → lo < k
  unfolding find
  find-le lo k [] v a h = cc
  find-le lo k ((j, w) ∷ m) v a h = ground (arith, find-le j k m v)
