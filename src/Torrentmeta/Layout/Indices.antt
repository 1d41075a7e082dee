-- ===== src/Torrentmeta/Layout/Indices.antt =====
-- `SkipIndices` of backend/internal/torrentmeta/torrentmeta.go: the indices marked "do not download".
use marauder.Prelude.{
  ℕ, ◌+◌, ◌≡◌, refl, ◌∙◌, inl, inr, ◌&&◌, List, [], ◌∷◌, arith, if◌then◌else◌, Bool-cases, All,
}
use marauder.Prelude.Int.{ℤ, ◌≤ℤ◌, leb_ℤ, eq_ℤ}
use marauder.Domain.{TorrentFile}
use marauder.Torrentmeta.Skip.{has_file}
use marauder.Torrentmeta.Layout.{Mapping, old_indices, insert_index, sort_indices, skip_indices}

-- How often an index stands in a list, and how often a mapping gives it a file of `skip`.
unfoldable pub count_index : ℤ → List ℤ → ℕ
count_index i [] = 0
count_index i (j ∷ js) = (if eq_ℤ i j then 1 else 0) + count_index i js

unfoldable pub count_old : ℤ → List TorrentFile → Mapping → ℕ
count_old i skip [] = 0
count_old i skip ((j, f) ∷ m) = (if eq_ℤ i j && has_file skip f then 1 else 0) + count_old i skip m

abbrev pub IsSorted : List ℤ → Type 0
IsSorted [] = Unit
IsSorted (i ∷ is) = All (λ j. i ≤ℤ j) is × IsSorted is

All-le_trans : (i j : ℤ) (is : List ℤ) → i ≤ℤ j → All (λ k. j ≤ℤ k) is → All (λ k. i ≤ℤ k) is
All-le_trans i j [] h a = tt
All-le_trans i j (k ∷ is) h (p, a) = (omega arith, All-le_trans i j is h a)

All-insert :
    (b i : ℤ) (js : List ℤ) → b ≤ℤ i → All (λ k. b ≤ℤ k) js → All (λ k. b ≤ℤ k) (insert_index i js)
unfolding insert_index
All-insert b i [] h a = (h, tt)
All-insert b i (j ∷ js) h (p, a) = elim (Bool-cases (leb_ℤ i j)) [
  | inl e ↦ rw e (h, (p, a))
  | inr e ↦ rw e (p, All-insert b i js h a)
]

insert-IsSorted : (i : ℤ) (js : List ℤ) → IsSorted js → IsSorted (insert_index i js)
unfolding insert_index
insert-IsSorted i [] h = (tt, tt)
insert-IsSorted i (j ∷ js) (a, h) = elim (Bool-cases (leb_ℤ i j)) [
  | inl e ↦ let le : i ≤ℤ j = ground arith in rw e ((le, All-le_trans i j js le a), (a, h))
  | inr e ↦ let le : j ≤ℤ i = ground arith in rw e (All-insert j i js le a, insert-IsSorted i js h)
]

count-insert :
    (k i : ℤ) (js : List ℤ)
    → count_index k (insert_index i js) ≡ (if eq_ℤ k i then 1 else 0) + count_index k js
unfolding insert_index count_index
count-insert k i [] = refl
count-insert k i (j ∷ js) = elim (Bool-cases (leb_ℤ i j)) [
  | inl e ↦ rw e refl
  | inr e ↦ rw e (omega (arith, count-insert k i js))
]

sort-IsSorted : (is : List ℤ) → IsSorted (sort_indices is)
unfolding sort_indices
sort-IsSorted [] = tt
sort-IsSorted (i ∷ is) = insert-IsSorted i (sort_indices is) (sort-IsSorted is)

count-sort : (k : ℤ) (is : List ℤ) → count_index k (sort_indices is) ≡ count_index k is
unfolding sort_indices count_index
count-sort k [] = refl
count-sort k (i ∷ is) = omega (arith, count-insert k i (sort_indices is), count-sort k is)

count-old_indices :
    (k : ℤ) (m : Mapping) (skip : List TorrentFile)
    → count_index k (old_indices m skip) ≡ count_old k skip m
unfolding old_indices count_old count_index
count-old_indices k [] skip = refl
count-old_indices k ((i, f) ∷ m) skip = ground (arith, count-old_indices k m skip)

-- The skipped indices are sorted, and hold each index as often as the mapping gives it a file of
-- the skip set.
pub skip_indices_exact :
    (m : Mapping) (skip : List TorrentFile)
    → IsSorted (skip_indices m skip)
      × ((k : ℤ) → count_index k (skip_indices m skip) ≡ count_old k skip m)
unfolding skip_indices
skip_indices_exact m skip = (
  sort-IsSorted (old_indices m skip),
  λ k. count-sort k (old_indices m skip) ∙ count-old_indices k m skip,
)
