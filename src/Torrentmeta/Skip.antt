-- ===== src/Torrentmeta/Skip.antt =====
-- `SkipSet` of backend/internal/torrentmeta/torrentmeta.go: the files of an update that the version
-- before it already had.
use marauder.Prelude.{ℕ, ◌+◌, ◌≤◌, ◌≡◌, ◌↔◌, Bool, true, false, List, [], ◌∷◌, arith, if◌then◌else◌}
use marauder.Domain.{TorrentFile, file_eq, file_eq_iff}

-- `_, ok := known[f]` for a map built from a list.
unfoldable pub has_file : List TorrentFile → TorrentFile → Bool
has_file [] f = false
has_file (g ∷ gs) f = if file_eq g f then true else has_file gs f

-- `SkipSet(prev, next)`.
unfoldable pub skip_set : List TorrentFile → List TorrentFile → List TorrentFile
skip_set prev [] = []
skip_set prev (f ∷ next) =
    let rest = skip_set prev next in if has_file prev f then f ∷ rest else rest

-- How often a file stands in a list.
unfoldable pub count_file : TorrentFile → List TorrentFile → ℕ
count_file f [] = 0
count_file f (g ∷ gs) = (if file_eq f g then 1 else 0) + count_file f gs

-- The two lists hold the same files, each as often.
abbrev pub SameFiles : List TorrentFile → List TorrentFile → Type 0
SameFiles xs ys = (f : TorrentFile) → count_file f xs ≡ count_file f ys

pub file_eq_comm : (f g : TorrentFile) → file_eq f g ≡ file_eq g f
file_eq_comm f g = ground (arith, file_eq_iff f g, file_eq_iff g f)

-- A file is in the map exactly if it stands in the list.
pub has_file-count :
    (gs : List TorrentFile) (f : TorrentFile) → (has_file gs f ≡ true) ↔ (1 ≤ count_file f gs)
unfolding has_file count_file
has_file-count [] f = (λ h. cc, λ h. absurd (omega arith))
has_file-count (g ∷ gs) f = (
  λ h. ground (arith, file_eq_comm f g, (has_file-count gs f).0),
  λ h. ground (arith, file_eq_comm f g, (has_file-count gs f).1),
)

-- Each file of the update stands in the skip set as often as in the update if the version before it
-- had a file of the same path and size, and not at all otherwise.
pub skip_set_exact :
    (prev next : List TorrentFile) (f : TorrentFile)
    → count_file f (skip_set prev next) ≡ (if has_file prev f then count_file f next else 0)
unfolding skip_set count_file
skip_set_exact prev [] f = ground arith
skip_set_exact prev (g ∷ next) f = ground (arith, skip_set_exact prev next f, file_eq_iff f g)
