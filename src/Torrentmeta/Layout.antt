-- ===== src/Torrentmeta/Layout.antt =====
-- `MapClientFiles` of backend/internal/torrentmeta/torrentmeta.go: a client's file list laid over
-- the torrent's own, and `ClientRoot` of root.go. A Go map from files to counts is a function, and
-- one from indices to files is an association list with one entry for a key.
pub mod Pairs
pub mod Bijection
pub mod Unique
pub mod Indices
pub mod Root
use marauder.Prelude.{
  ℕ, ◌-◌, Bool, true, false, not, ◌&&◌, ◌||◌, Option, none, some, List, [], ◌∷◌, ◌++◌, map, ◌==◌,
  if◌then◌else◌, ◌>>=◌, ◌>>◌, is_some, length, any, Text, codes, text_eq, has_prefix, cut,
  replace_byte,
}
use marauder.Prelude.Int.{ℤ, leb_ℤ, eq_ℤ}
use marauder.Domain.{TorrentFile, ClientFile, file_eq}
use marauder.Torrentmeta.Skip.{has_file, count_file}

-- A mapping from the client's indices to the torrent's files.
abbrev pub Mapping : Type 0
Mapping = List (ℤ × TorrentFile)

-- A layout's reading of a client path: the path inside the torrent, if the layout has one.
abbrev pub MapPath : Type 0
MapPath = Text → Option Text

-- `isPaddingPath`.
unfoldable pub is_padding_path : Text → Bool
unfolding has_prefix
is_padding_path p = has_prefix p (codes ".pad/")

unfoldable pub has_index : Mapping → ℤ → Bool
has_index [] i = false
has_index ((j, g) ∷ out) i = if eq_ℤ j i then true else has_index out i

-- The loop's variables: the counts not yet used, and the pairs made.
pub record Pairing : Type 0 where
  pub remaining : TorrentFile → ℕ
  pub out : Mapping

-- The body of the loop of `bijection` for one client file; `none` is its `return nil, false`.
unfoldable pub pair_file : ClientFile → Text → Pairing → Option Pairing
pair_file c p s =
    let key : TorrentFile = record { path = p; size = c.size } in
    if is_padding_path p
    then some s
    else if s.remaining key == 0
    then none
    else if has_index s.out c.index
    then none
    else some (record {
      remaining = λ f. if file_eq f key then s.remaining f - 1 else s.remaining f;
      out = s.out ++ (c.index, key) ∷ [];
    })

unfoldable pub pair_files : MapPath → List ClientFile → Pairing → Option Pairing
pair_files map_path [] s = some s
pair_files map_path (c ∷ cs) s = do
  p ← map_path c.path
  s' ← pair_file c p s
  pair_files map_path cs s'

-- `bijection(files, manifest, mapPath)`.
unfoldable pub bijection : List ClientFile → List TorrentFile → MapPath → Option Mapping
bijection files manifest map_path = do
  s ← pair_files map_path files (record { remaining = λ f. count_file f manifest; out = [] })
  if length s.out == length manifest then some s.out else none

-- `rootStripper(files)`: the first component must be present and that of the first file.
unfoldable pub strip_root : Text → MapPath
strip_root root p =
    let (first, rest, found) = cut b'/' p in
    if not found || text_eq first [] || text_eq rest [] || not (text_eq first root)
    then none
    else some rest

unfoldable pub root_of : List ClientFile → Text
root_of [] = []
root_of (f ∷ _) = (cut b'/' f.path).0

unfoldable pub root_stripper : List ClientFile → MapPath
unfolding strip_root root_of
root_stripper files = strip_root (root_of files)

-- The two forms of the error that wraps `ErrLayoutMismatch`, with the numbers they print.
pub data LayoutMismatch : Type 0 where
  two_layouts : ℕ → LayoutMismatch
  not_paired : ℕ → ℕ → LayoutMismatch

pub data Mapped : Type 0 where
  mapped : Mapping → Mapped
  mismatch : LayoutMismatch → Mapped

-- `reflect.DeepEqual` on two maps: as many entries, and each of the first in the second.
unfoldable pub has_pair : Mapping → ℤ × TorrentFile → Bool
has_pair out e = any (λ x. eq_ℤ x.0 e.0 && file_eq x.1 e.1) out

unfoldable pub deep_equal : Mapping → Mapping → Bool
deep_equal a b = length a == length b && not (any (λ e. not (has_pair b e)) a)

-- `pickLayout`.
unfoldable pub pick_layout : Option Mapping → Option Mapping → ℕ → ℕ → Mapped
pick_layout (some verbatim) (some rooted) clients files =
    if deep_equal verbatim rooted then mapped verbatim else mismatch (two_layouts clients)
pick_layout (some verbatim) none clients files = mapped verbatim
pick_layout none (some rooted) clients files = mapped rooted
pick_layout none none clients files = mismatch (not_paired clients files)

-- The copy of the list in which a path's backslashes are slashes.
unfoldable pub slashed : List ClientFile → List ClientFile
slashed = map (λ (c : ClientFile). record c { path = replace_byte b'\\' b'/' c.path })

-- `MapClientFiles(client, manifest)`.
unfoldable pub map_client_files : List ClientFile → List TorrentFile → Mapped
map_client_files client manifest =
    let files = slashed client in
    pick_layout (bijection files manifest some) (bijection files manifest (root_stripper files))
      (length files) (length manifest)

-- The indices of a mapping whose file is in `skip`, in the order of the mapping.
unfoldable pub old_indices : Mapping → List TorrentFile → List ℤ
old_indices [] skip = []
old_indices ((i, f) ∷ mapping) skip =
    let rest = old_indices mapping skip in if has_file skip f then i ∷ rest else rest

-- `sort.Ints`.
unfoldable pub insert_index : ℤ → List ℤ → List ℤ
insert_index i [] = i ∷ []
insert_index i (j ∷ js) = if leb_ℤ i j then i ∷ j ∷ js else j ∷ insert_index i js

unfoldable pub sort_indices : List ℤ → List ℤ
unfolding insert_index
sort_indices [] = []
sort_indices (i ∷ is) = insert_index i (sort_indices is)

-- `SkipIndices(mapping, skip)`.
unfoldable pub skip_indices : Mapping → List TorrentFile → List ℤ
unfolding old_indices sort_indices
skip_indices mapping skip = sort_indices (old_indices mapping skip)

-- `if _, ok := strip(f.Path); !ok` for every file of `ClientRoot`.
unfoldable pub all_under : MapPath → List ClientFile → Bool
all_under strip [] = true
all_under strip (f ∷ fs) = is_some (strip f.path) && all_under strip fs

-- `ClientRoot(files, manifest)`; a nil manifest is `none`. The result `("", false)` is `none`.
unfoldable pub client_root : List ClientFile → Option (List TorrentFile) → Option Text
client_root [] manifest = none
client_root (f ∷ fs) none = none
client_root (f ∷ fs) (some manifest) =
    let strip = root_stripper (f ∷ fs) in
    if not (all_under strip (f ∷ fs))
    then none
    else if is_some (bijection (f ∷ fs) manifest strip)
    then some (root_of (f ∷ fs))
    else none
