-- ===== src/Torrentmeta/Decode.antt =====
-- The decoder of backend/internal/torrentmeta/bencode.go, and what torrentmeta.go and root.go read of
-- a decoded torrent: `Files` and `RootName`. A position of the data is a ℕ; an error stands without
-- the numbers its text prints.
use marauder.Prelude.{
  Bool, false, ◌||◌, Option, none, some, List, [], ◌∷◌, ◌++◌, if◌then◌else◌, ◌>>=◌, is_some, Text,
  codes, text_eq, contains,
}
use marauder.Prelude.Int.{ℤ, pos, ltb_ℤ}
use marauder.Bencode.{Bencode, int, str, list, dict, Items, nil, cons, Fields, end, field}
use marauder.Domain.{TorrentFile}
use marauder.Torrentmeta.Decoder.{
  Decoded, ◌>>>◌, decode, not_a_dictionary, no_info, not_an_entry, no_path, no_length,
  bad_single_file, v2_only, no_content, no_name, done, bad,
}

-- A lookup in the map that the dictionary's loop fills: the last entry of a key stands.
unfoldable pub lookup : Text → Fields → Option Bencode
lookup key end = none
lookup key (field k v fs) = elim (lookup key fs) [
  | none ↦ if text_eq k key then some v else none
  | some w ↦ some w
]

-- The type assertions on a looked-up value.
unfoldable pub as_dict : Option Bencode → Option Fields
as_dict (some (dict fs)) = some fs
as_dict _ = none

unfoldable pub as_list : Option Bencode → Option Items
as_list (some (list xs)) = some xs
as_list _ = none

unfoldable pub as_int : Option Bencode → Option ℤ
as_int (some (int z)) = some z
as_int _ = none

unfoldable pub as_str : Option Bencode → Option Text
as_str (some (str s)) = some s
as_str _ = none

-- A path list's parts, if all of them are strings.
unfoldable pub path_parts : Items → Option (List Text)
unfolding as_str
path_parts nil = some []
path_parts (cons v vs) = do s ← as_str (some v); rest ← path_parts vs; some (s ∷ rest)

-- The body of the loop of `pathOf` for one key; `[]` is its `continue`.
unfoldable pub path_at : Text → Fields → List Text
unfolding lookup as_list path_parts
path_at key entry = elim (as_list (lookup key entry)) [
  | none ↦ []
  | some raw ↦ elim (path_parts raw) [ none ↦ [] | some parts ↦ parts ]
]

-- `pathOf(entry)`.
unfoldable pub path_of : Fields → List Text
unfolding path_at
path_of entry = elim (path_at (codes "path.utf-8") entry) [
  | [] ↦ path_at (codes "path") entry
  | part ∷ parts ↦ part ∷ parts
]

unfoldable pub has_p : Option Text → Bool
unfolding contains
has_p none = false
has_p (some attr) = contains attr (codes "p")

unfoldable pub under_pad : List Text → Bool
under_pad [] = false
under_pad (part ∷ []) = false
under_pad (part ∷ _ ∷ _) = text_eq part (codes ".pad")

-- `isPadding(entry, parts)`.
unfoldable pub is_padding : Fields → List Text → Bool
unfolding has_p under_pad lookup as_str
is_padding entry parts = has_p (as_str (lookup (codes "attr") entry)) || under_pad parts

-- `strings.Join(parts, "/")`.
unfoldable pub join_path : List Text → Text
join_path [] = []
join_path (part ∷ []) = part
join_path (part ∷ next ∷ rest) = part ++ b'/' ∷ join_path (next ∷ rest)

-- The body of the loop of `Files` for one entry; a padding entry gives none.
unfoldable pub read_entry : Option Fields → Decoded (Option TorrentFile)
unfolding path_of is_padding join_path lookup as_int
read_entry none = bad not_an_entry
read_entry (some entry) = elim (path_of entry) [
  | [] ↦ bad no_path
  | part ∷ parts ↦
      if is_padding entry (part ∷ parts)
      then done none
      else elim (as_int (lookup (codes "length") entry)) [
        | none ↦ bad no_length
        | some size ↦
            if ltb_ℤ size (pos 0)
            then bad no_length
            else done (some (record { path = join_path (part ∷ parts); size = size }))
      ]
]

unfoldable pub add_entry : Option TorrentFile → List TorrentFile → List TorrentFile
add_entry none fs = fs
add_entry (some f) fs = f ∷ fs

unfoldable pub read_entries : Items → Decoded (List TorrentFile)
unfolding read_entry add_entry as_dict
read_entries nil = done []
read_entries (cons raw list_) =
    read_entry (as_dict (some raw)) >>> λ f. read_entries list_ >>> λ fs. done (add_entry f fs)

unfoldable pub first_string : Fields → List Text → Text
unfolding lookup as_str
first_string m [] = []
first_string m (k ∷ ks) = elim (as_str (lookup k m)) [
  | none ↦ first_string m ks
  | some s ↦ if text_eq s [] then first_string m ks else s
]

abbrev pub name_keys : List Text
name_keys = codes "name.utf-8" ∷ codes "name" ∷ []

-- `root.(map[string]any)` and `top["info"].(map[string]any)`.
unfoldable pub info_of : Bencode → Decoded Fields
unfolding lookup as_dict
info_of root = elim (as_dict (some root)) [
  | none ↦ bad not_a_dictionary
  | some top ↦ elim (as_dict (lookup (codes "info") top)) [
    | none ↦ bad no_info
    | some info ↦ done info
  ]
]

-- The end of `Files`, where the info dictionary has no file list.
unfoldable pub single_file : Fields → Decoded (List TorrentFile)
unfolding first_string lookup as_int
single_file info = elim (as_int (lookup (codes "length") info)) [
  | none ↦ if is_some (lookup (codes "file tree") info) then bad v2_only else bad no_content
  | some size ↦
      let name = first_string info name_keys in
      if text_eq name [] || ltb_ℤ size (pos 0)
      then bad bad_single_file
      else done (record { path = name; size = size } ∷ [])
]

unfoldable pub files_of_info : Fields → Decoded (List TorrentFile)
unfolding read_entries single_file lookup as_list
files_of_info info = elim (as_list (lookup (codes "files") info)) [
  | none ↦ single_file info
  | some list_ ↦ read_entries list_
]

-- `Files(data)`.
unfoldable pub files : Text → Decoded (List TorrentFile)
unfolding decode info_of files_of_info
files data_ = decode data_ >>> λ root. info_of root >>> λ info. files_of_info info

-- `RootName(data)`, on the decoded torrent.
unfoldable pub root_name : Text → Decoded (Text × Bool)
unfolding decode info_of first_string lookup as_list
root_name data_ = decode data_ >>> λ root. info_of root >>> λ info.
    (let name = first_string info name_keys in
      if text_eq name []
      then bad no_name
      else done (name, is_some (as_list (lookup (codes "files") info))))
