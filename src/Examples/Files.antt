-- ===== src/Examples/Files.antt =====
-- backend/internal/torrentmeta: a pack of two files that gains a third.
use marauder.Prelude.{
  Text, ℕ, String, ◌≡◌, refl, ◌≢◌, true, none, some, List, [], ◌∷◌, length, codes, text_eq, cut,
  replace_byte,
}
use marauder.Prelude.Int.{pos}
use marauder.Domain.{TorrentFile, ClientFile}
use marauder.Torrentmeta.Skip.{has_file, count_file}
use marauder.Torrentmeta.Layout.{
  Mapping, bijection, map_client_files, mapped, mismatch, not_paired, Mapped, root_stripper,
  slashed, skip_indices, client_root,
}
use marauder.Torrentmeta.Decoder.{done, ran_out}
use marauder.Torrentmeta.Decode.{files, root_name}
use marauder.Torrentmeta.Fuel.{files_total}
use marauder.Torrentmeta.Layout.Unique.{
  FitsTorrent, map_client_files_sound, map_client_files_complete,
}

abbrev pub first_file : TorrentFile
first_file = record { path = codes "a"; size = pos 5 }

abbrev pub second_file : TorrentFile
second_file = record { path = codes "b"; size = pos 7 }

abbrev pub third_file : TorrentFile
third_file = record { path = codes "c"; size = pos 9 }

abbrev pub old_pack : List TorrentFile
old_pack = first_file ∷ second_file ∷ []

abbrev pub new_pack : List TorrentFile
new_pack = first_file ∷ second_file ∷ third_file ∷ []

abbrev pub shown_as : ℕ → String → ℕ → ClientFile
shown_as i path size = record { index = pos i; path = codes path; size = pos size; wanted = true }

-- The client's list, under its top folder and in an order of its own.
abbrev pub shown_pack : List ClientFile
shown_pack = shown_as 2 "pack/c" 9 ∷ shown_as 0 "pack/a" 5 ∷ shown_as 1 "pack/b" 7 ∷ []

abbrev pub pack_mapping : Mapping
pack_mapping = (pos 2, third_file) ∷ (pos 0, first_file) ∷ (pos 1, second_file) ∷ []

pub shown_pack-mapped : map_client_files shown_pack new_pack ≡ mapped pack_mapping
unfolding map_client_files marauder.Torrentmeta.Layout.pick_layout bijection
    marauder.Torrentmeta.Layout.pair_files slashed marauder.Torrentmeta.Layout.pair_file
    marauder.Torrentmeta.Layout.is_padding_path replace_byte count_file marauder.Domain.file_eq
    text_eq root_stripper cut marauder.Torrentmeta.Layout.has_index
shown_pack-mapped = refl

map_client_files_example : FitsTorrent shown_pack new_pack pack_mapping
map_client_files_example = map_client_files_sound shown_pack new_pack pack_mapping shown_pack-mapped

pack_not_nil : new_pack ≢ []
pack_not_nil e = cc

completeness_example :
    map_client_files shown_pack new_pack
    ≡ (elim (bijection (slashed shown_pack) new_pack some) as (λ _. Mapped) [
      | some v ↦ mapped v
      | none ↦
          elim (bijection (slashed shown_pack) new_pack (root_stripper (slashed shown_pack)))
            as (λ _. Mapped) [
              | some r ↦ mapped r
              | none ↦ mismatch (not_paired (length (slashed shown_pack)) (length new_pack))
            ]
    ])
completeness_example = map_client_files_complete shown_pack new_pack pack_not_nil

-- A client that shows nothing but padding, in a torrent without content.
abbrev padding : List ClientFile
padding = shown_as 0 ".pad/.pad/1" 3 ∷ []

padding_verbatim : bijection padding [] some ≡ some []
unfolding bijection marauder.Torrentmeta.Layout.pair_files marauder.Torrentmeta.Layout.pair_file
    marauder.Torrentmeta.Layout.is_padding_path
padding_verbatim = refl

padding_rooted : bijection padding [] (root_stripper padding) ≡ some []
unfolding bijection marauder.Torrentmeta.Layout.pair_files root_stripper cut text_eq
    marauder.Torrentmeta.Layout.pair_file marauder.Torrentmeta.Layout.is_padding_path
padding_rooted = refl

skip_indices_run : skip_indices pack_mapping old_pack ≡ pos 0 ∷ pos 1 ∷ []
unfolding skip_indices has_file marauder.Domain.file_eq text_eq
skip_indices_run = refl

root_run : client_root shown_pack (some new_pack) ≡ some (codes "pack")
unfolding client_root marauder.Torrentmeta.Layout.all_under root_stripper cut text_eq bijection
    marauder.Torrentmeta.Layout.pair_files marauder.Torrentmeta.Layout.pair_file
    marauder.Torrentmeta.Layout.is_padding_path count_file marauder.Domain.file_eq
    marauder.Torrentmeta.Layout.has_index
root_run = refl

abbrev pack_bytes : Text
pack_bytes = codes "d4:infod5:filesld6:lengthi5e4:pathl1:aeee4:name4:packee"

pack_files_run : files pack_bytes ≡ done (first_file ∷ [])
unfolding files text_eq marauder.Torrentmeta.Decoder.decode_str marauder.Infohash.index_byte_from
    marauder.Prelude.Decimal.atoi marauder.Torrentmeta.Decoder.decode_int
pack_files_run = refl

files_total_example : (files pack_bytes ≢ ran_out) × (root_name pack_bytes ≢ ran_out)
files_total_example = files_total pack_bytes
