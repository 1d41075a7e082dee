-- ===== src/Examples/Deliveries.antt =====
-- Deliveries: backend/internal/scheduler/update_policy.go and folder_name.go.
use marauder.Prelude.{
  All, ◌≡◌, refl, true, false, Option, none, some, List, [], ◌∷◌, Text, codes, text_eq, has_prefix,
  cut, replace_byte, map, leb, ◌&&◌, ◌+◌, if◌then◌else◌,
}
use marauder.Prelude.Decimal.{atoi}
use marauder.Prelude.Int.{pos, wrap64}
use marauder.Domain.{TorrentFile}
use marauder.Infohash.{ok}
use marauder.Torrentmeta.Skip.{skip_set}
use marauder.Torrentmeta.Layout.{map_client_files, skip_indices}
use marauder.Scheduler.Delivery.{
  listed, skipped, started, stored, Answers, Topic, FileSelection, DeliveryPlan, rename_to,
  custom_name, renames,
}
use marauder.Scheduler.Delivery.Plan.{Payload, payload_files, plan_delivery}
use marauder.Scheduler.Delivery.Plan.Decides.{FromBaseline, planned_delivery-EachReady}
use marauder.Scheduler.Delivery.Selection.{select_new_files}
use marauder.Scheduler.Delivery.Folder.{Applied, apply_folder_name}
use marauder.Scheduler.Delivery.Naming.{Renaming, plan_wanted-Renaming}
use marauder.Scheduler.Delivery.FolderName.{Sources, plan_wanted, wanted_name}
use marauder.Scheduler.Delivery.Finish.{finish_delivery, after_folder}
use marauder.Scheduler.Delivery.Finish.Ready.{EachReady}
use marauder.Scheduler.Delivery.Finish.Starts.{finish_delivery-EachReady}
use marauder.Scheduler.Delivery.Finish.Rename.{
  EachRenameSafe, starts, apply_folder_name-EachRenameSafe,
}
use marauder.Scheduler.Delivery.Finish.Ends.{
  CheckedOrStopped, after_folder-checked, after_folder-unstarted,
}
use marauder.Scheduler.Replace.{Delivered, Clients, replace_previous}
use marauder.Scheduler.Replace.Kept.{Elsewhere, replace_previous_keeps}
use marauder.Examples.Hashes.{plain_packages}
use marauder.Examples.Files.{first_file, old_pack, new_pack, shown_pack}

-- A client that accepts every call, and lists the pack at once.
abbrev pub willing : Answers
willing = record {
  files = λ tr. some shown_pack;
  skip_files = λ tr is. true;
  start = λ tr. true;
  stop = λ tr. true;
  disk_state = λ tr. some (record { is_stopped = true; bytes_on_disk = pos 0 });
  rename_root = λ tr old new. true;
  recheck = λ tr. true;
  set_files = λ tr fs. true;
  polls = λ tr. 3;
  has_deliveries = true;
}

abbrev updating : Topic
updating = record {
  last_hash = codes "h0";
  notify_only = false;
  add_paused_on_update = false;
  only_new_files = true;
  folder_mode = custom_name;
  folder_name = codes "Show";
  folder_name_seen = [];
}

abbrev pack_selection : FileSelection
pack_selection = record { hash = codes "h1"; files = new_pack; skip = old_pack }

abbrev pack_plan : DeliveryPlan
pack_plan = record {
  paused = true;
  files = some new_pack;
  selection = some pack_selection;
  fallback = none;
  note = [];
  folder = some (rename_to (codes "h1") new_pack (codes "Show"));
}

delivery_example : EachReady pack_selection (finish_delivery willing updating pack_plan []).1
delivery_example =
    finish_delivery-EachReady willing pack_selection updating pack_plan [] refl refl tt

-- The pack without a rename: the client lists it, skips the two old files and starts.
finish_run :
    (finish_delivery willing updating (record pack_plan { folder = none }) []).1
    ≡ stored (some new_pack) true
      ∷ started true
      ∷ skipped (pos 0 ∷ pos 1 ∷ []) true
      ∷ listed (some shown_pack)
      ∷ []
unfolding finish_delivery marauder.Scheduler.Delivery.Selection.finish_update_policy
    marauder.Scheduler.Delivery.Selection.is_pending marauder.Scheduler.Delivery.Selection.non_empty
    marauder.Scheduler.Delivery.Selection.select_answer
    marauder.Scheduler.Delivery.Selection.select_listed
    marauder.Scheduler.Delivery.Selection.select_mapped
    marauder.Scheduler.Delivery.Selection.skip_old
    marauder.Scheduler.Delivery.Selection.start_selected
    marauder.Scheduler.Delivery.Selection.store_if
    marauder.Scheduler.Delivery.Selection.store_selected_files
    marauder.Scheduler.Delivery.Selection.wait_for_files select_new_files map_client_files
    skip_indices replace_byte text_eq cut has_prefix marauder.Torrentmeta.Skip.count_file
    marauder.Torrentmeta.Skip.has_file marauder.Domain.file_eq
    marauder.Torrentmeta.Layout.pick_layout marauder.Torrentmeta.Layout.bijection
    marauder.Torrentmeta.Layout.pair_files marauder.Torrentmeta.Layout.slashed
    marauder.Torrentmeta.Layout.pair_file marauder.Torrentmeta.Layout.is_padding_path
    marauder.Torrentmeta.Layout.root_stripper marauder.Torrentmeta.Layout.has_index
    marauder.Torrentmeta.Layout.deep_equal marauder.Torrentmeta.Layout.has_pair
    marauder.Torrentmeta.Layout.insert_index marauder.Torrentmeta.Layout.old_indices
    marauder.Torrentmeta.Layout.root_of marauder.Torrentmeta.Layout.sort_indices
    marauder.Torrentmeta.Layout.strip_root marauder.Scheduler.Delivery.Finish.finish_plain
finish_run = refl

rename_safe_example :
    EachRenameSafe (apply_folder_name willing new_pack (codes "Show") shown_pack []).1
rename_safe_example =
    apply_folder_name-EachRenameSafe willing new_pack (codes "Show") shown_pack [] tt

abbrev same_selection : FileSelection
same_selection = record { hash = codes "h1"; files = new_pack; skip = new_pack }

abbrev renamed_pack : Applied
renamed_pack = record { files = shown_pack; note = codes "n"; ok = true; recheck = true }

checked_example : CheckedOrStopped (after_folder willing updating pack_plan (renamed_pack, [])).1
checked_example = after_folder-checked willing updating pack_plan renamed_pack [] refl

abbrev failed_pack : Applied
failed_pack = record { files = shown_pack; note = codes "n"; ok = false; recheck = false }

unstarted_example : starts (after_folder willing updating pack_plan (failed_pack, [])).1 ≡ starts []
unstarted_example = after_folder-unstarted willing updating pack_plan failed_pack [] refl

-- A torrent with one file, in a folder.
abbrev torrent_bytes : Text
torrent_bytes = codes "d4:infod5:filesld6:lengthi5e4:pathl1:aeee4:name4:packee"

abbrev payload : Payload
payload = record { magnet_uri = []; torrent_file = torrent_bytes }

abbrev known : Option (Text → Option (Option (List TorrentFile)))
known = some (λ hash. some (some (first_file ∷ [])))

abbrev one_selection : FileSelection
one_selection = record {
  hash = codes "d5:filesld6:lengthi5e4:pathl1:aeee4:name4:packe";
  files = first_file ∷ [];
  skip = first_file ∷ [];
}

abbrev one_plan : DeliveryPlan
one_plan = record {
  paused = true;
  files = some (first_file ∷ []);
  selection = some one_selection;
  fallback = none;
  note = [];
  folder = none;
}

planned_run : plan_delivery plain_packages known updating false true payload ≡ ok one_plan
unfolding plan_delivery text_eq marauder.Torrentmeta.Decode.files
    marauder.Torrentmeta.Decoder.decode_str marauder.Infohash.index_byte_from atoi
    marauder.Torrentmeta.Decoder.decode_int marauder.Infohash.from_torrent
    marauder.Infohash.info_dict_bytes marauder.Infohash.scan_string wrap64
    marauder.Infohash.scan_value marauder.Infohash.scan_key skip_set
    marauder.Torrentmeta.Skip.has_file marauder.Domain.file_eq
planned_run = refl

planned_example :
    FromBaseline plain_packages known payload.torrent_file (payload_files payload) one_selection
    × EachReady one_selection
        (finish_delivery willing updating (record one_plan { folder = pack_plan.folder }) []).1
planned_example =
    planned_delivery-EachReady plain_packages known updating false true payload one_plan
      one_selection pack_plan.folder willing planned_run refl

abbrev pub sources : Sources
sources = record {
  latest_other = none;
  client_id = some 1;
  can_select = true;
  can_rename = true;
  client_files = λ hash. none;
  set_seen = none;
}

renames_run :
    renames
      (plan_wanted sources
        (codes "h1")
        payload
        (some (first_file ∷ []))
        (wanted_name sources (codes "h1") updating)).0
    ≡ true
unfolding plan_wanted wanted_name renames text_eq marauder.Torrentmeta.Decode.root_name
    marauder.Torrentmeta.Decoder.decode_str marauder.Infohash.index_byte_from atoi
    marauder.Torrentmeta.Decoder.decode_int
renames_run = refl

folder_example : Renaming sources updating payload (codes "Show")
folder_example =
    plan_wanted-Renaming sources (codes "h1") payload (some (first_file ∷ [])) updating refl
      renames_run

-- Three deliveries by two clients, of which the last is current.
abbrev prior : List Delivered
prior =
    record { client_id = some 1; infohash = codes "aa" }
    ∷ record { client_id = some 2; infohash = codes "bb" }
    ∷ record { client_id = some 1; infohash = codes "cc" }
    ∷ []

abbrev pub removers : Clients
removers = record {
  name_of = λ id. some (codes "qbittorrent");
  removal_of = λ name. some true;
  decrypts = λ id. true;
  removes = λ id hs b. true;
}

-- Lower case, of the ASCII letters.
abbrev ascii_lower : Text → Text
ascii_lower = map (λ c. if leb 65 c && leb c 90 then c + 32 else c)

replace_example :
    All
      (λ r. All (Elsewhere ascii_lower (codes "CC" ∷ [])) r.hashes)
      (replace_previous ascii_lower removers true prior (codes "CC" ∷ [])).0
    × All
        (Elsewhere ascii_lower (codes "CC" ∷ []))
        (replace_previous ascii_lower removers true prior (codes "CC" ∷ [])).1
replace_example = replace_previous_keeps ascii_lower removers true prior (codes "CC" ∷ [])

replace_run :
    (replace_previous ascii_lower removers true prior (codes "CC" ∷ [])).1
    ≡ codes "aa" ∷ codes "bb" ∷ []
unfolding replace_previous marauder.Scheduler.Replace.group_from text_eq
replace_run = refl
