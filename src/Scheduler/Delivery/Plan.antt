-- ===== src/Scheduler/Delivery/Plan.antt =====
-- `planDelivery` and `latestFiles` of backend/internal/scheduler/update_policy.go.
pub mod Decides
use marauder.Prelude.{
  ℕ, Bool, true, false, not, ◌&&◌, ◌||◌, Option, none, some, List, [], ltb, if◌then◌else◌, length,
  Text, codes, text_eq,
}
use marauder.Domain.{TorrentFile}
use marauder.Infohash.{Scan, ok, fail, panicked, out_of_fuel, Packages, from_torrent}
use marauder.Torrentmeta.Skip.{skip_set}
use marauder.Torrentmeta.Decode.{files}
use marauder.Torrentmeta.Decoder.{done, bad, ran_out}
use marauder.Scheduler.Delivery.{
  Topic, Fallback, unsupported, paused_magnet, paused_unreadable, paused_no_baseline, DeliveryPlan,
}

-- `domain.Payload`.
pub record Payload : Type 0 where
  pub magnet_uri : Text
  pub torrent_file : Text

abbrev pub max_stored_files : ℕ
max_stored_files = 5000

-- The file list of a payload, if it can be read and is not too long to store.
unfoldable pub payload_files : Payload → Option (List TorrentFile)
payload_files payload =
    let read : Option (List TorrentFile) = elim (files payload.torrent_file) [
      | done fs ↦ if ltb max_stored_files (length fs) then none else some fs
      | bad e ↦ none
      | ran_out ↦ none
    ] in
    if text_eq payload.magnet_uri [] && ltb 0 (length payload.torrent_file) then read else none

-- `latestFiles`: the repository may be missing, may fail, and may know no list.
unfoldable pub latest_files :
    Option (Text → Option (Option (List TorrentFile))) → Text → Option (List TorrentFile)
latest_files none hash = none
latest_files (some deliveries) hash = elim (deliveries hash) [ none ↦ none | some fs ↦ fs ]

abbrev pub plain : Option (List TorrentFile) → DeliveryPlan
plain fs = record {
  paused = false;
  files = fs;
  selection = none;
  fallback = none;
  note = [];
  folder = none;
}

-- A plan that adds the torrent paused and leaves the choice of files to the user.
abbrev pub by_hand : Fallback → Text → Option (List TorrentFile) → DeliveryPlan
by_hand why note fs = record (plain fs) { paused = true; fallback = some (why, note) }

abbrev pub unreadable_note : Text
unreadable_note =
    codes "Added paused: could not read the torrent's file list. Pick the new files in your client."

-- A client that cannot pause: the torrent starts, and the note says what was not honoured.
unfoldable pub plan_unsupported : Topic → Option (List TorrentFile) → DeliveryPlan
plan_unsupported t fs =
    if t.only_new_files
    then record (plain fs) {
      fallback =
          some
            (unsupported, codes "This client cannot pause or select files, so all files download.");
    }
    else record (plain fs) { note = codes "This client cannot pause, so the update started." }

-- The selection against the newest other delivery's list.
unfoldable pub plan_selection :
    Option (Text → Option (Option (List TorrentFile))) → List TorrentFile → Text → DeliveryPlan
unfolding latest_files
plan_selection deliveries fs hash = elim (latest_files deliveries hash) [
  | none ↦
      by_hand paused_no_baseline
        (codes
          "Added paused: no earlier file list to compare with. Pick the new files in your client.")
        (some fs)
  | some baseline ↦ record (plain (some fs)) {
    paused = true;
    selection = some (record { hash = hash; files = fs; skip = skip_set baseline fs });
  }
]

unfoldable pub with_hash :
    Option (Text → Option (Option (List TorrentFile)))
    → List TorrentFile
    → Scan Text
    → Scan DeliveryPlan
unfolding plan_selection
with_hash deliveries fs (ok hash) = ok (plan_selection deliveries fs hash)
with_hash deliveries fs (fail e) = ok (by_hand paused_unreadable unreadable_note (some fs))
with_hash deliveries fs panicked = panicked
with_hash deliveries fs out_of_fuel = out_of_fuel

-- The plan of an update whose topic wants only its new files, on a client that can select them.
unfoldable pub plan_new_files :
    Packages
    → Option (Text → Option (Option (List TorrentFile)))
    → Payload
    → Option (List TorrentFile)
    → Scan DeliveryPlan
unfolding with_hash
plan_new_files pk deliveries payload fs =
    if not (text_eq payload.magnet_uri [])
    then ok (
        by_hand paused_magnet
          (codes "Added paused: a magnet link has no file list. Pick the new files in your client.")
          fs)
    else elim fs [
      | none ↦ ok (by_hand paused_unreadable unreadable_note none)
      | some list_ ↦ with_hash deliveries list_ (from_torrent pk payload.torrent_file)
    ]

-- `planDelivery`; `can_select` is the client's `WithFileSelection` capability.
unfoldable pub plan_delivery :
    Packages
    → Option (Text → Option (Option (List TorrentFile)))
    → Topic
    → (episodic can_select : Bool) → Payload
    → Scan DeliveryPlan
unfolding payload_files plan_unsupported plan_new_files
plan_delivery pk deliveries t episodic can_select payload =
    let fs = payload_files payload in
    if episodic || text_eq t.last_hash [] || not t.add_paused_on_update && not t.only_new_files
    then ok (plain fs)
    else if not can_select
    then ok (plan_unsupported t fs)
    else if not t.only_new_files
    then ok (record (plain fs) { paused = true })
    else plan_new_files pk deliveries payload fs
