-- ===== src/Scheduler/Delivery/FolderName.antt =====
-- `planFolderName` and what it calls, of backend/internal/scheduler/folder_name.go.
use marauder.Prelude.{
  ℕ, String, Bool, false, not, ◌||◌, Option, none, some, List, [], ◌==◌, if◌then◌else◌, is_some,
  length, Text, text_eq,
}
use marauder.Domain.{TorrentFile, ClientFile}
use marauder.Infohash.{Scan, ok, fail, ◌>>>◌, Packages, from_payload}
use marauder.Torrentmeta.Decode.{files, root_name}
use marauder.Torrentmeta.Decoder.{Decoded, done, bad, ran_out}
use marauder.Torrentmeta.Layout.{client_root}
use marauder.Scheduler.Delivery.{
  Topic, unset, default_name, custom_name, keep_name, other_mode, FolderPlan, rename_to,
  cannot_apply, FolderResult, magnet, single_file, unreadable, unsupported_client,
}
use marauder.Scheduler.Delivery.Plan.{Payload}
use marauder.Scheduler.Delivery.Folder.{cannot_note}

-- The delivery before this one, as `LatestOther` returns it.
pub record Earlier : Type 0 where
  pub client_id : Option ℕ
  pub infohash : Text
  pub files : Option (List TorrentFile)

-- What planning reads: the delivery repository (if any; the outer `none` is an error), the client in
-- use, its capabilities, its file list of another torrent, and the write of the remembered name (if
-- the repository has it).
pub record Sources : Type 0 where
  pub latest_other : Option (Text → Option (Option Earlier))
  pub client_id : Option ℕ
  pub can_select : Bool
  pub can_rename : Bool
  pub client_files : Text → Option (List ClientFile)
  pub set_seen : Option (Text → Bool)

module _ (src : Sources) where
  -- `rememberFolderName`: the topic with the name it remembers.
  unfoldable pub store_seen : Text → Topic → Topic
  store_seen name t = elim src.set_seen [
    | none ↦ t
    | some write ↦ if write name then record t { folder_name_seen = name } else t
  ]

  unfoldable pub remember_folder_name : Text → Topic → Topic
  unfolding store_seen
  remember_folder_name name t = elim t.folder_mode [
    | keep_name ↦ if text_eq name t.folder_name_seen then t else store_seen name t
    | unset ↦ t
    | default_name ↦ t
    | custom_name ↦ t
    | other_mode ↦ t
  ]

  -- The earlier delivery went to this client.
  unfoldable pub same_client : Earlier → Bool
  same_client prev = elim prev.client_id [
    | none ↦ false
    | some id ↦ elim src.client_id [ none ↦ false | some cfg ↦ id == cfg ]
  ]

  -- The top folder of the earlier torrent, as the client shows it and its manifest confirms it.
  unfoldable pub earlier_root : Earlier → Option Text
  unfolding same_client
  earlier_root prev =
      let root = elim (src.client_files prev.infohash) as (λ _. Option Text) [
        | none ↦ none
        | some fs ↦ client_root fs prev.files
      ] in
      if same_client prev then root else none

  unfoldable pub live_root : Text → Option Text
  unfolding earlier_root
  live_root hash = elim src.latest_other [
    | none ↦ none
    | some latest ↦ elim (latest hash) [
      | none ↦ none
      | some none ↦ none
      | some (some prev) ↦ earlier_root prev
    ]
  ]

  -- `keepFolderName`: the name, and the topic with what it remembers.
  unfoldable pub keep_folder_name : Text → Topic → Text × Topic
  unfolding live_root remember_folder_name
  keep_folder_name hash t =
      if not src.can_select || not (is_some src.client_id)
      then (t.folder_name_seen, t)
      else elim (live_root hash) [
        | none ↦ (t.folder_name_seen, t)
        | some root ↦ (root, remember_folder_name root t)
      ]

  -- The name wanted.
  unfoldable pub wanted_name : Text → Topic → Text × Topic
  unfolding keep_folder_name
  wanted_name hash t = elim t.folder_mode [
    | custom_name ↦ (t.folder_name, t)
    | keep_name ↦ keep_folder_name hash t
    | unset ↦ ([], t)
    | default_name ↦ ([], t)
    | other_mode ↦ ([], t)
  ]

  -- `cannot(result, reason)`.
  abbrev pub cannot : Text → FolderResult → String → Option FolderPlan
  cannot want result reason = some (cannot_apply want result (cannot_note want reason))

  -- The end of `planFolderName`: the manifest is known.
  unfoldable pub plan_rename : Text → Text → List TorrentFile → Option FolderPlan
  plan_rename hash want manifest =
      if not src.can_rename || not src.can_select
      then cannot want unsupported_client "this client cannot rename folders"
      else some (rename_to hash manifest want)

  -- `if files == nil`: the manifest is read here where the plan has none.
  unfoldable pub plan_manifest :
      Text → Text → Payload → Option (List TorrentFile) → Option FolderPlan
  unfolding plan_rename
  plan_manifest hash want payload (some fs) = plan_rename hash want fs
  plan_manifest hash want payload none = elim (files payload.torrent_file) [
    | done fs ↦ plan_rename hash want fs
    | bad e ↦ cannot want unreadable "could not read the torrent"
    | ran_out ↦ cannot want unreadable "could not read the torrent"
  ]

  -- `planFolderName` for a torrent file whose name is read.
  unfoldable pub plan_named :
      Text
      → Text
      → Payload
      → Option (List TorrentFile)
      → Topic
      → Decoded (Text × Bool)
      → Option FolderPlan × Topic
  unfolding plan_manifest remember_folder_name
  plan_named hash want payload fs t (bad e) =
      (cannot want unreadable "could not read the torrent", t)
  plan_named hash want payload fs t ran_out =
      (cannot want unreadable "could not read the torrent", t)
  plan_named hash want payload fs t (done (name, multi_file)) =
      if not multi_file
      then (cannot want single_file "the torrent is a single file", t)
      else if text_eq name want
      then (none, remember_folder_name want t)
      else (plan_manifest hash want payload fs, t)

  -- `planFolderName` once the wanted name is known.
  unfoldable pub plan_wanted :
      Text → Payload → Option (List TorrentFile) → Text × Topic → Option FolderPlan × Topic
  unfolding plan_named
  plan_wanted hash payload fs (want, t) =
      if text_eq want []
      then (none, t)
      else if not (text_eq payload.magnet_uri []) || length payload.torrent_file == 0
      then (cannot want magnet "a magnet link has no file list", t)
      else plan_named hash want payload fs t (root_name payload.torrent_file)

  -- The infohash, which is empty where it cannot be computed.
  unfoldable pub hash_or_empty : Scan Text → Scan Text
  hash_or_empty (fail e) = ok []
  hash_or_empty r = r

  -- `planFolderName`: the plan, if there is one, and the topic with what it remembers.
  unfoldable pub plan_folder_name :
      Packages
      → Topic
      → (episodic : Bool) → Payload
      → Option (List TorrentFile)
      → Scan (Option FolderPlan × Topic)
  unfolding wanted_name plan_wanted hash_or_empty
  plan_folder_name pk t episodic payload fs =
      let planned =
        hash_or_empty (from_payload pk payload.magnet_uri payload.torrent_file) >>> λ hash.
        ok (plan_wanted hash payload fs (wanted_name hash t)) in
      if episodic || t.notify_only then ok (none, t) else planned
